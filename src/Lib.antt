-- ===== src/Lib.antt =====
-- go-oid4vp: a model of the package and what is proved of it.
--
-- An OID4VP verifier library: it makes sessions for requests to wallets, hands out signed request
-- objects, takes the wallets' encrypted responses apart, and answers errors. This development
-- models the package's own files (the root package of the repository) and proves how they behave.
--
-- How the parts interact: `New` (engine.go) checks a configuration once and makes an engine.
-- `NewSession` (newsession.go) makes a session and the invocation that leads a wallet to it; the
-- consumer saves it in a `SessionStore` (session.go, memstore.go). The wallet fetches the request
-- object once (requestobject.go) or gets it through the browser (dcapi.go), with transaction_data
-- where it is enabled (transactiondata.go). The consumer takes the session from the store by
-- `ConsumeOnce` and hands the response to `ProcessResponse` (response.go) or
-- `ProcessDCAPIResponse` (dcapi.go); in the same-device flow a one-time code leads the browser
-- back (samedevice.go). An mdoc presentation has a session transcript (transcript.go), and an
-- error has a reply (errors.go, errorresponse.go).
--
-- Which file models what:
-- - Engine: engine.go, `New` with `check_identity`, `check_algorithms`, `check_urls` and `build`;
--   Engine/Checks, Accepts and New hold the theorems.
-- - Session: session.go. Store: memstore.go, one function per method; Store/Spec: the contract of
--   `SessionStore` as a map from ids to sessions, in which the consumed mark is sticky;
--   Store/Plain: the map in which a save overwrites, as the in-memory store does;
--   Store/Interface: `SessionStore` as a record of operations, and what it means to implement its
--   contract, as far as no save takes a mark away; Store/Refines, Store/Once, Store/Implements
--   and Store/Client hold the theorems. StoreTest: storetest/storetest.go, one function per
--   subtest; its child modules hold the proof that an implementation passes.
-- - NewSession, NewSession/Spec: newsession.go. NewSession/Spec/Texts, NewSession/Spec/Valid,
--   Fresh, Secrets and Link hold the theorems.
-- - Request, Request/Claims, Request/Metadata: requestobject.go. Request/Once, Request/Says and
--   Request/Published hold the theorems.
-- - Response, Response/VpToken, Response/Process: response.go. Response/Opened,
--   Response/Reported, Response/Refusal and Refuses, Response/VpToken/Bound and Order, and
--   Response/Process/Sound and Status hold the theorems.
-- - Lifecycle: the calls of all these files on one session, as a step relation, with the
--   invariant in Lifecycle/Later and Keeps, and saved again in a store in Lifecycle/Replay.
--   Exchange: newsession.go, the store and response.go together with a wallet, which is not part
--   of the package; Exchange/Fetches, Completes and Apart hold the theorems.
-- - SameDevice: samedevice.go, with the theorems in SameDevice/Code and SameDevice/Redirect.
--   Dcapi, Dcapi/Process: dcapi.go, with the theorems in Dcapi/Wording, Says, Sound and Status.
--   Transaction: transactiondata.go. Transcript: transcript.go. WalletMetadata:
--   walletmetadata.go.
-- - Fault: errors.go, with errors.Is and errors.As; Fault/Response: errorresponse.go; Fault/Table
--   and Fault/Echo hold the theorems.
-- - Machine: the state that a method of the engine can read or change: the random source, the
--   clock, and the session that its argument points to. A method is a function from machines to a
--   result and a machine, and what it wrote before an error stays written.
-- - Base64 and Form: the standard library's raw URL base64, query escaping and form parsing
--   (url.ParseQuery, with its limit of 10,000 parts), as far as they are used. Json: the values
--   handed to json.Marshal. Base: byte strings, lists, maps and integers.
-- - Platform: what the package calls and does not contain, as one record of parameters: go-dcql,
--   go-eudi-crypto, go-eudi-rpcert, go-mdoc, and Go's parsers of URLs, JSON, keys and
--   certificates. No law is assumed of it; what an exchange with a wallet needs of decryption and
--   of key storage is the record `Wallet` in Exchange. The store's JSON encoding of a session is
--   the record `Codec` in Store, whose laws say that the sessions called storable come back as
--   they were.
-- - Examples: a concrete instance of the parameters (Examples/Toy) and runs on it.
--
-- Bounds and fuel: there is no fuel. Loops are structural recursion on lists. Strings are lists
-- of bytes, times are nanoseconds in the natural numbers, and a method of the store is one step,
-- as it holds the mutex throughout.
--
-- Not modelled: the fixed words of error messages (what they quote is), contexts and
-- cancellation, nil maps and slices apart from empty ones, times before the epoch, pointers (a
-- session that is handed out is a value, and what a caller's assignment to it does to a store is
-- the operation `mutated` of `SessionStore`), and the JSON text of requests and replies, which
-- the parameters stand for.
pub mod Base
pub mod Json
pub mod Fault
pub mod Platform
pub mod Session
pub mod Base64
pub mod Form
pub mod Machine
pub mod Store
pub mod Engine
pub mod NewSession
pub mod Request
pub mod Response
pub mod SameDevice
pub mod Dcapi
pub mod Transaction
pub mod Transcript
pub mod WalletMetadata
pub mod Lifecycle
pub mod Exchange
pub mod StoreTest
pub mod Examples
