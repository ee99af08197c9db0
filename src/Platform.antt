-- ===== src/Platform.antt =====
-- What the package calls and does not contain: the libraries go-dcql, go-eudi-crypto,
-- go-eudi-rpcert and go-mdoc, and Go's parsers for URLs, JSON and keys. They are one parameter of
-- the model. A result `none` is the callee's error; its text is not modelled.
use go_oid4vp.Base.{ℕ, Bool, Option, List, ℤ}
use go_oid4vp.Base.Bytes.{Bytes}
use go_oid4vp.Json.{Json}

-- The fields of `dcql.CredentialQuery` that the package reads.
pub record CredentialQuery : Type 0 where
  pub id : Bytes
  pub format : Bytes

-- The fields and methods of `url.URL` that the package reads; `has_user` is `User != nil`.
pub record Url : Type 0 where
  pub scheme : Bytes
  pub host : Bytes
  pub hostname : Bytes
  pub path : Bytes
  pub raw_query : Bytes
  pub fragment : Bytes
  pub has_user : Bool

-- What `dec.Decode(&p)` reads of a decrypted response (`responsePayload`), and `dec.More()` after
-- it. The members of `vp_token` come with distinct keys, in Go's order of iteration.
pub record Payload : Type 0 where
  pub vp_token : List (Bytes × Bytes)
  pub state : Bytes
  pub more : Bool

-- `dec.More()` is false at the end of the text, and also before a closing brace or bracket.
-- A document decoded into `map[string]json.RawMessage`: whether the map is nil, and `dec.More()`.
pub record Document : Type 0 where
  pub is_nil : Bool
  pub more : Bool

-- A JOSE header's `apv`: absent, present with a value that is no string, or a string.
pub data Apv : Type 0 where
  absent not_string : Apv
  text : Bytes → Apv

pub record Platform : Type 1 where
  -- go-eudi-rpcert
  pub Registration : Type 0
  pub zero_registration : Registration
  pub registration_eq : Registration → Registration → Bool
  pub registration_claims : Registration → Option Json
  pub new_registration_ref : Bytes → Bytes → Bytes → Bytes → Option Registration
  -- go-dcql
  pub Query : Type 0
  pub zero_query : Query
  pub credentials : Query → List CredentialQuery
  pub is_valid_query : Query → Bool
  pub query_json : Query → Json
  pub format_sdjwt : Bytes
  pub format_mdoc : Bytes
  -- keys and certificates: an inner `none` is a key that is not an EC key
  pub PublicKey : Type 0
  pub public_key_eq : PublicKey → PublicKey → Bool
  pub ecdh_point : PublicKey → Option Bytes
  pub curve_bits : PublicKey → ℕ
  pub curve_name : PublicKey → Bytes
  pub PrivateKey : Type 0
  pub public_key : PrivateKey → PublicKey
  pub marshal_pkcs8 : PrivateKey → Option Bytes
  pub parse_pkcs8 : Bytes → Option (Option PrivateKey)
  pub Certificate : Type 0
  pub dns_names : Certificate → List Bytes
  pub certificate_key : Certificate → Option PublicKey
  -- go-eudi-crypto; the number that `generate_ephemeral_key` takes is its randomness
  pub Policy : Type 0
  pub eccg : Policy
  pub allowed_curve : Policy → Bytes → Bool
  pub allowed_jwe_alg : Policy → Bytes → Bytes → Bool
  pub allowed_jws_alg : Policy → Bytes → Bool
  pub allowed_cose_alg : Policy → ℤ → Bool
  pub Hash : Type 0
  pub hash_for_alg : Policy → Bytes → Option Hash
  pub is_available : Hash → Bool
  pub digest : Hash → Bytes → Bytes
  pub KeyProvider : Type 0
  pub provider_key : KeyProvider → Bytes → Option (Option PublicKey)
  pub static_provider : Bytes → PrivateKey → KeyProvider
  pub generate_ephemeral_key : Bytes → ℕ → Option PrivateKey
  pub jwk_thumbprint_bytes : PublicKey → Option Bytes
  pub Header : Type 0
  pub apv : Header → Apv
  pub decrypt_jwe : KeyProvider → Bytes → Bytes → Option (Bytes × Header)
  pub sign_jws : KeyProvider → Bytes → Bytes → List (Option Certificate) → Bytes → Option Bytes
  -- go-mdoc
  pub SessionTranscript : Type 0
  pub handover : Bytes → Bytes → Bytes → Bytes → SessionTranscript
  pub dcapi_handover : Bytes → Bytes → Bytes → SessionTranscript
  -- net/url, encoding/json
  pub parse_url : Bytes → Option Url
  pub json_marshal : Json → Option Bytes
  pub decode_payload : Bytes → Option Payload
  pub decode_strings : Bytes → Option (List Bytes)
  pub decode_document : Bytes → Option Document
  pub decode_dcapi_body : Bytes → Option Bytes
