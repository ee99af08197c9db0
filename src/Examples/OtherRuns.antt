-- ===== src/Examples/OtherRuns.antt =====
-- Runs of the Digital Credentials path, of transaction_data, of the transcript, of the wallet's
-- metadata and of the error replies.
use mathlib.Core.List.{Mem}
use go_oid4vp.Base.{
  ◌≡◌, ◌≢◌, ◌⊎◌, ◌↔◌, ◌≤◌, ◌+◌, suc, refl, arith, List, [], ◌∷◌, Option, some, none, Bool, true,
  false, length,
}
use go_oid4vp.Base.Bytes.{Bytes, codes}
use go_oid4vp.Session.{Session, same_device, cross_device, dcapi}
use go_oid4vp.Fault.{
  WalletError, wallet, wrap, join, foreign, is, index, as_wallet_error, Sentinel, ok, sentinel,
  state_mismatch, decrypt, config,
}
use go_oid4vp.Fault.Response.{SentinelMapping, error_table, echoed_codes, error_response}
use go_oid4vp.Fault.Table.{
  IsPublic, error_response_by_sentinels, error_response_classified, error_response-IsPublic,
}
use go_oid4vp.Fault.Echo.{IsNormal, error_response_of_wallet}
use go_oid4vp.Machine.{Machine}
use go_oid4vp.Store.{mark_consumed}
use go_oid4vp.Response.VpToken.{Presentation}
use go_oid4vp.Dcapi.Process.{process_dcapi_response}
use go_oid4vp.Dcapi.Sound.{Accepts, process_dcapi_response_iff}
use go_oid4vp.Transaction.{validate_transaction_data_echo}
use go_oid4vp.Transaction.Echo.{Confirms, validate_transaction_data_echo_iff}
use go_oid4vp.Transcript.{session_transcript_for}
use go_oid4vp.Transcript.Chosen.{Determines, session_transcript_for_iff}
use go_oid4vp.WalletMetadata.{absorb_wallet_metadata}
use go_oid4vp.WalletMetadata.Kept.{IsMetadata, absorb_wallet_metadata_iff}
use go_oid4vp.Examples.Toy.{toy, toy_engine, toy_session, toy_machine, toy_random}

abbrev dcapi_session : Session toy
dcapi_session = mark_consumed (toy_session dcapi)

abbrev shown : Presentation
shown = record {
  query_cred_id = codes "pid";
  format = codes "dc+sd-jwt";
  payload = codes "token";
  nonce = codes "n1";
  client_id = codes "x509_san_dns:v.example";
  origin = codes "https://v.example";
  response_uri = codes "https://v.example/resp";
  jwk_thumbprint = [];
}

abbrev read_once : Machine toy
read_once = record { random = toy_random; clock = λ n. 150 + suc n; session = some dcapi_session }

dcapi_accepted :
    process_dcapi_response toy_engine
      (codes "https://v.example")
      (codes "Kst")
      (toy_machine dcapi_session)
    ≡ (ok (shown ∷ []), read_once)
unfolding process_dcapi_response go_oid4vp.Dcapi.Process.admit_dcapi_response
    go_oid4vp.Machine.session go_oid4vp.Machine.now go_oid4vp.Base.Bytes.contains
    go_oid4vp.Base.Bytes.bytes_eq go_oid4vp.Dcapi.Process.read_dcapi_response
    go_oid4vp.Response.open_response go_oid4vp.Session.ephemeral_private_key
    go_oid4vp.Response.check_agreement_info go_oid4vp.Response.parse_response_payload
    go_oid4vp.Response.VpToken.presentations_from_vp_token
    go_oid4vp.Response.VpToken.present_members go_oid4vp.Response.VpToken.Sort.sort
    go_oid4vp.Response.VpToken.Sort.sorted_insert go_oid4vp.Response.VpToken.present_member
    go_oid4vp.Base.Table.lookup go_oid4vp.Response.VpToken.formats_from go_oid4vp.Base.Table.insert
    go_oid4vp.Response.VpToken.present_entries go_oid4vp.Response.VpToken.present_entry
dcapi_accepted = refl

process_dcapi_response_iff_example :
    (process_dcapi_response toy_engine
        (codes "https://v.example")
        (codes "Kst")
        (toy_machine dcapi_session)
      ≡ (ok (shown ∷ []), read_once))
    ↔ Accepts toy_engine
        (codes "https://v.example")
        (codes "Kst")
        (toy_machine dcapi_session)
        (shown ∷ [])
        read_once
process_dcapi_response_iff_example =
    process_dcapi_response_iff toy_engine (codes "https://v.example") (codes "Kst")
      (toy_machine dcapi_session) read_once (shown ∷ [])

-- The two entries' hashes, in the other order.
echo_accepted :
    validate_transaction_data_echo toy_engine
      (some (toy_session same_device))
      (codes "ZTJJ" ∷ codes "ZTJF" ∷ [])
      (codes "sha-256")
    ≡ ok tt
unfolding validate_transaction_data_echo go_oid4vp.Transaction.transaction_data_hashes
    go_oid4vp.Base.Bytes.bytes_eq go_oid4vp.Transaction.compare_hashes
    go_oid4vp.Transaction.match_all go_oid4vp.Transaction.remaining_of go_oid4vp.Base.Table.lookup
    go_oid4vp.Transaction.count_all go_oid4vp.Base.Table.insert go_oid4vp.Transaction.hash_entry
    go_oid4vp.Base64.encode go_oid4vp.Base64.chars go_oid4vp.Base64.sextets go_oid4vp.Base64.char_of
echo_accepted = refl

validate_transaction_data_echo_iff_example :
    (validate_transaction_data_echo toy_engine
        (some (toy_session same_device))
        (codes "ZTJJ" ∷ codes "ZTJF" ∷ [])
        (codes "sha-256")
      ≡ ok tt)
    ↔ Confirms toy_engine
        (toy_session same_device)
        (codes "ZTJJ" ∷ codes "ZTJF" ∷ [])
        (codes "sha-256")
validate_transaction_data_echo_iff_example =
    validate_transaction_data_echo_iff toy_engine (toy_session same_device)
      (codes "ZTJJ" ∷ codes "ZTJF" ∷ []) (codes "sha-256")

abbrev mdoc : Presentation
mdoc = record shown { format = codes "mso_mdoc"; jwk_thumbprint = b'K' ∷ [] }

session_transcript_for_iff_example :
    (session_transcript_for toy mdoc
      ≡ ok (codes "https://v.example" ∷ codes "n1" ∷ (b'K' ∷ []) ∷ []))
    ↔ ((mdoc.format ≡ codes "mso_mdoc")
        × (mdoc.nonce ≢ [])
        × (mdoc.jwk_thumbprint ≢ [])
        × Determines toy mdoc (codes "https://v.example" ∷ codes "n1" ∷ (b'K' ∷ []) ∷ []))
session_transcript_for_iff_example =
    session_transcript_for_iff toy mdoc (codes "https://v.example" ∷ codes "n1" ∷ (b'K' ∷ []) ∷ [])

abbrev with_metadata : Session toy
with_metadata = record (toy_session same_device) { wallet_metadata = codes "{}" }

absorbed : absorb_wallet_metadata (some (toy_session same_device)) (codes "{}") ≡ ok with_metadata
unfolding absorb_wallet_metadata
absorbed = refl

absorb_wallet_metadata_iff_example :
    (absorb_wallet_metadata (some (toy_session same_device)) (codes "{}") ≡ ok with_metadata) ↔ (
      (s : Session toy) × (some (toy_session same_device) ≡ some s)
      × IsMetadata toy (codes "{}")
      × (with_metadata ≡ record s { wallet_metadata = codes "{}" }))
absorb_wallet_metadata_iff_example =
    absorb_wallet_metadata_iff toy (some (toy_session same_device)) (codes "{}") with_metadata

no_wallet_error : as_wallet_error (wrap (sentinel decrypt) (codes "secret" ∷ [])) ≡ none
unfolding as_wallet_error
no_wallet_error = refl

no_wallet_error' : as_wallet_error (join (sentinel decrypt) foreign) ≡ none
unfolding as_wallet_error
no_wallet_error' = refl

same_sentinels :
    (t : Sentinel)
    → is (wrap (sentinel decrypt) (codes "secret" ∷ [])) t ≡ is (join (sentinel decrypt) foreign) t
unfolding is
same_sentinels t = ground arith

no_wallet_in_state : as_wallet_error (wrap (sentinel state_mismatch) []) ≡ none
unfolding as_wallet_error
no_wallet_in_state = refl

state_only :
    (t : Sentinel) → is (wrap (sentinel state_mismatch) []) t ≡ is (sentinel state_mismatch) t
unfolding is
state_only t = refl

no_wallet_in_config : as_wallet_error (join (sentinel config) foreign) ≡ none
unfolding as_wallet_error
no_wallet_in_config = refl

error_response_by_sentinels_example :
    error_response (some (wrap (sentinel decrypt) (codes "secret" ∷ [])))
    ≡ error_response (some (join (sentinel decrypt) foreign))
error_response_by_sentinels_example =
    error_response_by_sentinels (wrap (sentinel decrypt) (codes "secret" ∷ []))
      (join (sentinel decrypt) foreign) no_wallet_error no_wallet_error' same_sentinels

error_response_classified_example :
    (m : SentinelMapping) × Mem m error_table
    × (index state_mismatch ≡ index m.target)
    × (error_response (some (wrap (sentinel state_mismatch) [])) ≡ m.reply)
error_response_classified_example =
    error_response_classified (wrap (sentinel state_mismatch) []) state_mismatch no_wallet_in_state
      state_only

error_response-IsPublic_example : IsPublic (error_response (some (join (sentinel config) foreign)))
error_response-IsPublic_example =
    error_response-IsPublic (join (sentinel config) foreign) no_wallet_in_config

abbrev denied : WalletError
denied = record { code = codes "access_denied"; description = codes "user said no" }

wallet_is_denied : as_wallet_error (wallet denied) ≡ some denied
unfolding as_wallet_error
wallet_is_denied = refl

error_response_of_wallet_example :
    ((error_response (some (wallet denied))).status ≡ 400)
    × ((error_response (some (wallet denied))).description ≡ codes "wallet reported an error")
    × IsNormal echoed_codes (codes "access_denied") (error_response (some (wallet denied))).code
error_response_of_wallet_example = error_response_of_wallet (wallet denied) denied wallet_is_denied
