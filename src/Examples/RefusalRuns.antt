-- ===== src/Examples/RefusalRuns.antt =====
-- Responses that are refused.
use go_oid4vp.Base.{false, ◌≡◌, ◌≤◌, ◌⊎◌, refl, ap, arith, All, length, true, List, [], ◌∷◌, some}
use go_oid4vp.Base.Bytes.{Bytes, codes}
use go_oid4vp.Session.{Session, dcapi}
use go_oid4vp.Fault.{Error, err, wallet, sentinel, origin_not_expected, join, decrypt, foreign}
use go_oid4vp.Machine.{Machine}
use go_oid4vp.Store.{mark_consumed}
use go_oid4vp.Response.Refusal.{status_of, quoted, has_foreign}
use go_oid4vp.Response.Refuses.{HasKey}
use go_oid4vp.Response.Process.{process_response}
use go_oid4vp.Response.Process.Status.{process_response_status, process_response_quotes}
use go_oid4vp.Dcapi.Process.{process_dcapi_response}
use go_oid4vp.Dcapi.Status.{process_dcapi_response_status}
use go_oid4vp.Examples.Toy.{toy, toy_engine, toy_session, toy_machine}
use go_oid4vp.Examples.Fresh.{fresh}
use go_oid4vp.Examples.ExchangeRuns.{marked_at}

-- The wallet reports that the user declined.
abbrev declined : Error
declined = wallet (record { code = codes "access_denied"; description = [] })

refused :
    (process_response toy_engine (codes "error=access_denied") (marked_at fresh)).0 ≡ err declined
unfolding process_response go_oid4vp.Response.Process.admit_response go_oid4vp.Machine.session
    go_oid4vp.Machine.now go_oid4vp.Response.read_response go_oid4vp.Form.Query.parse_query
    go_oid4vp.Form.Read.split go_oid4vp.Form.Query.parse_parts go_oid4vp.Form.Query.parse_part
    go_oid4vp.Base.Bytes.has_byte go_oid4vp.Form.Read.read_pair go_oid4vp.Form.query_unescape
    go_oid4vp.Form.Read.upto go_oid4vp.Form.Read.beyond go_oid4vp.Form.Query.get
    go_oid4vp.Base.Table.lookup go_oid4vp.Form.Query.append_value go_oid4vp.Base.Table.insert
    go_oid4vp.Base.Bytes.bytes_eq go_oid4vp.Form.unhex go_oid4vp.Response.wallet_error_from
    go_oid4vp.Response.VpToken.clip
refused = refl

marked_key : HasKey (mark_consumed fresh)
marked_key = record { priv = 9; thumbprint = 9 ∷ []; parses = refl; has_thumbprint = refl }

process_response_status_example :
    ((status_of declined ≡ 404) × (fresh.expires_at ≤ 200)) ⊎ (status_of declined ≡ 400)
process_response_status_example =
    process_response_status toy_engine (codes "error=access_denied") (marked_at fresh)
      (mark_consumed fresh) declined refl refl refl marked_key (omega arith) refused

process_response_quotes_example :
    All (λ t. length t ≤ 259) (quoted declined)
    × ((has_foreign declined ≡ false) ⊎ (declined ≡ join (sentinel decrypt) foreign))
process_response_quotes_example =
    process_response_quotes toy_engine (codes "error=access_denied") (marked_at fresh)
      (mark_consumed fresh) declined refl refl refl marked_key (omega arith) refused

abbrev browsed : Session toy
browsed = mark_consumed (toy_session dcapi)

strayed :
    (process_dcapi_response toy_engine
      (codes "https://evil.example")
      (codes "K")
      (toy_machine browsed)).0
    ≡ err (sentinel origin_not_expected)
unfolding process_dcapi_response go_oid4vp.Dcapi.Process.admit_dcapi_response
    go_oid4vp.Machine.session go_oid4vp.Machine.now go_oid4vp.Base.Bytes.contains
    go_oid4vp.Base.Bytes.bytes_eq
strayed = refl

browsed_key : HasKey browsed
browsed_key = record { priv = b'K'; thumbprint = b'K' ∷ []; parses = refl; has_thumbprint = refl }

process_dcapi_response_status_example :
    ((status_of (sentinel origin_not_expected) ≡ 404) × (browsed.expires_at ≤ 150))
    ⊎ (status_of (sentinel origin_not_expected) ≡ 400)
process_dcapi_response_status_example =
    process_dcapi_response_status toy_engine (codes "https://evil.example") (codes "K")
      (toy_machine browsed) browsed (sentinel origin_not_expected) refl refl refl browsed_key
      strayed
