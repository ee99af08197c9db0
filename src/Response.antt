-- ===== src/Response.antt =====
-- response.go: the wallet's answer to a request that was passed by request_uri.
pub mod VpToken
pub mod Process
pub mod Opened
pub mod Reported
pub mod Refusal
pub mod Refuses
use go_oid4vp.Base.{
  ℕ, Bool, not, ◌&&◌, ◌||◌, Option, none, some, List, [], ◌∷◌, ltb, length, if◌then◌else◌, take,
  ◌++◌,
}
use go_oid4vp.Base.Bytes.{Bytes, codes, bytes_eq, is_empty}
use go_oid4vp.Base.Table.{lookup}
use go_oid4vp.Form.Query.{Values, get, parse_query}
use go_oid4vp.Base64.{decode}
use go_oid4vp.Platform.{Platform, Payload, Apv, absent, not_string, text}
use go_oid4vp.Session.{Session, Flow, same_device, dcapi, ephemeral_private_key}
use go_oid4vp.Engine.{Engine, token_bytes}
use go_oid4vp.Fault.{
  Error, Result, ok, err, sentinel, wallet, foreign, wrap, join, refuse_if, or_fail,
  session_invalid, session_not_consumed, session_expired, flow_mismatch, body_too_large,
  malformed_response, decrypt, state_mismatch, apv_mismatch,
}
use go_oid4vp.Fault.{◌>>=◌, ◌>>◌}
use go_oid4vp.Machine.{Machine, M, pure, lift, refuse_when, session, assign, now, rand_token}
use VpToken.{Presentation, clip, presentations_from_vp_token}

abbrev max_wallet_error_len : ℕ
max_wallet_error_len = 256

-- `resp := vals["response"]; if len(resp) != 1 || resp[0] == ""`.
abbrev pub single : Option (List Bytes) → Result Bytes
single (some (v ∷ [])) = if is_empty v then err (wrap (sentinel malformed_response) []) else ok v
single _ = err (wrap (sentinel malformed_response) [])

abbrev pub is_dcapi : Flow → Bool
is_dcapi dcapi = Bool.true
is_dcapi _ = Bool.false

abbrev pub is_same_device : Flow → Bool
is_same_device same_device = Bool.true
is_same_device _ = Bool.false

module _ {V : Platform} where
  unfoldable pub wallet_error_from : Session V → Values → Error
  wallet_error_from s vals =
      let st = get (codes "state") vals in
      if not (is_empty st) && not (bytes_eq st s.state)
      then sentinel state_mismatch
      else wallet (record {
        code = clip (get (codes "error") vals) max_wallet_error_len;
        description = clip (get (codes "error_description") vals) max_wallet_error_len;
      })

  check_raw_apv : Session V → Option Bytes → Result (Unit {0})
  check_raw_apv s none = err (wrap (sentinel malformed_response) [])
  check_raw_apv s (some raw) = refuse_if (not (bytes_eq raw s.nonce)) (sentinel apv_mismatch)

  check_apv : Apv → Session V → Result (Unit {0})
  unfolding check_raw_apv
  check_apv absent s = ok tt
  check_apv not_string s = err (wrap (sentinel malformed_response) [])
  check_apv (text t) s = check_raw_apv s (decode t)

-- `parseResponsePayload`, after `dec.Decode`.
unfoldable pub check_payload : Option Payload → Result Payload
check_payload none = err (wrap (sentinel malformed_response) [])
check_payload (some p) =
    if p.more
    then err (wrap (sentinel malformed_response) [])
    else if is_empty p.vp_token
    then err (wrap (sentinel malformed_response) [])
    else ok p

module _ (V : Platform) where
  unfoldable pub parse_response_payload : Bytes → Result Payload
  unfolding check_payload
  parse_response_payload plain = check_payload (V.decode_payload plain)

module _ {V : Platform} where
  unfoldable pub check_agreement_info : V.Header → Session V → Result (Unit {0})
  unfolding check_apv
  check_agreement_info hdr s = check_apv (V.apv hdr) s

  -- From the private key to the payload: the same steps in `ProcessResponse` and in
  -- `ProcessDCAPIResponse`. The second component is the key's thumbprint.
  unfoldable pub open_response : Session V → Bytes → Result (Payload × Bytes)
  open_response s jwe = do
    priv ← ephemeral_private_key s
    (plain, hdr) ←
        or_fail (V.decrypt_jwe (V.static_provider s.id priv) s.id jwe)
          (join (sentinel decrypt) foreign)
    check_agreement_info hdr s
    thumbprint ←
        or_fail (V.jwk_thumbprint_bytes (V.public_key priv))
          (join (sentinel session_invalid) foreign)
    payload ← parse_response_payload V plain
    ok (payload, thumbprint)

  -- `ProcessResponse` between the size check and the minting of the code.
  unfoldable pub read_response : Session V → Bytes → Result (List Presentation)
  read_response s body = do
    vals ← or_fail (parse_query body) (wrap (sentinel malformed_response) [])
    refuse_if (not (is_empty (get (codes "error") vals))) (wallet_error_from s vals)
    jwe ← single (lookup (codes "response") vals)
    (payload, thumbprint) ← open_response s jwe
    refuse_if (not (bytes_eq payload.state s.state)) (sentinel state_mismatch)
    presentations_from_vp_token s payload.vp_token thumbprint
