-- ===== src/Dcapi.antt =====
-- dcapi.go: requests and responses by the browser's Digital Credentials API.
pub mod Process
pub mod Sound
pub mod Wording
pub mod Says
pub mod Status
use go_oid4vp.Base.{ℕ, Bool, not, Option, List, [], ◌∷◌, ltb, if◌then◌else◌}
use go_oid4vp.Base.Bytes.{Bytes, codes}
use go_oid4vp.Json.{Json, text, arr, obj, Members, end, member, set, texts}
use go_oid4vp.Platform.{Platform}
use go_oid4vp.Session.{Session}
use go_oid4vp.Engine.{Engine}
use go_oid4vp.Response.{is_dcapi}
use go_oid4vp.Request.{typ_oauth_authz_req}
use go_oid4vp.Request.Metadata.{client_metadata, registration_claim}
use go_oid4vp.Request.Claims.{
  aud_wallet, member_registration, unix, with_verifier_info, with_transaction_data,
}
use go_oid4vp.Fault.{
  sentinel, foreign, wrap, join, or_fail, config, session_invalid, session_expired, flow_mismatch,
}
use go_oid4vp.Machine.{M, pure, lift, refuse_when, now, ◌>>=◌, ◌>>◌}

abbrev pub dcapi_protocol_signed : Bytes
dcapi_protocol_signed = codes "openid4vp-v1-signed"

abbrev pub dcapi_protocol_unsigned : Bytes
dcapi_protocol_unsigned = codes "openid4vp-v1-unsigned"

module _ {V : Platform} where
  unfoldable pub base_dcapi_claims : Session V → Json → Json → Members
  base_dcapi_claims s reg cm = member (codes "response_type") (text (codes "vp_token")) (
      member (codes "response_mode") (text (codes "dc_api.jwt")) (
        member (codes "nonce") (text s.nonce) (
          member (codes "dcql_query") (V.query_json s.query)
            (member (codes "client_metadata") cm (member member_registration reg end)))))

  -- The assignments under `if signed`. A session that `NewSession` made has expected origins; for a
  -- nil slice, the member would be a JSON null and not an empty array.
  unfoldable pub with_signed_claims : Engine V → Session V → ℕ → Members → Members
  with_signed_claims e s t claims = set (codes "exp") (unix s.expires_at) (
      set (codes "nbf") (unix t) (
        set (codes "iat") (unix t) (
          set (codes "aud") (text aud_wallet) (
            set (codes "iss") (text e.client_id) (
              set (codes "expected_origins") (arr (texts s.expected_origins))
                (set (codes "client_id") (text e.client_id) claims))))))

  unfoldable pub unsigned_claims : Engine V → Session V → Json → Json → Members
  unsigned_claims e s reg cm =
      with_transaction_data e.enable_transaction_data s.transaction_data
        (with_verifier_info s.wrprc (base_dcapi_claims s reg cm))

  -- The clock is read only for a signed request.
  unfoldable pub dcapi_claims : Engine V → Session V → Bool → M V Members
  dcapi_claims e s signed = do
    reg ← lift (registration_claim s)
    cm ← lift (client_metadata e s)
    (if signed
        then (do t ← now; pure (with_signed_claims e s t (unsigned_claims e s reg cm)))
        else pure (unsigned_claims e s reg cm))

  unfoldable pub dcapi_request : Engine V → Option (Session V) → M V Bytes
  dcapi_request e p = do
    s ← lift (or_fail p (sentinel session_invalid))
    refuse_when (not (is_dcapi s.flow)) (wrap (sentinel flow_mismatch) [])
    t ← now
    refuse_when (not (ltb t s.expires_at)) (sentinel session_expired)
    claims ← dcapi_claims e s Bool.true
    payload ← lift (or_fail (V.json_marshal (obj claims)) (join (sentinel config) foreign))
    tok ← lift (
        or_fail (V.sign_jws e.keys e.signing_key_id typ_oauth_authz_req e.wrpac_chain payload)
          foreign)
    lift (
        or_fail
          (V.json_marshal (
            obj (
              member (codes "protocol") (text dcapi_protocol_signed)
                (member (codes "data") (obj (member (codes "request") (text tok) end)) end))))
          foreign)

  unfoldable pub dcapi_unsigned_request : Engine V → Option (Session V) → M V Bytes
  dcapi_unsigned_request e p = do
    s ← lift (or_fail p (sentinel session_invalid))
    refuse_when (not (is_dcapi s.flow)) (wrap (sentinel flow_mismatch) [])
    claims ← dcapi_claims e s Bool.false
    lift (
        or_fail
          (V.json_marshal (
            obj (
              member (codes "protocol") (text dcapi_protocol_unsigned)
                (member (codes "data") (obj claims) end))))
          foreign)
