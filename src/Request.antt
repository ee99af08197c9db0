-- ===== src/Request.antt =====
-- requestobject.go: the signed Request Object for the flows by request_uri.
pub mod Metadata
pub mod Claims
pub mod Once
pub mod Says
pub mod Published
use go_oid4vp.Base.{Bool, not, List, ltb}
use go_oid4vp.Base.Bytes.{Bytes, codes}
use go_oid4vp.Json.{obj}
use go_oid4vp.Platform.{Platform}
use go_oid4vp.Session.{Session}
use go_oid4vp.Engine.{Engine}
use go_oid4vp.Response.{is_dcapi}
use go_oid4vp.Fault.{
  sentinel, foreign, wrap, join, or_fail, config, session_expired, flow_mismatch,
  request_uri_consumed,
}
use go_oid4vp.Machine.{M, pure, lift, refuse_when, session, assign, now, ◌>>=◌, ◌>>◌}
use Claims.{request_claims}

abbrev pub typ_oauth_authz_req : Bytes
typ_oauth_authz_req = codes "oauth-authz-req+jwt"

module _ {V : Platform} where
  abbrev pub mark_served : Session V → Session V
  mark_served s = record s { request_object_served = Bool.true }

  -- The checks before the claims are built.
  unfoldable pub admit_request : M V (Session V)
  admit_request = do
    s ← session
    refuse_when (is_dcapi s.flow) (wrap (sentinel flow_mismatch) List.[])
    t ← now
    refuse_when (not (ltb t s.expires_at)) (sentinel session_expired)
    refuse_when s.request_object_served (sentinel request_uri_consumed)
    pure s

  unfoldable pub request_object_jwt : Engine V → M V Bytes
  request_object_jwt e = do
    s ← admit_request
    claims ← request_claims e s
    payload ← lift (or_fail (V.json_marshal (obj claims)) (join (sentinel config) foreign))
    tok ← lift (
        or_fail (V.sign_jws e.keys e.signing_key_id typ_oauth_authz_req e.wrpac_chain payload)
          foreign)
    assign (mark_served s)
    pure tok
