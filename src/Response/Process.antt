-- ===== src/Response/Process.antt =====
-- response.go, `ProcessResponse`.
pub mod Sound
pub mod Status
use go_oid4vp.Base.{Bool, not, List, [], ltb, length, if◌then◌else◌}
use go_oid4vp.Base.Bytes.{Bytes}
use go_oid4vp.Platform.{Platform}
use go_oid4vp.Session.{Session}
use go_oid4vp.Engine.{Engine, token_bytes}
use go_oid4vp.Fault.{
  sentinel, wrap, session_not_consumed, session_expired, flow_mismatch, body_too_large,
}
use go_oid4vp.Machine.{M, pure, lift, refuse_when, session, assign, now, rand_token, ◌>>=◌, ◌>>◌}
use go_oid4vp.Response.{is_dcapi, is_same_device, read_response}
use go_oid4vp.Response.VpToken.{Presentation}

module _ {V : Platform} where
  abbrev pub with_code : Session V → Bytes → Session V
  with_code s code = record s { response_code = code; response_code_used = Bool.false }

  -- A code for a same-device session, and none for any other.
  unfoldable pub mint_code : Session V → M V Bytes
  mint_code s =
      if is_same_device s.flow
      then (do code ← rand_token token_bytes; assign (with_code s code); pure code)
      else pure []

  -- The checks that come before the body is parsed.
  unfoldable pub admit_response : Engine V → Bytes → M V (Session V)
  admit_response e body = do
    s ← session
    refuse_when (is_dcapi s.flow) (wrap (sentinel flow_mismatch) [])
    refuse_when (not s.consumed) (sentinel session_not_consumed)
    t ← now
    refuse_when (not (ltb t s.expires_at)) (sentinel session_expired)
    refuse_when (ltb e.max_response_body (length body)) (sentinel body_too_large)
    pure s

  unfoldable pub process_response : Engine V → Bytes → M V (List Presentation × Bytes)
  process_response e body = do
    s ← admit_response e body
    prs ← lift (read_response s body)
    code ← mint_code s
    pure (prs, code)
