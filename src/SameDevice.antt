-- ===== src/SameDevice.antt =====
-- samedevice.go: the browser's way back in the same-device flow.
pub mod Code
pub mod Redirect
use go_oid4vp.Base.{
  ℕ, ◌+◌, ◌-◌, ◌/◌, ◌%◌, Bool, not, ◌&&◌, ◌||◌, Option, List, [], ◌∷◌, ◌++◌, leb, ltb, ◌==◌,
  if◌then◌else◌,
}
use go_oid4vp.Base.Bytes.{Bytes, codes, bytes_eq, is_empty, has_byte}
use go_oid4vp.Form.{query_escape}
use go_oid4vp.Platform.{Platform}
use go_oid4vp.Session.{Session}
use go_oid4vp.Response.{is_same_device}
use go_oid4vp.Fault.{
  Result, ok, err, sentinel, refuse_if, or_fail, ◌>>=◌, ◌>>◌, session_invalid, flow_mismatch,
  no_response_code, response_code_mismatch, response_code_consumed,
}

module _ {V : Platform} where
  -- `RedirectURI` for the session that `s` points to.
  unfoldable pub redirect_uri : Option (Session V) → Result Bytes
  redirect_uri p = do
    s ← or_fail p (sentinel session_invalid)
    refuse_if (not (is_same_device s.flow)) (sentinel flow_mismatch)
    refuse_if (is_empty s.response_code) (sentinel no_response_code)
    ok (
        s.return_uri
        ++ (if has_byte s.return_uri b'?' then codes "&" else codes "?")
        ++ codes "response_code="
        ++ query_escape s.response_code)

  -- The session after a successful `ConsumeResponseCode`; on an error the session stays as it was.
  unfoldable pub consume_response_code : Option (Session V) → Bytes → Result (Session V)
  consume_response_code p code = do
    s ← or_fail p (sentinel session_invalid)
    refuse_if (is_empty s.response_code) (sentinel no_response_code)
    refuse_if s.response_code_used (sentinel response_code_consumed)
    refuse_if (not (bytes_eq s.response_code code)) (sentinel response_code_mismatch)
    ok (record s { response_code_used = Bool.true })
