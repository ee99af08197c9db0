-- ===== src/Dcapi/Process.antt =====
-- dcapi.go, `ProcessDCAPIResponse`.
use go_oid4vp.Base.{not, List, [], map, ltb, length}
use go_oid4vp.Base.Bytes.{Bytes, contains, is_empty}
use go_oid4vp.Platform.{Platform}
use go_oid4vp.Session.{Session}
use go_oid4vp.Engine.{Engine}
use go_oid4vp.Response.{is_dcapi, open_response}
use go_oid4vp.Response.VpToken.{Presentation, presentations_from_vp_token}
use go_oid4vp.Fault.{
  Result, ok, sentinel, wrap, refuse_if, or_fail, session_not_consumed, session_expired,
  flow_mismatch, origin_not_expected, body_too_large, malformed_response,
}
use go_oid4vp.Fault
use go_oid4vp.Machine.{M, lift, refuse_when, session, now, ◌>>=◌, ◌>>◌}

abbrev pub with_origin : Bytes → Presentation → Presentation
with_origin origin p = record p { origin = origin }

module _ {V : Platform} where
  -- From the body to the presentations, with the origin set on each.
  unfoldable pub read_dcapi_response : Session V → Bytes → Bytes → Result (List Presentation)
  read_dcapi_response s origin body =
      Fault.◌>>=◌ (or_fail (V.decode_dcapi_body body) (wrap (sentinel malformed_response) []))
        λ jwe. Fault.◌>>◌ (refuse_if (is_empty jwe) (wrap (sentinel malformed_response) [])) (
          Fault.◌>>=◌ (open_response s jwe) λ opened.
            Fault.◌>>=◌ (presentations_from_vp_token s opened.0.vp_token opened.1)
              λ prs. ok (map (with_origin origin) prs))

  -- The checks that come before the body is parsed.
  unfoldable pub admit_dcapi_response : Engine V → Bytes → Bytes → M V (Session V)
  admit_dcapi_response e origin body = do
    s ← session
    refuse_when (not (is_dcapi s.flow)) (wrap (sentinel flow_mismatch) [])
    refuse_when (not s.consumed) (sentinel session_not_consumed)
    t ← now
    refuse_when (not (ltb t s.expires_at)) (sentinel session_expired)
    refuse_when (not (contains s.expected_origins origin)) (sentinel origin_not_expected)
    refuse_when (ltb e.max_response_body (length body)) (sentinel body_too_large)
    lift (ok s)

  unfoldable pub process_dcapi_response : Engine V → Bytes → Bytes → M V (List Presentation)
  process_dcapi_response e origin body = do
    s ← admit_dcapi_response e origin body
    lift (read_dcapi_response s origin body)
