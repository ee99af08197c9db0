-- ===== src/Transcript.antt =====
-- transcript.go: the choice of the mdoc SessionTranscript for a presentation.
pub mod Chosen
use go_oid4vp.Base.{
  ◌≡◌, ◌↔◌, ◌≢◌, refl, Bool, true, false, not, ◌||◌, ◌⊎◌, inl, inr, List, [], arith, if◌then◌else◌,
}
use go_oid4vp.Base.Bytes.{Bytes, bytes_eq, bytes_eq-eq, bytes_eq_refl, is_empty}
use go_oid4vp.Platform.{Platform}
use go_oid4vp.Response.VpToken.{Presentation}
use go_oid4vp.Fault.{Result, ok, err, sentinel, refuse_if, ◌>>=◌, ◌>>◌, transcript_params}

module _ (V : Platform) where
  unfoldable pub session_transcript_for : Presentation → Result V.SessionTranscript
  session_transcript_for p = do
    refuse_if (not (bytes_eq p.format V.format_mdoc)) (sentinel transcript_params)
    refuse_if (is_empty p.nonce || is_empty p.jwk_thumbprint) (sentinel transcript_params)
    (if not (is_empty p.origin)
        then ok (V.dcapi_handover p.origin p.nonce p.jwk_thumbprint)
        else (do
          refuse_if (is_empty p.client_id || is_empty p.response_uri) (sentinel transcript_params)
          ok (V.handover p.client_id p.nonce p.jwk_thumbprint p.response_uri)))
