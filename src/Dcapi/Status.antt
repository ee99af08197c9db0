-- ===== src/Dcapi/Status.antt =====
-- The status of a refused DC API response.
use go_oid4vp.Base.{◌≤◌, ◌≡◌, ◌⊎◌, inl, inr, true, some, [], arith}
use go_oid4vp.Base.Bytes.{Bytes, is_empty}
use go_oid4vp.Platform.{Platform, Payload}
use go_oid4vp.Session.{Session}
use go_oid4vp.Engine.{Engine}
use go_oid4vp.Fault.{Error, err, sentinel, session_expired, body_too_large, origin_not_expected}
use go_oid4vp.Response.Refusal.{
  Refuses, ok-Refuses, refuse_if-Refuses, or_fail-Refuses, >>=-Refuses, status_of, IsRefusal-status,
  malformed, too_large-status, expired-status, origin-status,
}
use go_oid4vp.Machine.{Machine, session, now}
use go_oid4vp.Response.{is_dcapi}
use go_oid4vp.Response.Refuses.{HasKey, open_response-Refuses, presentations-Refuses}
use go_oid4vp.Dcapi.Process.{read_dcapi_response, admit_dcapi_response, process_dcapi_response}

module _ {V : Platform} where
  read_dcapi_response-Refuses :
      (s : Session V) (origin body : Bytes) → HasKey s → Refuses (read_dcapi_response s origin body)
  unfolding read_dcapi_response
  read_dcapi_response-Refuses s origin body key =
      >>=-Refuses _ _ (or_fail-Refuses (V.decode_dcapi_body body) _ (malformed [] tt)) λ jwe h.
        >>=-Refuses _ _ (refuse_if-Refuses (is_empty jwe) _ (malformed [] tt)) λ u filled.
          >>=-Refuses _ _ (open_response-Refuses s key jwe) λ (opened : Payload × Bytes) h'.
            >>=-Refuses _ _ (presentations-Refuses s opened.0.vp_token opened.1)
              λ prs shown. ok-Refuses _

  process_dcapi_response_fails :
      (e : Engine V) (origin body : Bytes) (w : Machine V) (s : Session V) (x : Error)
      → w.session ≡ some s
      → is_dcapi s.flow ≡ true
      → s.consumed ≡ true
      → (process_dcapi_response e origin body w).0 ≡ err x
      → ((x ≡ sentinel session_expired) × (s.expires_at ≤ w.clock 0))
        ⊎ (x ≡ sentinel origin_not_expected)
        ⊎ (x ≡ sentinel body_too_large)
        ⊎ (read_dcapi_response s origin body ≡ err x)
  unfolding process_dcapi_response admit_dcapi_response session now
  process_dcapi_response_fails e origin body w s x at flow used h = ground arith

  -- No input of a browser or a wallet makes the server fail. When the session is there, of the DCAPI
  -- flow and consumed, and its own key parses and has a thumbprint, then whatever the origin and the
  -- body, an error of `ProcessDCAPIResponse` is answered with 404, if the session has expired, or
  -- with 400.
  pub process_dcapi_response_status :
      (e : Engine V) (origin body : Bytes) (w : Machine V) (s : Session V) (x : Error)
      → w.session ≡ some s
      → is_dcapi s.flow ≡ true
      → s.consumed ≡ true
      → HasKey s
      → (process_dcapi_response e origin body w).0 ≡ err x
      → ((status_of x ≡ 404) × (s.expires_at ≤ w.clock 0)) ⊎ (status_of x ≡ 400)
  process_dcapi_response_status e origin body w s x at flow used key h =
      elim (process_dcapi_response_fails e origin body w s x at flow used h) [
        | inl late ↦ inl (rw late.0 expired-status, late.1)
        | inr (inl stray) ↦ inr (rw stray origin-status)
        | inr (inr (inl big)) ↦ inr (rw big too_large-status)
        | inr (inr (inr bad)) ↦
            inr (IsRefusal-status (read_dcapi_response-Refuses s origin body key x bad))
      ]
