-- ===== src/Response/Process/Status.antt =====
-- The status of a refused response.
use go_oid4vp.Base.{refl, All, ◌≤◌, ◌≡◌, ◌⊎◌, inl, inr, true, false, some, arith, length}
use go_oid4vp.Base.Bytes.{Bytes}
use go_oid4vp.Platform.{Platform}
use go_oid4vp.Session.{Session}
use go_oid4vp.Engine.{Engine, token_bytes}
use go_oid4vp.Fault.{Error, err, sentinel, session_expired, body_too_large, join, decrypt, foreign}
use go_oid4vp.Response.Refusal.{
  status_of, quoted, has_foreign, IsRefusal-quoted, IsRefusal-foreign, IsRefusal-status,
  too_large-status, expired-status,
}
use go_oid4vp.Machine.{Machine, session, now, rand_token, assign}
use go_oid4vp.Response.{is_dcapi, read_response}
use go_oid4vp.Response.Refuses.{HasKey, read_response-Refuses}
use go_oid4vp.Response.Process.{admit_response, mint_code, process_response}

module _ {V : Platform} where
  -- What is behind an error, once the session is a consumed one of this flow and the random source
  -- does not run dry.
  process_response_fails :
      (e : Engine V) (body : Bytes) (w : Machine V) (s : Session V) (x : Error)
      → w.session ≡ some s
      → is_dcapi s.flow ≡ false
      → s.consumed ≡ true
      → token_bytes ≤ length w.random
      → (process_response e body w).0 ≡ err x
      → ((x ≡ sentinel session_expired) × (s.expires_at ≤ w.clock 0))
        ⊎ (x ≡ sentinel body_too_large)
        ⊎ (read_response s body ≡ err x)
  unfolding process_response admit_response session now mint_code rand_token assign
  process_response_fails e body w s x at flow used room h = ground arith

  -- No input of a wallet makes the server fail. When the session is there, of a request_uri flow and
  -- consumed, its own key parses and has a thumbprint, and the random source does not run dry, then
  -- whatever the body, an error of `ProcessResponse` is answered with 404, if the session has
  -- expired, or with 400.
  pub process_response_status :
      (e : Engine V) (body : Bytes) (w : Machine V) (s : Session V) (x : Error)
      → w.session ≡ some s
      → is_dcapi s.flow ≡ false
      → s.consumed ≡ true
      → HasKey s
      → token_bytes ≤ length w.random
      → (process_response e body w).0 ≡ err x
      → ((status_of x ≡ 404) × (s.expires_at ≤ w.clock 0)) ⊎ (status_of x ≡ 400)
  process_response_status e body w s x at flow used key room h =
      elim (process_response_fails e body w s x at flow used room h) [
        | inl late ↦ inl (rw late.0 expired-status, late.1)
        | inr (inl big) ↦ inr (rw big too_large-status)
        | inr (inr bad) ↦ inr (IsRefusal-status (read_response-Refuses s key body x bad))
      ]

  -- An error quotes little of what came from outside. When the session is there, of a request_uri
  -- flow and consumed, its own key parses and has a thumbprint, and the random source does not run
  -- dry, each text that the package quotes in an error of `ProcessResponse` has at most 259 bytes,
  -- before `%q` writes it out, whatever the body; and the message has no other package's text in it
  -- unless the error is ErrDecrypt, joined with the crypto library's error.
  pub process_response_quotes :
      (e : Engine V) (body : Bytes) (w : Machine V) (s : Session V) (x : Error)
      → w.session ≡ some s
      → is_dcapi s.flow ≡ false
      → s.consumed ≡ true
      → HasKey s
      → token_bytes ≤ length w.random
      → (process_response e body w).0 ≡ err x
      → All (λ t. length t ≤ 259) (quoted x)
        × ((has_foreign x ≡ false) ⊎ (x ≡ join (sentinel decrypt) foreign))
  unfolding quoted has_foreign
  process_response_quotes e body w s x at flow used key room h =
      elim (process_response_fails e body w s x at flow used room h) [
        | inl late ↦ rw late.0 (tt, inl refl)
        | inr (inl big) ↦ rw big (tt, inl refl)
        | inr (inr bad) ↦
            let r = read_response-Refuses s key body x bad in
            (IsRefusal-quoted r, IsRefusal-foreign r)
      ]
