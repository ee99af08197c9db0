-- ===== src/Response/Process/Sound.antt =====
-- Which responses `ProcessResponse` accepts, what it returns and what it changes.
use go_oid4vp.Base.{
  suc, ◌≤◌, ◌<◌, ◌≡◌, ◌↔◌, true, false, ◌⊎◌, some, List, [], arith, length, take, drop,
}
use go_oid4vp.Base.Bytes.{Bytes}
use go_oid4vp.Base64.{encode}
use go_oid4vp.Platform.{Platform}
use go_oid4vp.Session.{Session}
use go_oid4vp.Engine.{Engine, token_bytes}
use go_oid4vp.Fault.{ok, err, Error}
use go_oid4vp.Machine.{Machine, session, now, rand_token, assign}
use go_oid4vp.Machine.Laws.{continue-eq-ok}
use go_oid4vp.Response.{is_dcapi, is_same_device, read_response}
use go_oid4vp.Response.Opened.{Carries, read_response-Carries, Carries-read_response}
use go_oid4vp.Response.VpToken.{Presentation}
use go_oid4vp.Response.Process.{admit_response, mint_code, process_response, with_code}

module _ {V : Platform} where
  -- The machine after one reading of the clock.
  abbrev pub ticked : Machine V → Machine V
  ticked w = record w { clock = λ n. w.clock (suc n) }

  -- The session is there, for this flow, consumed and unexpired, and the body is within the cap.
  pub record Admits (e : Engine V) (body : Bytes) (w : Machine V) (s : Session V) : Type 0 where
    pub pointed : w.session ≡ some s
    pub flow : is_dcapi s.flow ≡ false
    pub consumed : s.consumed ≡ true
    pub unexpired : w.clock 0 < s.expires_at
    pub fits : length body ≤ e.max_response_body

  admit_response-Admits :
      (e : Engine V) (body : Bytes) (w w' : Machine V) (s : Session V)
      → admit_response e body w ≡ (ok s, w')
      → Admits e body w s × (w' ≡ ticked w)
  unfolding admit_response session now
  admit_response-Admits e body w w' s h = ground arith

  Admits-admit_response :
      (e : Engine V) (body : Bytes) (w : Machine V) (s : Session V)
      → Admits e body w s
      → admit_response e body w ≡ (ok s, ticked w)
  unfolding admit_response session now
  Admits-admit_response e body w s a = ground arith

  -- A same-device session gets a code made of 16 fresh random bytes, and stores it as unused; any
  -- other session gets none and nothing changes.
  abbrev pub Minted : Session V → Machine V → Bytes → Machine V → Type 0
  Minted s w code w' =
      ((is_same_device s.flow ≡ true)
        × (token_bytes ≤ length w.random)
        × (code ≡ encode (take token_bytes w.random))
        × (w' ≡ record w { random = drop token_bytes w.random; session = some (with_code s code) }))
      ⊎ ((is_same_device s.flow ≡ false) × (code ≡ []) × (w' ≡ w))

  mint_code-Minted :
      (s : Session V) (w w' : Machine V) (code : Bytes)
      → mint_code s w ≡ (ok code, w')
      → Minted s w code w'
  unfolding mint_code rand_token assign
  mint_code-Minted s w w' code h = ground arith

  Minted-mint_code :
      (s : Session V) (w w' : Machine V) (code : Bytes)
      → Minted s w code w'
      → mint_code s w ≡ (ok code, w')
  unfolding mint_code rand_token assign
  Minted-mint_code s w w' code m = ground arith

  -- Everything behind a result of `ProcessResponse`.
  pub record Accepts (e : Engine V) (body : Bytes) (w : Machine V) (prs : List Presentation)
      (code : Bytes) (w' : Machine V) : Type 0 where
    pub s : Session V
    pub admits : Admits e body w s
    pub carries : Carries s body prs
    pub minted : Minted s (ticked w) code w'

  process_response-Accepts :
      (e : Engine V) (body : Bytes) (w w' : Machine V) (prs : List Presentation) (code : Bytes)
      → process_response e body w ≡ (ok (prs, code), w')
      → Accepts e body w prs code w'
  unfolding process_response
  process_response-Accepts e body w w' prs code h =
      let (s, v, admitted, h₁) = continue-eq-ok (admit_response e body w) _ h in
      let (prs', v', read, h₂) = continue-eq-ok (read_response s body, v) _ h₁ in
      let (code', v'', minted, h₃) = continue-eq-ok (mint_code s v') _ h₂ in
      let a = admit_response-Admits e body w v s admitted in
      record {
        s = s;
        admits = a.0;
        carries = read_response-Carries s body prs (ground arith);
        minted = mint_code-Minted s (ticked w) w' code (ground arith);
      }

  Accepts-process_response :
      (e : Engine V) (body : Bytes) (w w' : Machine V) (prs : List Presentation) (code : Bytes)
      → Accepts e body w prs code w'
      → process_response e body w ≡ (ok (prs, code), w')
  unfolding process_response
  Accepts-process_response e body w w' prs code a = rw (
    Admits-admit_response e body w a.s a.admits,
    Carries-read_response a.s body prs a.carries,
    Minted-mint_code a.s (ticked w) w' code a.minted,
  )

  -- `ProcessResponse` returns these presentations and this code, and leaves the machine so, exactly
  -- if the session is there, not of the DCAPI flow, consumed and unexpired, the body is within the
  -- cap and is a form without an error, its one response parameter decrypts with the session's own
  -- key to a payload with the session's state (and an `apv`, if any, that encodes its nonce), the
  -- vp_token of which gives the presentations, and a same-device session gets a fresh unused code
  -- while any other gets none.
  pub process_response_iff :
      (e : Engine V) (body : Bytes) (w w' : Machine V) (prs : List Presentation) (code : Bytes)
      → (process_response e body w ≡ (ok (prs, code), w')) ↔ Accepts e body w prs code w'
  process_response_iff e body w w' prs code =
      (process_response-Accepts e body w w' prs code, Accepts-process_response e body w w' prs code)

  -- A response that is refused leaves the session as it was, whatever the error.
  pub process_response_refused :
      (e : Engine V) (body : Bytes) (w : Machine V) (x : Error)
      → (process_response e body w).0 ≡ err x
      → (process_response e body w).1.session ≡ w.session
  unfolding process_response admit_response session now mint_code rand_token assign
  process_response_refused e body w x h = ground arith
