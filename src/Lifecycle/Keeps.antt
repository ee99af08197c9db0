-- ===== src/Lifecycle/Keeps.antt =====
-- What any number of calls keep of a new session.
use go_oid4vp.Base.{ℕ, ◌≡◌, sym, ap, refl, subst, true, inl, inr, some, List, arith, length}
use go_oid4vp.Base.Bytes.{Bytes}
use go_oid4vp.Platform.{Platform}
use go_oid4vp.Session.{Session}
use go_oid4vp.Engine.{Engine}
use go_oid4vp.Fault.{Result, ok, err}
use go_oid4vp.Machine.{Machine, session, now}
use go_oid4vp.Request.{request_object_jwt, mark_served}
use go_oid4vp.Response.{is_same_device}
use go_oid4vp.Response.Process.{process_response, with_code}
use go_oid4vp.SameDevice.Code.{length_token}
use go_oid4vp.Request.Once.{request_object_jwt_once, request_object_jwt_refused}
use go_oid4vp.Response.VpToken.{Presentation}
use go_oid4vp.Response.Process.Sound.{
  Minted, ticked, process_response_iff, process_response_refused,
}
use go_oid4vp.Dcapi.Process.{admit_dcapi_response, process_dcapi_response}
use go_oid4vp.NewSession.{WalletInvocation, new_session, session_of}
use go_oid4vp.NewSession.Spec.{RequestSpec}
use go_oid4vp.NewSession.Fresh.{new_session-Makes}
use go_oid4vp.Lifecycle.Later.{
  IsLater, IsSound, Keeps, IsLater-refl, IsLater-trans, Keeps-refl, mark_served-Keeps, absorb-Keeps,
  with_code-Keeps, redeem-Keeps, consume-Keeps,
}
use go_oid4vp.Lifecycle.{
  Step, fetches, absorbs, consumes, answers, answers_dcapi, redeems, Reaches, stays, goes,
}

module _ {V : Platform} (e : Engine V) where
  fetch-Keeps :
      (w : Machine V) (s t : Session V) (r : Result Bytes × Machine V)
      → request_object_jwt e w ≡ r
      → w.session ≡ some s
      → r.1.session ≡ some t
      → Keeps s t
  fetch-Keeps w s t (ok tok, v) run at after =
      let (u, admits, served, later) = request_object_jwt_once e w v tok run in
      let same : s ≡ u = ground (arith, admits.pointed) in
      let end : mark_served s ≡ t = ground (arith, served) in
      subst (Keeps s) end (mark_served-Keeps s (rw same admits.flow))
  fetch-Keeps w s t (err x, v) run at after =
      let kept =
        request_object_jwt_refused e w x (ap (λ (p : Result Bytes × Machine V). p.0) run) in
      Keeps-refl (ground arith)

  Minted-Keeps :
      (s u : Session V) (w v : Machine V) (code : Bytes) (t : Session V)
      → s ≡ u
      → s.consumed ≡ true
      → w.session ≡ some s
      → v.session ≡ some t
      → Minted u w code v
      → Keeps s t
  Minted-Keeps s u w v code t same used at after (inl (f, room, made, m)) =
      let f' : is_same_device s.flow ≡ true = rw same f in
      let n : length code ≡ 22 = rw made (length_token w.random room) in
      let end : with_code s code ≡ t = ground (arith, m) in
      subst (Keeps s) end (with_code-Keeps s code f' used n)
  Minted-Keeps s u w v code t same used at after (inr (f, made, m)) = Keeps-refl (ground (arith, m))

  answer-Keeps :
      (body : Bytes) (w : Machine V) (s t : Session V)
      (r : Result (List Presentation × Bytes) × Machine V)
      → process_response e body w ≡ r
      → w.session ≡ some s
      → r.1.session ≡ some t
      → Keeps s t
  answer-Keeps body w s t (ok (prs, code), v) run at after =
      let a = (process_response_iff e body w v prs code).0 run in
      let same : s ≡ a.s = ground (arith, a.admits.pointed) in
      Minted-Keeps s a.s (ticked w) v code t same (rw same a.admits.consumed) at after a.minted
  answer-Keeps body w s t (err x, v) run at after =
      let kept =
        process_response_refused e body w x
          (ap (λ (p : Result (List Presentation × Bytes) × Machine V). p.0) run) in
      Keeps-refl (ground arith)

  answer_dcapi_same :
      (origin body : Bytes) (w : Machine V)
      → (process_dcapi_response e origin body w).1.session ≡ w.session
  unfolding process_dcapi_response admit_dcapi_response session now
  answer_dcapi_same origin body w = ground arith

  Step-Keeps : {s t : Session V} → Step e s t → Keeps s t
  Step-Keeps (fetches w at after) = fetch-Keeps w _ _ _ refl at after
  Step-Keeps (absorbs raw h) = absorb-Keeps _ _ raw h
  Step-Keeps (consumes now f found h) = consume-Keeps now f _ _ found h
  Step-Keeps (answers body w at after) = answer-Keeps body w _ _ _ refl at after
  Step-Keeps (answers_dcapi origin body w at after) =
      let kept = answer_dcapi_same origin body w in Keeps-refl (ground arith)
  Step-Keeps (redeems code h) = redeem-Keeps _ _ code h

  pub Reaches-Keeps : {s t : Session V} → Reaches e s t → Keeps s t
  Reaches-Keeps {s} stays = (IsLater-refl s, λ h. h)
  Reaches-Keeps (goes before step) =
      let a = Reaches-Keeps before in
      let b = Step-Keeps step in (IsLater-trans _ _ _ a.0 b.0, λ h. b.1 (a.1 h))

  -- Take a new session, and any number of calls on it: fetches of its Request Object, wallet
  -- metadata, the store's `ConsumeOnce`, responses of either flow and redemptions, in any order,
  -- with any inputs and at any times, accepted or refused. Only its two marks, its metadata and
  -- its code change; a session once served or consumed stays so; and at the end it is served only if
  -- it is not of the DCAPI flow, it has a code, of 22 characters, only if it is of the same-device
  -- flow and consumed, a code was used only if there is one, and its metadata has at most 65,536
  -- bytes.
  pub new_session-IsSound :
      (spec : RequestSpec V) (entropy : ℕ) (w w' : Machine V) (s t : Session V)
      (inv : WalletInvocation)
      → new_session e spec entropy w ≡ (ok (s, inv), w')
      → Reaches e s t
      → IsLater s t × IsSound t
  unfolding session_of
  new_session-IsSound spec entropy w w' s t inv made reached =
      let m = (new_session-Makes e spec entropy w w' s inv made).1 in
      let k = Reaches-Keeps reached in
      (
        k.0,
        k.1 (
            subst IsSound (sym m.literal) (record {
              by_uri = inl refl;
              code = inl refl;
              redeemed = inl refl;
              metadata = omega arith;
            })),
      )
