-- ===== src/Store/Once.antt =====
-- How often `ConsumeOnce` hands out a session.
use go_oid4vp.Base.{
  ℕ, ◌+◌, ◌≤◌, ◌<◌, ◌≡◌, ◌∙◌, refl, true, false, ◌⊎◌, inl, inr, Option, none, some, List, [], ◌∷◌,
  map, arith, All, if◌then◌else◌, lt→ltb,
}
use go_oid4vp.Base.Bytes.{Bytes, bytes_eq, bytes_eq_iff, bytes_eq_refl, is_empty}
use go_oid4vp.Platform.{Platform}
use go_oid4vp.Session.{Session}
use go_oid4vp.Fault.{ok, err, sentinel, session_consumed}
use go_oid4vp.Store.{Codec, run, after, new_mem_store, mark_consumed}
use go_oid4vp.Store.Refines.{IsStorableCall, run_from-refines, after-Represents}
use go_oid4vp.Store.Spec.{
  Sessions, Call, saves, loads, consumes, Outcome, saved, consumed, assign, spec_load, spec_consume,
  no_sessions,
}
use go_oid4vp.Store.Plain.{plain_save, plain_perform, plain_run, plain_after}

module _ {V : Platform} where
  -- 1 if the call is a `ConsumeOnce` of the id that got the session.
  abbrev pub win : Bytes → Call V → Outcome V → ℕ
  win id (consumes now j) (consumed (ok s)) = if bytes_eq j id then 1 else 0
  win id _ _ = 0

  unfoldable pub wins : Bytes → List (Call V) → List (Outcome V) → ℕ
  wins id [] os = 0
  wins id (k ∷ ks) [] = 0
  wins id (k ∷ ks) (o ∷ os) = win id k o + wins id ks os

  -- Nobody saves a copy of the session that is not marked consumed.
  abbrev pub KeepsMark : Bytes → Call V → Type 0
  KeepsMark id (saves (some s)) = s.id ≡ id → s.consumed ≡ true
  KeepsMark id _ = Unit

  abbrev IsSpent : Option (Session V) → Type 0
  IsSpent none = Unit
  IsSpent (some s) = s.consumed ≡ true

  IsSpent-stays :
      (id : Bytes) (k : Call V) (f : Sessions V)
      → KeepsMark id k
      → IsSpent (f id)
      → (win id k (plain_perform k f).0 ≡ 0) × IsSpent ((plain_perform k f).1 id)
  unfolding plain_perform plain_save spec_consume spec_load
  IsSpent-stays id (saves none) f h p = (refl, p)
  IsSpent-stays id (saves (some s)) f h p = ground (arith, bytes_eq_iff s.id id)
  IsSpent-stays id (loads now j) f h p = ground (arith, bytes_eq_iff j id)
  IsSpent-stays id (consumes now j) f h p = ground (arith, bytes_eq_iff j id)

  win_spends :
      (id : Bytes) (k : Call V) (f : Sessions V)
      → KeepsMark id k
      → (win id k (plain_perform k f).0 ≡ 0)
        ⊎ ((win id k (plain_perform k f).0 ≡ 1) × IsSpent ((plain_perform k f).1 id))
  unfolding plain_perform spec_consume spec_load
  win_spends id (saves o) f h = inl refl
  win_spends id (loads now j) f h = inl refl
  win_spends id (consumes now j) f h = ground (arith, bytes_eq_iff j id)

  no_more_wins :
      (id : Bytes) (ks : List (Call V)) (f : Sessions V)
      → All (KeepsMark id) ks
      → IsSpent (f id)
      → wins id ks (plain_run ks f) ≡ 0
  unfolding wins plain_run
  no_more_wins id [] f h p = refl
  no_more_wins id (k ∷ ks) f h p =
      let s = IsSpent-stays id k f h.0 p in
      omega (arith, s.0, no_more_wins id ks (plain_perform k f).1 h.1 s.1)

  wins-le-one :
      (id : Bytes) (ks : List (Call V)) (f : Sessions V)
      → All (KeepsMark id) ks
      → wins id ks (plain_run ks f) ≤ 1
  unfolding wins plain_run
  wins-le-one id [] f h = omega arith
  wins-le-one id (k ∷ ks) f h = elim (win_spends id k f h.0) [
    | inl lost ↦ omega (arith, lost, wins-le-one id ks (plain_perform k f).1 h.1)
    | inr (won, spent) ↦ omega (arith, won, no_more_wins id ks (plain_perform k f).1 h.1 spent)
  ]

  -- Calls of `ConsumeOnce` by several callers, each at its own time.
  abbrev pub consumers : Bytes → List ℕ → List (Call V)
  consumers id = map (λ now. consumes now id)

  abbrev pub too_late : List ℕ → List (Outcome V)
  too_late = map (λ now. consumed (err (sentinel session_consumed)))

  consume_spent :
      (t : ℕ) (id : Bytes) (s : Session V) (f : Sessions V)
      → f id ≡ some s
      → s.consumed ≡ true
      → t < s.expires_at
      → plain_perform (consumes t id) f ≡ (consumed (err (sentinel session_consumed)), f)
  unfolding plain_perform spec_consume spec_load
  consume_spent t id s f e u h = rw (e, lt→ltb _ _ h, u)

  consume_fresh :
      (t : ℕ) (id : Bytes) (s : Session V) (f : Sessions V)
      → f id ≡ some s
      → s.consumed ≡ false
      → t < s.expires_at
      → plain_perform (consumes t id) f
        ≡ (consumed (ok (mark_consumed s)), assign id (some (mark_consumed s)) f)
  unfolding plain_perform spec_consume spec_load
  consume_fresh t id s f e u h = rw (e, lt→ltb _ _ h, u)

  consumed_losers :
      (ts : List ℕ) (id : Bytes) (s : Session V) (f : Sessions V)
      → f id ≡ some s
      → s.consumed ≡ true
      → All (λ t. t < s.expires_at) ts
      → plain_run (consumers id ts) f ≡ too_late ts
  unfolding plain_run
  consumed_losers [] id s f e u h = refl
  consumed_losers (t ∷ ts) id s f e u h =
      rw (consume_spent t id s f e u h.0, consumed_losers ts id s f e u h.1)

  assign_self : (id : Bytes) (o : Option (Session V)) (f : Sessions V) → assign id o f id ≡ o
  unfolding assign
  assign_self id o f = rw (bytes_eq_refl id)

  one_winner :
      (t : ℕ) (ts : List ℕ) (id : Bytes) (s : Session V) (f : Sessions V)
      → f id ≡ some s
      → s.consumed ≡ false
      → All (λ t. t < s.expires_at) (t ∷ ts)
      → plain_run (consumers id (t ∷ ts)) f ≡ consumed (ok (mark_consumed s)) ∷ too_late ts
  unfolding plain_run
  one_winner t ts id s f e u h = rw (
    consume_fresh t id s f e u h.0,
    consumed_losers ts id (mark_consumed s) (assign id (some (mark_consumed s)) f)
        (assign_self id (some (mark_consumed s)) f) refl h.1,
  )

  -- A save by `s.id`, as far as later calls of that id go.
  save_stores :
      (s : Session V) (f : Sessions V)
      → is_empty s.id ≡ false
      → plain_perform (saves (some s)) f ≡ (saved (ok tt), assign s.id (some s) f)
  unfolding plain_perform plain_save
  save_stores s f e = rw e

  storable_consumers :
      (c : Codec V) (id : Bytes) (ts : List ℕ) → All (IsStorableCall c) (consumers id ts)
  storable_consumers c id [] = tt
  storable_consumers c id (t ∷ ts) = (tt, storable_consumers c id ts)

module _ {V : Platform} (c : Codec V) (past : List (Call V)) where
  -- From any moment in the life of a store on, if nobody saves a copy of a session that is not
  -- marked consumed (and all saved sessions are storable), then at most one of all later calls
  -- of `ConsumeOnce` for its id gets the session, however they interleave with other calls.
  pub consume_once-at_most_one :
      (id : Bytes) (ks : List (Call V))
      → All (IsStorableCall c) past
      → All (IsStorableCall c) ks
      → All (KeepsMark id) ks
      → wins id ks (run c ks (after c past new_mem_store)) ≤ 1
  consume_once-at_most_one id ks hp hk keep =
      rw
        (run_from-refines c ks (after c past new_mem_store) (plain_after past no_sessions) hk
          (after-Represents c past hp))
        (wins-le-one id ks (plain_after past no_sessions) keep)

  -- When a storable session with an id that is not marked consumed is saved, and any number of
  -- callers then race for it before it expires, the first to get the lock gets the session, marked
  -- consumed, and every other one gets ErrSessionConsumed.
  pub consume_once_race :
      (s : Session V) (t : ℕ) (ts : List ℕ)
      → All (IsStorableCall c) past
      → c.IsStorable s
      → is_empty s.id ≡ false
      → s.consumed ≡ false
      → All (λ t. t < s.expires_at) (t ∷ ts)
      → run c (saves (some s) ∷ consumers s.id (t ∷ ts)) (after c past new_mem_store)
        ≡ saved (ok tt) ∷ consumed (ok (mark_consumed s)) ∷ too_late ts
  unfolding plain_run
  consume_once_race s t ts hp hs e u h =
      let f = plain_after past no_sessions in
      run_from-refines c (saves (some s) ∷ consumers s.id (t ∷ ts)) (after c past new_mem_store) f
        (hs, storable_consumers c s.id (t ∷ ts)) (after-Represents c past hp)
      ∙ rw (
        save_stores s f e,
        one_winner t ts s.id s (assign s.id (some s) f) (assign_self s.id (some s) f) u h,
      )

  -- The mark does not survive a save of a copy that was read before: whenever a storable session
  -- is saved, consumed, saved once more from the copy without the mark, and consumed again before it
  -- expires, both consumers get it.
  pub stale_save_revives :
      (s : Session V) (t u : ℕ)
      → All (IsStorableCall c) past
      → c.IsStorable s
      → is_empty s.id ≡ false
      → s.consumed ≡ false
      → t < s.expires_at
      → u < s.expires_at
      → run c
          (saves (some s) ∷ consumes t s.id ∷ saves (some s) ∷ consumes u s.id ∷ [])
          (after c past new_mem_store)
        ≡ saved (ok tt)
          ∷ consumed (ok (mark_consumed s))
          ∷ saved (ok tt)
          ∷ consumed (ok (mark_consumed s))
          ∷ []
  unfolding plain_run
  stale_save_revives s t u hp hs e un ht hu =
      let f = plain_after past no_sessions in
      let g = assign s.id (some s) f in
      let g' = assign s.id (some (mark_consumed s)) g in
      run_from-refines c _ (after c past new_mem_store) f (hs, (tt, (hs, (tt, tt))))
        (after-Represents c past hp)
      ∙ rw (
        save_stores s f e,
        consume_fresh t s.id s g (assign_self s.id (some s) f) un ht,
        save_stores s g' e,
        consume_fresh u s.id s (assign s.id (some s) g') (assign_self s.id (some s) g') un hu,
      )
