-- ===== src/Store/Refines.antt =====
-- The in-memory store against the plain map from ids to sessions, and against the promised one.
use mathlib.Core.Path.{ap₂}
use go_oid4vp.Base.{
  ℕ, ◌≡◌, ◌∙◌, refl, ap, inl, inr, Option, none, some, List, [], ◌∷◌, All, ltb, Bool-cases,
}
use go_oid4vp.Base.Bytes.{Bytes, bytes_eq, is_empty}
use go_oid4vp.Base.Table.{lookup, insert, remove, lookup-insert, lookup-remove}
use go_oid4vp.Platform.{Platform}
use go_oid4vp.Session.{Session}
use go_oid4vp.Fault.{Result, ok, err}
use go_oid4vp.Store.{
  MemStore, Codec, mark_consumed, save, load, found, consume_once, consume_loaded, perform, run,
  new_mem_store, after,
}
use go_oid4vp.Store.Spec.{
  Sessions, Call, saves, loads, consumes, Outcome, assign, spec_load, spec_find, spec_mark,
  spec_consume, no_sessions, sticky_kept, KeepsMarks, spec_save, spec_perform, spec_run,
}
use go_oid4vp.Store.Plain.{plain_save, plain_perform, plain_run, plain_after}

module _ {V : Platform} (c : Codec V) where
  -- A stored snapshot stands for the session that it decodes to.
  abbrev pub Slot : Option Bytes → Option (Session V) → Type 0
  Slot none none = Unit
  Slot none (some s) = ⊥
  Slot (some raw) none = ⊥
  Slot (some raw) (some s) = (c.decode raw ≡ some s) × c.IsStorable s

  pub record Represents (m : MemStore) (f : Sessions V) : Type 0 where
    pub at : (id : Bytes) → Slot (lookup id m.sessions) (f id)

  abbrev pub Agrees {ℓ} : {A : Type ℓ} → Result A × MemStore → Result A × Sessions V → Type ℓ
  Agrees r q = (r.0 ≡ q.0) × Represents r.1 q.1

  -- The sessions that callers save must come back from JSON as they are.
  abbrev pub IsStorableCall : Call V → Type 0
  IsStorableCall (saves none) = Unit
  IsStorableCall (saves (some s)) = c.IsStorable s
  IsStorableCall (loads now id) = Unit
  IsStorableCall (consumes now id) = Unit

  abbrev pub IsStorableResult : Result (Session V) → Type 0
  IsStorableResult (ok s) = c.IsStorable s
  IsStorableResult (err e) = Unit

  insert-Represents :
      (id raw : Bytes) (s : Session V) (m : MemStore) (f : Sessions V)
      → c.decode raw ≡ some s
      → c.IsStorable s
      → Represents m f
      → Represents (record m { sessions = insert id raw m.sessions }) (assign id (some s) f)
  unfolding assign
  insert-Represents id raw s m f e h r = record {
    at = λ j. elim (Bool-cases (bytes_eq id j)) [
      | inl same ↦ rw (lookup-insert, same) (e, h)
      | inr other ↦ rw (lookup-insert, other) (r.at j)
    ];
  }

  remove-Represents :
      (id : Bytes) (m : MemStore) (f : Sessions V)
      → Represents m f
      → Represents (record m { sessions = remove id m.sessions }) (assign id none f)
  unfolding assign
  remove-Represents id m f r = record {
    at = λ j. elim (Bool-cases (bytes_eq id j)) [
      | inl same ↦ rw (lookup-remove, same) tt
      | inr other ↦ rw (lookup-remove, other) (r.at j)
    ];
  }

  pub save-Agrees :
      (o : Option (Session V)) (m : MemStore) (f : Sessions V)
      → IsStorableCall (saves o)
      → Represents m f
      → Agrees (save c o m) (plain_save o f)
  unfolding save plain_save
  save-Agrees none m f h r = (refl, r)
  save-Agrees (some s) m f h r = elim (Bool-cases (is_empty s.id)) [
    | inl bad ↦ rw bad (refl, r)
    | inr good ↦
        rw (good, c.encode_storable s h)
          (refl, insert-Represents s.id (c.encoding s h) s m f (c.decode_storable s h) h r)
  ]

  -- What `load` hands on to its callers.
  abbrev pub Loads : Result (Session V) × MemStore → Result (Session V) × Sessions V → Type 0
  Loads r q = (r.0 ≡ q.0) × Represents r.1 q.1 × IsStorableResult r.0

  found-Loads :
      (now : ℕ) (id : Bytes) (m : MemStore) (f : Sessions V) (o : Option Bytes)
      (q : Option (Session V))
      → Slot o q
      → Represents m f
      → Loads (found c now id m o) (spec_find now id f q)
  unfolding found spec_find
  found-Loads now id m f none none h r = (refl, r, tt)
  found-Loads now id m f none (some s) h r = absurd h
  found-Loads now id m f (some raw) none h r = absurd h
  found-Loads now id m f (some raw) (some s) h r = elim (Bool-cases (ltb now s.expires_at)) [
    | inl fresh ↦ rw (h.0, fresh) (refl, r, h.1)
    | inr old ↦ rw (h.0, old) (refl, remove-Represents id m f r, tt)
  ]

  pub load-Loads :
      (now : ℕ) (id : Bytes) (m : MemStore) (f : Sessions V)
      → Represents m f
      → Loads (load c now id m) (spec_load now id f)
  unfolding load spec_load
  load-Loads now id m f r = found-Loads now id m f (lookup id m.sessions) (f id) (r.at id) r

  consume_loaded-Agrees :
      (id : Bytes) (r : Result (Session V)) (m : MemStore) (f : Sessions V)
      → IsStorableResult r
      → Represents m f
      → Agrees (consume_loaded c id (r, m)) (spec_mark id (r, f))
  unfolding consume_loaded spec_mark
  consume_loaded-Agrees id (err e) m f h r = (refl, r)
  consume_loaded-Agrees id (ok s) m f h r = elim (Bool-cases s.consumed) [
    | inl used ↦ rw used (refl, r)
    | inr unused ↦
        let h' = c.mark_consumed-IsStorable s h in
        rw (unused, c.encode_storable (mark_consumed s) h')
          (
            refl,
            insert-Represents id (c.encoding (mark_consumed s) h') (mark_consumed s) m f
                (c.decode_storable (mark_consumed s) h') h' r,
          )
  ]

  mark-Agrees :
      (id : Bytes) (p : Result (Session V) × MemStore) (q : Result (Session V) × Sessions V)
      → Loads p q
      → Agrees (consume_loaded c id p) (spec_mark id q)
  mark-Agrees id (r, m) (r', f) h = rw (← h.0) (consume_loaded-Agrees id r m f h.2 h.1)

  pub consume-Agrees :
      (now : ℕ) (id : Bytes) (m : MemStore) (f : Sessions V)
      → Represents m f
      → Agrees (consume_once c now id m) (spec_consume now id f)
  unfolding consume_once spec_consume
  consume-Agrees now id m f r =
      mark-Agrees id (load c now id m) (spec_load now id f) (load-Loads now id m f r)

  -- A call has the outcome of the plain map, and leaves the store as that map is left.
  pub perform-refines :
      (k : Call V) (m : MemStore) (f : Sessions V)
      → IsStorableCall k
      → Represents m f
      → ((perform c k m).0 ≡ (plain_perform k f).0)
        × Represents (perform c k m).1 (plain_perform k f).1
  unfolding perform plain_perform
  perform-refines (saves o) m f h r = let a = save-Agrees o m f h r in (ap Outcome.saved a.0, a.1)
  perform-refines (loads now id) m f h r =
      let a = load-Loads now id m f r in (ap Outcome.loaded a.0, a.1)
  perform-refines (consumes now id) m f h r =
      let a = consume-Agrees now id m f r in (ap Outcome.consumed a.0, a.1)

  pub run_from-refines :
      (ks : List (Call V)) (m : MemStore) (f : Sessions V)
      → All IsStorableCall ks
      → Represents m f
      → run c ks m ≡ plain_run ks f
  unfolding run plain_run
  run_from-refines [] m f h r = refl
  run_from-refines (k ∷ ks) m f h r =
      let a = perform-refines k m f h.0 r in
      ap₂ ◌∷◌ a.0 (run_from-refines ks (perform c k m).1 (plain_perform k f).1 h.1 a.1)

  pub new_mem_store-Represents : Represents new_mem_store no_sessions
  unfolding new_mem_store no_sessions lookup
  new_mem_store-Represents = record { at = λ id. tt }

  after_from-Represents :
      (ks : List (Call V)) (m : MemStore) (f : Sessions V)
      → All IsStorableCall ks
      → Represents m f
      → Represents (after c ks m) (plain_after ks f)
  unfolding after plain_after
  after_from-Represents [] m f h r = r
  after_from-Represents (k ∷ ks) m f h r =
      after_from-Represents ks (perform c k m).1 (plain_perform k f).1 h.1
        (perform-refines k m f h.0 r).1

  pub after-Represents :
      (ks : List (Call V))
      → All IsStorableCall ks
      → Represents (after c ks new_mem_store) (plain_after ks no_sessions)
  after-Represents ks h =
      after_from-Represents ks new_mem_store no_sessions h new_mem_store-Represents

  -- On calls that take no mark away, the promised map and the plain one do the same.
  plain_perform-sticky :
      (k : Call V) (ks : List (Call V)) (f : Sessions V)
      → KeepsMarks (k ∷ ks) f
      → (plain_perform k f ≡ spec_perform k f) × KeepsMarks ks (spec_perform k f).1
  unfolding plain_perform spec_perform plain_save spec_save
  plain_perform-sticky (saves none) ks f h = (refl, h)
  plain_perform-sticky (saves (some s)) ks f h = (rw (sticky_kept (f s.id) s h.0) refl, h.1)
  plain_perform-sticky (loads now id) ks f h = (refl, h)
  plain_perform-sticky (consumes now id) ks f h = (refl, h)

  plain_run-sticky :
      (ks : List (Call V)) (f : Sessions V) → KeepsMarks ks f → plain_run ks f ≡ spec_run ks f
  unfolding plain_run spec_run
  plain_run-sticky [] f h = refl
  plain_run-sticky (k ∷ ks) f h =
      let step = plain_perform-sticky k ks f h in
      rw (step.0, plain_run-sticky ks (spec_perform k f).1 step.1) refl

  -- From the empty store, callers of the in-memory store that save only storable sessions, and none
  -- that is not marked consumed over one that is, get in every order of their calls and with
  -- every reading of the clock exactly the outcomes that the promised map from ids to sessions
  -- gives, in which the consumed mark is sticky.
  pub run-refines :
      (ks : List (Call V))
      → All IsStorableCall ks
      → KeepsMarks ks no_sessions
      → run c ks new_mem_store ≡ spec_run ks no_sessions
  run-refines ks h keep =
      run_from-refines ks new_mem_store no_sessions h new_mem_store-Represents
      ∙ plain_run-sticky ks no_sessions keep
