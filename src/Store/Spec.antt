-- ===== src/Store/Spec.antt =====
-- What the comment on `SessionStore` (session.go) promises, as operations on a map from ids to
-- sessions, and calls of either store in sequence.
use go_oid4vp.Base.{
  ℕ, ◌≡◌, refl, sym, ap, Bool, true, inl, inr, Option, none, some, List, [], ◌∷◌, ltb, Bool-cases,
  if◌then◌else◌,
}
use go_oid4vp.Base.Bytes.{Bytes, bytes_eq, is_empty}
use go_oid4vp.Platform.{Platform}
use go_oid4vp.Session.{Session}
use go_oid4vp.Fault.{
  Result, ok, err, sentinel, session_invalid, session_not_found, session_consumed,
}

abbrev pub Sessions : Platform → Type 0
Sessions V = Bytes → Option (Session V)

-- One call of the interface, with the clock's reading while the lock is held.
pub data Call (V : Platform) : Type 0 where
  saves : Option (Session V) → Call V
  loads : ℕ → Bytes → Call V
  consumes : ℕ → Bytes → Call V

-- What a caller gets back.
pub data Outcome (V : Platform) : Type 0 where
  saved : Result (Unit {0}) → Outcome V
  loaded : Result (Session V) → Outcome V
  consumed : Result (Session V) → Outcome V

module _ {V : Platform} where
  unfoldable pub assign : Bytes → Option (Session V) → Sessions V → Sessions V
  assign id o f j = if bytes_eq id j then o else f j

  -- The consumed mark is sticky: a session that is saved over a consumed one is consumed.
  unfoldable pub sticky : Option (Session V) → Session V → Session V
  sticky none s = s
  sticky (some old) s = if old.consumed then record s { consumed = true } else s

  -- A save that takes no mark away: what is saved over a consumed session is marked consumed itself.
  abbrev pub IsKept : Option (Session V) → Session V → Type 0
  IsKept none s = Unit
  IsKept (some old) s = old.consumed ≡ true → s.consumed ≡ true

  marked : (s : Session V) (b : Bool) → s.consumed ≡ b → record s { consumed = b } ≡ s
  marked s b h = ap (λ (x : Bool). record s { consumed = x }) (sym h)

  pub sticky_kept : (o : Option (Session V)) (s : Session V) → IsKept o s → sticky o s ≡ s
  unfolding sticky
  sticky_kept none s h = refl
  sticky_kept (some old) s h = elim (Bool-cases old.consumed) [
    | inl used ↦ rw used (marked s true (h used))
    | inr unused ↦ rw unused refl
  ]

  pub absent-IsKept : (o : Option (Session V)) (s : Session V) → o ≡ none → IsKept o s
  absent-IsKept o s e = rw e tt

  pub marked-IsKept : (o : Option (Session V)) (s : Session V) → s.consumed ≡ true → IsKept o s
  marked-IsKept none s h = tt
  marked-IsKept (some old) s h = λ _. h

  unfoldable pub spec_save : Option (Session V) → Sessions V → Result (Unit {0}) × Sessions V
  unfolding assign sticky
  spec_save none f = (err (sentinel session_invalid), f)
  spec_save (some s) f =
      if is_empty s.id
      then (err (sentinel session_invalid), f)
      else (ok tt, assign s.id (some (sticky (f s.id) s)) f)

  -- Unknown and expired ids are not found, and an expired session is gone for good.
  unfoldable pub spec_find :
      ℕ → Bytes → Sessions V → Option (Session V) → Result (Session V) × Sessions V
  unfolding assign
  spec_find now id f none = (err (sentinel session_not_found), f)
  spec_find now id f (some s) =
      if ltb now s.expires_at
      then (ok s, f)
      else (err (sentinel session_not_found), assign id none f)

  unfoldable pub spec_load : ℕ → Bytes → Sessions V → Result (Session V) × Sessions V
  unfolding spec_find
  spec_load now id f = spec_find now id f (f id)

  unfoldable pub spec_mark :
      Bytes → Result (Session V) × Sessions V → Result (Session V) × Sessions V
  unfolding assign
  spec_mark id (err e, f) = (err e, f)
  spec_mark id (ok s, f) =
      if s.consumed
      then (err (sentinel session_consumed), f)
      else (ok (record s { consumed = true }), assign id (some (record s { consumed = true })) f)

  unfoldable pub spec_consume : ℕ → Bytes → Sessions V → Result (Session V) × Sessions V
  unfolding spec_load spec_mark
  spec_consume now id f = spec_mark id (spec_load now id f)

  unfoldable pub no_sessions : Sessions V
  no_sessions id = none

  unfoldable pub spec_perform : Call V → Sessions V → Outcome V × Sessions V
  unfolding spec_save spec_load spec_consume
  spec_perform (saves s) f = let (r, f') = spec_save s f in (saved r, f')
  spec_perform (loads now id) f = let (r, f') = spec_load now id f in (loaded r, f')
  spec_perform (consumes now id) f = let (r, f') = spec_consume now id f in (consumed r, f')

  -- What the callers get, in the order in which the calls get the lock.
  unfoldable pub spec_run : List (Call V) → Sessions V → List (Outcome V)
  spec_run [] f = []
  spec_run (k ∷ ks) f = let (o, f') = spec_perform k f in o ∷ spec_run ks f'

  -- No call of the run takes a mark away.
  abbrev pub KeepsMarks : List (Call V) → Sessions V → Type 0
  KeepsMarks [] f = Unit
  KeepsMarks (saves (some s) ∷ ks) f =
      IsKept (f s.id) s × KeepsMarks ks (spec_perform (saves (some s)) f).1
  KeepsMarks (k ∷ ks) f = KeepsMarks ks (spec_perform k f).1
