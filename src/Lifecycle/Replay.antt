-- ===== src/Lifecycle/Replay.antt =====
-- A consumed session that is worked on and saved again, as the response endpoint does.
use go_oid4vp.Base.{
  ℕ, ◌<◌, ◌≡◌, ◌∙◌, sym, ap, refl, true, false, inl, inr, some, List, [], ◌∷◌, arith, All, ltb,
  Bool-cases, if◌then◌else◌,
}
use go_oid4vp.Base.Bytes.{is_empty}
use go_oid4vp.Platform.{Platform}
use go_oid4vp.Session.{Session}
use go_oid4vp.Engine.{Engine}
use go_oid4vp.Fault.{err, sentinel, session_consumed, session_not_found}
use go_oid4vp.Store.{mark_consumed}
use go_oid4vp.Store.Spec.{Sessions, assign, marked-IsKept}
use go_oid4vp.Store.Interface.{SessionStore, Implements}
use go_oid4vp.Store.Client
use go_oid4vp.Store.Client.{assign_self}
use go_oid4vp.Lifecycle.{Reaches}
use go_oid4vp.Lifecycle.Keeps.{Reaches-Keeps}

module _ {V : Platform} (st : SessionStore V) where
  -- `Save` of one session after the other.
  abbrev pub save_all : List (Session V) → st.Store → st.Store
  save_all [] m = m
  save_all (t ∷ ts) m = save_all ts (st.save (some t) m).1

module _ {V : Platform} (e : Engine V) {IsStorable : Session V → Type 0} (st : SessionStore V)
    (i : Implements IsStorable st) where
  -- What can be saved again: a session that calls made of the consumed one.
  abbrev pub IsAfter : Session V → Session V → Type 0
  IsAfter s t = Reaches e s t × IsStorable t

  -- What calls keep of the consumed session.
  spent :
      (s t : Session V)
      → s.consumed ≡ true
      → Reaches e s t
      → (t.consumed ≡ true) × (t.id ≡ s.id) × (t.expires_at ≡ s.expires_at)
  spent s t used reached =
      let later = (Reaches-Keeps e reached).0 in
      let still : t.consumed ≡ true = elim later.marks [
        | inl off ↦ cc (sym used ∙ off)
        | inr on ↦ on
      ] in
      (
        still,
        ap (λ (x : Session V). x.id) later.same,
        ap (λ (x : Session V). x.expires_at) later.same,
      )

  -- After the saves, the store still holds a consumed session with the id and the end of the first.
  saved_again :
      (s : Session V) (ts : List (Session V)) (u : Session V) (m : st.Store) (f : Sessions V)
      → s.consumed ≡ true
      → is_empty s.id ≡ false
      → All (IsAfter s) ts
      → f s.id ≡ some u
      → u.consumed ≡ true
      → u.expires_at ≡ s.expires_at
      → i.Stands m f
      → (v : Session V) × (g : Sessions V) × (g s.id ≡ some v)
        × (v.consumed ≡ true)
        × (v.expires_at ≡ s.expires_at)
        × i.Stands (save_all st ts m) g
  saved_again s [] u m f used named h found marked ends stands = (u, f, found, marked, ends, stands)
  saved_again s (t ∷ ts) u m f used named h found marked ends stands =
      let k = spent s t used h.0.0 in
      let named' : is_empty t.id ≡ false = ap is_empty k.1 ∙ named in
      let saved = Client.saves st i t m f named' h.0.1 (marked-IsKept (f t.id) t k.0) stands in
      let here : assign t.id (some t) f s.id ≡ some t =
        ap (assign t.id (some t) f) (sym k.1) ∙ assign_self t.id (some t) f in
      saved_again s ts t (st.save (some t) m).1 (assign t.id (some t) f) used named h.1 here k.0 k.2
        saved.1

  -- A replayed response is refused. When a store that implements the interface holds an
  -- unexpired, unconsumed session under its id, which is not empty, and `ConsumeOnce` is called
  -- for it, then whatever sessions are saved afterwards, any number of them, each storable and
  -- made of the consumed session by any calls of the package, a later `ConsumeOnce` for the id
  -- gets an error: consumed already before the session expires, and not found from then on.
  pub replay_refused :
      (s : Session V) (ts : List (Session V)) (m : st.Store) (f : Sessions V) (now later : ℕ)
      → i.Stands m f
      → f s.id ≡ some s
      → is_empty s.id ≡ false
      → s.consumed ≡ false
      → now < s.expires_at
      → All (IsAfter (mark_consumed s)) ts
      → (st.consume_once later s.id (save_all st ts (st.consume_once now s.id m).1)).0
        ≡ err (sentinel (if ltb later s.expires_at then session_consumed else session_not_found))
  replay_refused s ts m f now later stands found named fresh soon h =
      let taken = Client.consumes_fresh st i now s.id s m f found fresh soon stands in
      let (v, g, held, marked, ends, stands') =
        saved_again (mark_consumed s) ts (mark_consumed s) (st.consume_once now s.id m).1
          (assign s.id (some (mark_consumed s)) f) refl named h (assign_self _ _ _) refl refl
          taken.1 in
      elim (Bool-cases (ltb later s.expires_at)) [
        | inl before ↦
            rw before
              (Client.consumes_spent st i later s.id v _ g held marked
                (ground (arith, ends, before)) stands').0
        | inr after ↦ rw after (
            Client.consume_expired st i later s.id v _ g held (ground (arith, ends, after)) stands')
      ]
