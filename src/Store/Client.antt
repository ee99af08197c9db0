-- ===== src/Store/Client.antt =====
-- What a client sees of a store that keeps the interface's promise, call by call.
use go_oid4vp.Base.{ℕ, ◌≤◌, ◌<◌, ◌≡◌, true, false, Option, none, some, arith, ltb, lt→ltb}
use go_oid4vp.Base.Bytes.{Bytes, bytes_eq_refl, is_empty}
use go_oid4vp.Platform.{Platform}
use go_oid4vp.Session.{Session}
use go_oid4vp.Store.{mark_consumed}
use go_oid4vp.Store.Interface.{SessionStore, Implements}
use go_oid4vp.Store.Spec.{
  Sessions, IsKept, sticky_kept, assign, spec_save, spec_load, spec_find, spec_consume,
}
use go_oid4vp.Fault.{ok, err, sentinel, session_not_found, session_consumed}

pub assign_self :
    {V : Platform} (id : Bytes) (o : Option (Session V)) (f : Sessions V) → assign id o f id ≡ o
unfolding assign
assign_self id o f = rw (bytes_eq_refl id)

module _ {V : Platform} {IsStorable : Session V → Type 0} (st : SessionStore V)
    (i : Implements IsStorable st) where
  pub saves :
      (s : Session V) (m : st.Store) (f : Sessions V)
      → is_empty s.id ≡ false
      → IsStorable s
      → IsKept (f s.id) s
      → i.Stands m f
      → ((st.save (some s) m).0 ≡ ok tt) × i.Stands (st.save (some s) m).1 (assign s.id (some s) f)
  unfolding spec_save
  saves s m f named h k r = rw (named, sticky_kept (f s.id) s k) at (i.saves_as s m f h k r)

  pub finds :
      (t : ℕ) (id : Bytes) (s : Session V) (m : st.Store) (f : Sessions V)
      → f id ≡ some s
      → t < s.expires_at
      → i.Stands m f
      → ((st.load t id m).0 ≡ ok s) × i.Stands (st.load t id m).1 f
  unfolding spec_load spec_find
  finds t id s m f e h r = rw (e, lt→ltb _ _ h) at (i.loads_as t id m f r)

  pub misses :
      (t : ℕ) (id : Bytes) (m : st.Store) (f : Sessions V)
      → f id ≡ none
      → i.Stands m f
      → ((st.load t id m).0 ≡ err (sentinel session_not_found)) × i.Stands (st.load t id m).1 f
  unfolding spec_load spec_find
  misses t id m f e r = rw e at (i.loads_as t id m f r)

  pub load_expired :
      (t : ℕ) (id : Bytes) (s : Session V) (m : st.Store) (f : Sessions V)
      → f id ≡ some s
      → s.expires_at ≤ t
      → i.Stands m f
      → ((st.load t id m).0 ≡ err (sentinel session_not_found))
        × i.Stands (st.load t id m).1 (assign id none f)
  unfolding spec_load spec_find
  load_expired t id s m f e h r =
      let old : ltb t s.expires_at ≡ false = ground arith in rw (e, old) at (i.loads_as t id m f r)

  pub consumes_fresh :
      (t : ℕ) (id : Bytes) (s : Session V) (m : st.Store) (f : Sessions V)
      → f id ≡ some s
      → s.consumed ≡ false
      → t < s.expires_at
      → i.Stands m f
      → ((st.consume_once t id m).0 ≡ ok (mark_consumed s))
        × i.Stands (st.consume_once t id m).1 (assign id (some (mark_consumed s)) f)
  unfolding spec_consume spec_load
  consumes_fresh t id s m f e u h r = rw (e, lt→ltb _ _ h, u) at (i.consumes_as t id m f r)

  pub consumes_spent :
      (t : ℕ) (id : Bytes) (s : Session V) (m : st.Store) (f : Sessions V)
      → f id ≡ some s
      → s.consumed ≡ true
      → t < s.expires_at
      → i.Stands m f
      → ((st.consume_once t id m).0 ≡ err (sentinel session_consumed))
        × i.Stands (st.consume_once t id m).1 f
  unfolding spec_consume spec_load
  consumes_spent t id s m f e u h r = rw (e, lt→ltb _ _ h, u) at (i.consumes_as t id m f r)

  pub consume_misses :
      (t : ℕ) (id : Bytes) (m : st.Store) (f : Sessions V)
      → f id ≡ none
      → i.Stands m f
      → ((st.consume_once t id m).0 ≡ err (sentinel session_not_found))
  unfolding spec_consume spec_load
  consume_misses t id m f e r = (rw e at (i.consumes_as t id m f r)).0

  pub consume_expired :
      (t : ℕ) (id : Bytes) (s : Session V) (m : st.Store) (f : Sessions V)
      → f id ≡ some s
      → s.expires_at ≤ t
      → i.Stands m f
      → (st.consume_once t id m).0 ≡ err (sentinel session_not_found)
  unfolding spec_consume spec_load
  consume_expired t id s m f e h r =
      let old : ltb t s.expires_at ≡ false = ground arith in
      (rw (e, old) at (i.consumes_as t id m f r)).0
