-- ===== src/Store/Interface.antt =====
-- session.go, `SessionStore`: what a client of any store can call, and what the comment on the
-- interface promises of it.
use go_oid4vp.Base.{ℕ, ◌≡◌, true, Option, none, some}
use go_oid4vp.Base.Bytes.{Bytes, is_empty}
use go_oid4vp.Platform.{Platform}
use go_oid4vp.Session.{Session}
use go_oid4vp.Fault.{Result}
use go_oid4vp.Store.{Codec, MemStore, new_mem_store, save, load, consume_once}
use go_oid4vp.Store.Spec.{Sessions, IsKept, no_sessions, spec_save, spec_load, spec_consume}

-- A call reads the store's clock, gives its result, and leaves a store behind. `empty` is a fresh
-- store. `mutated id s` is the store after a caller has turned the session that it was handed under
-- this id into `s` by assignments, and saved nothing: it is another store where what is handed out
-- is shared with the store.
pub record SessionStore (V : Platform) : Type 1 where
  pub Store : Type 0
  pub empty : Store
  pub save : Option (Session V) → Store → Result (Unit {0}) × Store
  pub load : ℕ → Bytes → Store → Result (Session V) × Store
  pub consume_once : ℕ → Bytes → Store → Result (Session V) × Store
  pub mutated : Bytes → Session V → Store → Store

-- The store keeps the promised map from ids to sessions, as far as the sessions that it is given can
-- be stored and no save takes a mark away.
pub record Implements {V : Platform} (IsStorable : Session V → Type 0) (st : SessionStore V)
    : Type 1 where
  pub Stands : st.Store → Sessions V → Type 0
  pub starts : Stands st.empty no_sessions
  pub saves_as :
      (s : Session V) (m : st.Store) (f : Sessions V)
      → IsStorable s
      → IsKept (f s.id) s
      → Stands m f
      → ((st.save (some s) m).0 ≡ (spec_save (some s) f).0)
        × Stands (st.save (some s) m).1 (spec_save (some s) f).1
  pub saves_nil :
      (m : st.Store) (f : Sessions V)
      → Stands m f
      → ((st.save none m).0 ≡ (spec_save none f).0) × Stands (st.save none m).1 f
  pub saves_nameless :
      (s : Session V) (m : st.Store) (f : Sessions V)
      → is_empty s.id ≡ true
      → Stands m f
      → ((st.save (some s) m).0 ≡ (spec_save (some s) f).0) × Stands (st.save (some s) m).1 f
  pub loads_as :
      (now : ℕ) (id : Bytes) (m : st.Store) (f : Sessions V)
      → Stands m f
      → ((st.load now id m).0 ≡ (spec_load now id f).0)
        × Stands (st.load now id m).1 (spec_load now id f).1
  pub consumes_as :
      (now : ℕ) (id : Bytes) (m : st.Store) (f : Sessions V)
      → Stands m f
      → ((st.consume_once now id m).0 ≡ (spec_consume now id f).0)
        × Stands (st.consume_once now id m).1 (spec_consume now id f).1
  pub isolates :
      (id : Bytes) (s : Session V) (m : st.Store) (f : Sessions V)
      → Stands m f
      → Stands (st.mutated id s m) f

-- `NewMemStore` as a `SessionStore`. `Load` and `ConsumeOnce` decode into a variable of
-- their own (memstore.go, `load`), so what a caller assigns to a session does not reach the store.
abbrev pub mem_store : {V : Platform} → Codec V → SessionStore V
mem_store c = record {
  Store = MemStore;
  empty = new_mem_store;
  save = save c;
  load = load c;
  consume_once = consume_once c;
  mutated = λ id s m. m;
}
