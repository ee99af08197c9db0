-- ===== src/Store.antt =====
-- memstore.go: the in-memory `SessionStore`. Each method holds the mutex from its first read of the
-- map to its last write, so a method is one step on the store; `now` is the reading of the store's
-- clock in that step.
pub mod Spec
pub mod Plain
pub mod Refines
pub mod Once
pub mod Interface
pub mod Implements
pub mod Client
use Spec.{Call, saves, loads, consumes, Outcome, saved, loaded, consumed}
use go_oid4vp.Base.{
  ℕ, ◌≡◌, Bool, true, false, not, Option, none, some, List, [], ◌∷◌, ltb, if◌then◌else◌,
}
use go_oid4vp.Base.Bytes.{Bytes, is_empty}
use go_oid4vp.Base.Table.{Table, lookup, insert, remove}
use go_oid4vp.Platform.{Platform}
use go_oid4vp.Session.{Session}
use go_oid4vp.Fault.{
  Error, Result, ok, err, sentinel, foreign, join, session_invalid, session_not_found,
  session_consumed,
}

abbrev pub mark_consumed : {V : Platform} → Session V → Session V
mark_consumed s = record s { consumed = true }

-- `json.Marshal` and `json.Unmarshal` at a `Session`. The sessions that come back as they were are
-- the storable ones: those whose texts are valid UTF-8 and whose times have no monotonic reading.
pub record Codec (V : Platform) : Type 1 where
  pub encode : Session V → Option Bytes
  pub decode : Bytes → Option (Session V)
  pub IsStorable : Session V → Type 0
  pub encoding : (s : Session V) → IsStorable s → Bytes
  pub encode_storable : (s : Session V) (h : IsStorable s) → encode s ≡ some (encoding s h)
  pub decode_storable : (s : Session V) (h : IsStorable s) → decode (encoding s h) ≡ some s
  pub mark_consumed-IsStorable : (s : Session V) → IsStorable s → IsStorable (mark_consumed s)

pub record MemStore : Type 0 where
  pub sessions : Table Bytes

unfoldable pub new_mem_store : MemStore
new_mem_store = record { sessions = [] }

module _ {V : Platform} (c : Codec V) where
  -- The rest of `Save`, from the result of `json.Marshal`.
  store_snapshot : MemStore → Bytes → Option Bytes → Result (Unit {0}) × MemStore
  store_snapshot m id none = (err (join (sentinel session_invalid) foreign), m)
  store_snapshot m id (some raw) = (ok tt, record m { sessions = insert id raw m.sessions })

  unfoldable pub save : Option (Session V) → MemStore → Result (Unit {0}) × MemStore
  unfolding store_snapshot
  save none m = (err (sentinel session_invalid), m)
  save (some s) m =
      if is_empty s.id
      then (err (sentinel session_invalid), m)
      else store_snapshot m s.id (c.encode s)

  -- The rest of `load`, from the result of `json.Unmarshal`.
  unexpired : ℕ → Bytes → MemStore → Option (Session V) → Result (Session V) × MemStore
  unexpired now id m none = (err (join (sentinel session_invalid) foreign), m)
  unexpired now id m (some s) =
      if not (ltb now s.expires_at)
      then (err (sentinel session_not_found), record m { sessions = remove id m.sessions })
      else (ok s, m)

  found : ℕ → Bytes → MemStore → Option Bytes → Result (Session V) × MemStore
  unfolding unexpired
  found now id m none = (err (sentinel session_not_found), m)
  found now id m (some raw) = unexpired now id m (c.decode raw)

  unfoldable pub load : ℕ → Bytes → MemStore → Result (Session V) × MemStore
  unfolding found
  load now id m = found now id m (lookup id m.sessions)

  -- The rest of `ConsumeOnce`, from the results of `json.Marshal` and of `load`.
  store_consumed : Bytes → Session V → MemStore → Option Bytes → Result (Session V) × MemStore
  store_consumed id s m none = (err (join (sentinel session_invalid) foreign), m)
  store_consumed id s m (some raw) = (ok s, record m { sessions = insert id raw m.sessions })

  consume_loaded : Bytes → Result (Session V) × MemStore → Result (Session V) × MemStore
  unfolding store_consumed
  consume_loaded id (err e, m) = (err e, m)
  consume_loaded id (ok s, m) =
      if s.consumed
      then (err (sentinel session_consumed), m)
      else store_consumed id (mark_consumed s) m (c.encode (mark_consumed s))

  unfoldable pub consume_once : ℕ → Bytes → MemStore → Result (Session V) × MemStore
  unfolding load consume_loaded
  consume_once now id m = consume_loaded id (load now id m)

  unfoldable pub perform : Call V → MemStore → Outcome V × MemStore
  perform (saves s) m = let (r, m') = save s m in (saved r, m')
  perform (loads now id) m = let (r, m') = load now id m in (loaded r, m')
  perform (consumes now id) m = let (r, m') = consume_once now id m in (consumed r, m')

  -- The calls of all goroutines, in the order in which they get the lock.
  unfoldable pub run : List (Call V) → MemStore → List (Outcome V)
  run [] m = []
  run (k ∷ ks) m = let (o, m') = perform k m in o ∷ run ks m'

  -- The store that calls leave behind.
  unfoldable pub after : List (Call V) → MemStore → MemStore
  after [] m = m
  after (k ∷ ks) m = after ks (perform k m).1
