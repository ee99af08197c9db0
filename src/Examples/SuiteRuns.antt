-- ===== src/Examples/SuiteRuns.antt =====
-- A run of the store's conformance suite.
use go_oid4vp.Base.{
  ℕ, ◌≡◌, refl, ap, sym, ◌∙◌, Bool, true, false, Option, none, some, [], ◌∷◌, ◌++◌, arith, length,
  take, drop, ℤ, ◌==◌,
}
use go_oid4vp.Base.Bytes.{Bytes}
use go_oid4vp.Session.{Session}
use go_oid4vp.Store.{Codec, mark_consumed}
use go_oid4vp.Fault.{Result, ok, err, sentinel, session_not_found}
use go_oid4vp.Store.Interface.{SessionStore, mem_store}
use go_oid4vp.Store.Implements.{mem_store-Implements}
use go_oid4vp.StoreTest.{fixture, run_suite, load_returns_a_copy}
use go_oid4vp.StoreTest.Fixtures.{IsTimely, Fixtures}
use go_oid4vp.StoreTest.Passes.{run_suite_passes}
use go_oid4vp.Examples.Toy.{toy}

-- A session of the suite is stored as its times, its mark, the length of its id, its id and its code.
abbrev rebuild : Bytes → ℕ → ℕ → Bool → Bytes → Session toy
rebuild id created expires used code = record (fixture toy 5 id (ℤ.pos 0) 0) {
  created_at = created;
  expires_at = expires;
  consumed = used;
  response_code = code;
}

abbrev restored : Session toy → Session toy
restored s = rebuild s.id s.created_at s.expires_at s.consumed s.response_code

abbrev bit : Bool → ℕ
bit true = 1
bit false = 0

abbrev written : Session toy → Bytes
written s = s.created_at ∷ s.expires_at ∷ bit s.consumed ∷ length s.id ∷ s.id ++ s.response_code

abbrev reread : Bytes → Option (Session toy)
reread (created ∷ expires ∷ used ∷ n ∷ rest) =
    some (rebuild (take n rest) created expires (used == 1) (drop n rest))
reread _ = none

take-append : (xs ys : Bytes) → take (length xs) (xs ++ ys) ≡ xs
take-append [] ys = refl
take-append (x ∷ xs) ys = ap (◌∷◌ x) (take-append xs ys)

drop-append : (xs ys : Bytes) → drop (length xs) (xs ++ ys) ≡ ys
drop-append [] ys = refl
drop-append (x ∷ xs) ys = drop-append xs ys

bit-eq : (b : Bool) → (bit b == 1) ≡ b
bit-eq true = refl
bit-eq false = refl

reread-written : (s : Session toy) → reread (written s) ≡ some (restored s)
reread-written s =
    rw (take-append s.id s.response_code, drop-append s.id s.response_code, bit-eq s.consumed)

abbrev suite_codec : Codec toy
suite_codec = record {
  encode = λ s. some (written s);
  decode = reread;
  IsStorable = λ s. s ≡ restored s;
  encoding = λ s h. written s;
  encode_storable = λ s h. refl;
  decode_storable = λ s h. reread-written s ∙ ap some (sym h);
  mark_consumed-IsStorable = λ s h. ap mark_consumed h;
}

fixtures : Fixtures suite_codec
unfolding fixture go_oid4vp.StoreTest.registered
fixtures = record {
  regs = λ id. 5;
  registers = λ id h. refl;
  storable = λ id t h d. (refl, refl);
  storable_with_code = λ id t code h k d. refl;
}

-- Every reading is the same.
still : IsTimely (λ j. 5_000_000_000_000)
still = record {
  forwards = λ i j h. omega arith;
  dated = λ i. (omega arith, omega arith);
  within = λ i j. omega arith;
}

run_suite_passes_example :
    run_suite suite_codec (mem_store suite_codec) (λ n j. 5_000_000_000_000) ≡ true
run_suite_passes_example =
    run_suite_passes suite_codec (mem_store suite_codec) (mem_store-Implements suite_codec) fixtures
      (λ n j. 5_000_000_000_000) (λ n. still)

-- A store of one session that hands out what it keeps: an assignment to a loaded session is one to
-- the stored one.
abbrev kept : Option (Session toy) → Result (Session toy)
kept none = err (sentinel session_not_found)
kept (some s) = ok s

abbrev sharing_store : SessionStore toy
sharing_store = record {
  Store = Option (Session toy);
  empty = none;
  save = λ o m. (ok tt, o);
  load = λ now id m. (kept m, m);
  consume_once = λ now id m. (kept m, m);
  mutated = λ id s m. some s;
}

sharing_store_fails : load_returns_a_copy suite_codec sharing_store (λ j. 5_000_000_000_000) ≡ false
unfolding load_returns_a_copy go_oid4vp.StoreTest.with_session go_oid4vp.StoreTest.registered
    fixture go_oid4vp.Base.Bytes.bytes_eq
sharing_store_fails = refl
