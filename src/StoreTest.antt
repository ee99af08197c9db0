-- ===== src/StoreTest.antt =====
-- storetest/storetest.go: the suite that every `SessionStore` must pass. A subtest is a test of what
-- a fresh store answers; `clock` gives the readings of the wall clock, by the test and by the store,
-- in order.
pub mod Calls
pub mod Fixtures
pub mod Subtests
pub mod Race
pub mod Passes
use go_oid4vp.Base.{
  ℕ, zero, suc, ◌+◌, ◌-◌, ◌*◌, ◌%◌, Bool, true, false, ◌&&◌, Option, none, some, List, [], ◌∷◌,
  ◌++◌, ℤ, ◌==◌, if◌then◌else◌,
}
use go_oid4vp.Base.Int.{pos, negsuc}
use go_oid4vp.Base.Bytes.{Bytes, codes, bytes_eq}
use go_oid4vp.Platform.{Platform}
use go_oid4vp.Session.{Session, Flow, cross_device, other}
use go_oid4vp.Store.{Codec}
use go_oid4vp.Store.Interface.{SessionStore}
use go_oid4vp.Fault.{
  Sentinel, Error, Result, ok, err, is, session_invalid, session_not_found, session_consumed,
}

-- `time.Hour` and `-time.Minute`, in nanoseconds.
abbrev pub hour : ℤ
hour = pos 3_600_000_000_000

abbrev pub minute_ago : ℤ
minute_ago = negsuc 59_999_999_999

abbrev pub add_duration : ℕ → ℤ → ℕ
add_duration t (pos n) = t + n
add_duration t (negsuc n) = t - suc n

-- `time.Now().UTC().Truncate(time.Second)`.
abbrev pub to_second : ℕ → ℕ
to_second t = t - t % 1_000_000_000

-- `t.Fatal` on an error, else the rest of the test.
abbrev pub given {ℓ} : {A : Type ℓ} → Option A → (A → Bool) → Bool
given none rest = false
given (some a) rest = rest a

abbrev pub succeeds {ℓ κ} : {A : Type ℓ} {S : Type κ} → Result A × S → (A → S → Bool) → Bool
succeeds (ok a, m) rest = rest a m
succeeds (err e, m) rest = false

-- `t.Fatal` unless the error is the wanted one.
abbrev pub fails_with {ℓ κ} :
    {A : Type ℓ} {S : Type κ} → Sentinel → Result A × S → (S → Bool) → Bool
fails_with t (ok a, m) rest = false
fails_with t (err e, m) rest = is e t && rest m

-- What the goroutines count.
pub record Tally : Type 0 where
  pub wins : ℕ
  pub conflicts : ℕ
  pub clean : Bool

abbrev pub score {ℓ} : {A : Type ℓ} → Result A → Tally → Tally
score (ok a) r = record r { wins = suc r.wins }
score (err e) r =
    if is e session_consumed
    then record r { conflicts = suc r.conflicts }
    else record r { clean = false }

abbrev pub goroutines : ℕ
goroutines = 64

-- n readings of the clock from the i-th on.
unfoldable pub readings : ℕ → (ℕ → ℕ) → List ℕ
readings zero clock = []
readings (suc n) clock = clock 0 ∷ readings n (λ i. clock (suc i))

module _ (V : Platform) where
  -- `newSession`, from a registration.
  unfoldable pub fixture : V.Registration → Bytes → ℤ → ℕ → Session V
  fixture reg id ttl t = record {
    id = id;
    flow = cross_device;
    client_id = codes "x509_san_dns:verifier.example.com";
    nonce = codes "nonce-" ++ id;
    state = codes "state-" ++ id;
    response_uri = codes "https://verifier.example.com/response/" ++ id;
    return_uri = [];
    query = V.zero_query;
    registration = reg;
    wrprc = [];
    transaction_data = [];
    expected_origins = [];
    ephemeral_key_pkcs8 = [];
    created_at = to_second t;
    expires_at = add_duration (to_second t) ttl;
    request_object_served = false;
    wallet_metadata = [];
    consumed = false;
    response_code = [];
    response_code_used = false;
  }

  unfoldable pub registered : Bytes → Option V.Registration
  registered id =
      V.new_registration_ref (codes "Example Verifier") (codes "verifier.example.com")
        (codes "https://registry.example.com/api") (codes "intended-use-" ++ id)

  -- `newSession`.
  unfoldable pub with_session : Bytes → ℤ → ℕ → (Session V → Bool) → Bool
  with_session id ttl t rest = given (registered id) (λ reg. rest (fixture reg id ttl t))

  -- `&oid4vp.Session{}`; the zero time is taken for the epoch.
  unfoldable pub zero_session : Session V
  zero_session = record {
    id = [];
    flow = other [];
    client_id = [];
    nonce = [];
    state = [];
    response_uri = [];
    return_uri = [];
    query = V.zero_query;
    registration = V.zero_registration;
    wrprc = [];
    transaction_data = [];
    expected_origins = [];
    ephemeral_key_pkcs8 = [];
    created_at = 0;
    expires_at = 0;
    request_object_served = false;
    wallet_metadata = [];
    consumed = false;
    response_code = [];
    response_code_used = false;
  }

module _ {V : Platform} (c : Codec V) (st : SessionStore V) where
  -- `asJSON(t, a) == asJSON(t, b)`.
  unfoldable pub same_json : Session V → Session V → Bool
  same_json a b = given (c.encode a) λ x. given (c.encode b) λ y. bytes_eq x y

  unfoldable pub save_load_roundtrip : (ℕ → ℕ) → Bool
  save_load_roundtrip clock = with_session V (codes "s1") hour (clock 0) λ want.
      succeeds (st.save (some want) st.empty)
        λ u m. succeeds (st.load (clock 1) (codes "s1") m) λ got m'. same_json got want

  unfoldable pub load_returns_a_copy : (ℕ → ℕ) → Bool
  load_returns_a_copy clock = with_session V (codes "s1") hour (clock 0) λ s.
      succeeds (st.save (some s) st.empty) λ u m.
        succeeds (st.load (clock 1) (codes "s1") m) λ first m'.
          let m₁ = st.mutated (codes "s1") (record first { nonce = codes "TAMPERED" }) m' in
          succeeds (st.load (clock 2) (codes "s1") m₁)
            λ second m''. bytes_eq second.nonce (codes "nonce-s1")

  unfoldable pub load_unknown_is_not_found : (ℕ → ℕ) → Bool
  load_unknown_is_not_found clock =
      fails_with session_not_found (st.load (clock 0) (codes "ghost") st.empty) λ m. true

  unfoldable pub save_requires_id : Bool
  save_requires_id =
      fails_with session_invalid (st.save (some (zero_session V)) st.empty)
        λ m. fails_with session_invalid (st.save none m) λ m'. true

  unfoldable pub expired_session_is_not_found : (ℕ → ℕ) → Bool
  expired_session_is_not_found clock = with_session V (codes "old") minute_ago (clock 0) λ s.
      succeeds (st.save (some s) st.empty) λ u m.
        fails_with session_not_found (st.load (clock 1) (codes "old") m) λ m'.
          with_session V (codes "old2") minute_ago (clock 2) λ s'.
            succeeds (st.save (some s') m') λ u' m''.
              fails_with session_not_found (st.consume_once (clock 3) (codes "old2") m'')
                λ m'''. true

  unfoldable pub consume_once_consumes : (ℕ → ℕ) → Bool
  consume_once_consumes clock = with_session V (codes "c1") hour (clock 0) λ s.
      succeeds (st.save (some s) st.empty) λ u m.
        succeeds (st.consume_once (clock 1) (codes "c1") m) λ got m'.
          got.consumed
          && fails_with session_consumed (st.consume_once (clock 2) (codes "c1") m')
              λ m''. succeeds (st.load (clock 3) (codes "c1") m'') λ loaded m'''. loaded.consumed

  unfoldable pub consume_once_unknown_is_not_found : (ℕ → ℕ) → Bool
  consume_once_unknown_is_not_found clock =
      fails_with session_not_found (st.consume_once (clock 0) (codes "ghost") st.empty) λ m. true

  unfoldable pub consumed_marker_survives_save : (ℕ → ℕ) → Bool
  consumed_marker_survives_save clock = with_session V (codes "c2") hour (clock 0) λ s.
      succeeds (st.save (some s) st.empty) λ u m.
        succeeds (st.consume_once (clock 1) (codes "c2") m) λ got m'.
          succeeds (st.save (some (record got { response_code = codes "minted-after-consume" })) m')
            λ u' m''.
              fails_with session_consumed (st.consume_once (clock 2) (codes "c2") m'') λ m'''.
                succeeds (st.load (clock 3) (codes "c2") m''')
                  λ loaded m₄. bytes_eq loaded.response_code (codes "minted-after-consume")

  -- The goroutines' calls, in the order in which the store serves them.
  unfoldable pub tally : Bytes → List ℕ → st.Store → Tally
  tally id [] m = record { wins = 0; conflicts = 0; clean = true }
  tally id (t ∷ ts) m = let r = st.consume_once t id m in score r.0 (tally id ts r.1)

  unfoldable pub concurrent_consume_exactly_once : (ℕ → ℕ) → Bool
  concurrent_consume_exactly_once clock = with_session V (codes "race") hour (clock 0) λ s.
      succeeds (st.save (some s) st.empty) λ u m.
        let r = tally (codes "race") (readings goroutines (λ i. clock (suc i))) m in
        r.clean && r.wins == 1 && r.conflicts == goroutines - 1

  -- `Run`; the n-th subtest reads the n-th clock.
  unfoldable pub run_suite : (ℕ → ℕ → ℕ) → Bool
  run_suite clocks =
      save_load_roundtrip (clocks 0)
      && load_returns_a_copy (clocks 1)
      && load_unknown_is_not_found (clocks 2)
      && save_requires_id
      && expired_session_is_not_found (clocks 4)
      && consume_once_consumes (clocks 5)
      && consume_once_unknown_is_not_found (clocks 6)
      && consumed_marker_survives_save (clocks 7)
      && concurrent_consume_exactly_once (clocks 8)
