-- ===== src/StoreTest/Passes.antt =====
-- Which stores pass the suite.
use go_oid4vp.Base.{ℕ, ◌≡◌, true}
use go_oid4vp.Platform.{Platform}
use go_oid4vp.Store.{Codec}
use go_oid4vp.Store.Interface.{SessionStore, Implements}
use go_oid4vp.StoreTest.{run_suite}
use go_oid4vp.StoreTest.Fixtures.{IsTimely, Fixtures}
use go_oid4vp.StoreTest.Subtests.{
  passes_save_load_roundtrip, passes_load_returns_a_copy, passes_load_unknown_is_not_found,
  passes_save_requires_id, passes_expired_session_is_not_found, passes_consume_once_consumes,
  passes_consume_once_unknown_is_not_found, passes_consumed_marker_survives_save,
}
use go_oid4vp.StoreTest.Race.{passes_concurrent_consume_exactly_once}

module _ {V : Platform} (c : Codec V) (st : SessionStore V) (i : Implements c.IsStorable st)
    (x : Fixtures c) where
  -- A store that implements the interface for the sessions that its encoding keeps, and that no
  -- assignment to a session which it has handed out reaches, passes the whole suite, when the
  -- registrations for ASCII ids can be made and the suite's sessions with such ids and codes are
  -- among those kept, on clocks between the epoch and the year 10000 that do not go backwards
  -- and give no reading more than an hour less a second after another.
  pub run_suite_passes :
      (clocks : ℕ → ℕ → ℕ) → ((n : ℕ) → IsTimely (clocks n)) → run_suite c st clocks ≡ true
  unfolding run_suite
  run_suite_passes clocks h = rw (
    passes_save_load_roundtrip c st i x (clocks 0) (h 0),
    passes_load_returns_a_copy c st i x (clocks 1) (h 1),
    passes_load_unknown_is_not_found c st i x (clocks 2),
    passes_save_requires_id c st i x,
    passes_expired_session_is_not_found c st i x (clocks 4) (h 4),
    passes_consume_once_consumes c st i x (clocks 5) (h 5),
    passes_consume_once_unknown_is_not_found c st i x (clocks 6),
    passes_consumed_marker_survives_save c st i x (clocks 7) (h 7),
    passes_concurrent_consume_exactly_once c st i x (clocks 8) (h 8),
  )
