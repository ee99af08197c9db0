-- ===== src/Examples/StoreRuns.antt =====
-- Runs of the store.
use go_oid4vp.Base.{◌≡◌, ◌≤◌, refl, List, arith, [], ◌∷◌, some}
use go_oid4vp.Base.Bytes.{codes}
use go_oid4vp.Session.{same_device}
use go_oid4vp.Fault.{ok}
use go_oid4vp.Store.{run, after, new_mem_store, mark_consumed}
use go_oid4vp.Store.Spec.{
  saves, loads, consumes, saved, consumed, spec_run, no_sessions, Call, marked-IsKept,
}
use go_oid4vp.Store.Refines.{run-refines}
use go_oid4vp.Store.Once.{
  wins, consumers, too_late, consume_once-at_most_one, consume_once_race, stale_save_revives,
}
use go_oid4vp.Examples.Toy.{toy, toy_session}
use go_oid4vp.Examples.Stored.{toy_codec}

-- A session is saved, consumed, saved once more with its mark, and asked for again.
abbrev calls : List (Call toy)
calls =
    saves (some (toy_session same_device))
    ∷ consumes 150 (codes "s1")
    ∷ saves (some (mark_consumed (toy_session same_device)))
    ∷ consumes 160 (codes "s1")
    ∷ loads 250 (codes "s1")
    ∷ []

run-refines_example : run toy_codec calls new_mem_store ≡ spec_run calls no_sessions
unfolding no_sessions
run-refines_example =
    run-refines toy_codec calls (refl, (tt, (refl, (tt, (tt, tt)))))
      (tt, (marked-IsKept _ (mark_consumed (toy_session same_device)) refl, tt))

consume_once-at_most_one_example :
    wins (codes "s1") (consumes 150 (codes "s1") ∷ consumes 151 (codes "s1") ∷ []) (
      run toy_codec
        (consumes 150 (codes "s1") ∷ consumes 151 (codes "s1") ∷ [])
        (after toy_codec (saves (some (toy_session same_device)) ∷ []) new_mem_store))
    ≤ 1
consume_once-at_most_one_example =
    consume_once-at_most_one toy_codec (saves (some (toy_session same_device)) ∷ []) (codes "s1")
      (consumes 150 (codes "s1") ∷ consumes 151 (codes "s1") ∷ []) (refl, tt) (tt, (tt, tt))
      (tt, (tt, tt))

consume_once_race_example :
    run toy_codec
      (saves (some (toy_session same_device)) ∷ consumers (codes "s1") (150 ∷ 150 ∷ 160 ∷ []))
      (after toy_codec [] new_mem_store)
    ≡ saved (ok tt)
      ∷ consumed (ok (mark_consumed (toy_session same_device)))
      ∷ too_late (150 ∷ 160 ∷ [])
consume_once_race_example =
    consume_once_race toy_codec [] (toy_session same_device) 150 (150 ∷ 160 ∷ []) tt refl refl refl
      (omega arith, (omega arith, (omega arith, tt)))

stale_save_revives_example :
    run toy_codec
      (saves (some (toy_session same_device))
        ∷ consumes 150 (codes "s1")
        ∷ saves (some (toy_session same_device))
        ∷ consumes 160 (codes "s1")
        ∷ [])
      (after toy_codec [] new_mem_store)
    ≡ saved (ok tt)
      ∷ consumed (ok (mark_consumed (toy_session same_device)))
      ∷ saved (ok tt)
      ∷ consumed (ok (mark_consumed (toy_session same_device)))
      ∷ []
stale_save_revives_example =
    stale_save_revives toy_codec [] (toy_session same_device) 150 160 tt refl refl refl
      (omega arith) (omega arith)
