-- ===== src/StoreTest/Race.antt =====
-- The subtest in which 64 goroutines race for one session.
use go_oid4vp.Base.{
  ℕ, suc, ◌<◌, ◌≡◌, ◌∙◌, refl, ap, true, false, some, List, [], ◌∷◌, arith, All, length,
}
use go_oid4vp.Base.Bytes.{Bytes, codes}
use go_oid4vp.Platform.{Platform}
use go_oid4vp.Session.{Session}
use go_oid4vp.Store.{Codec, mark_consumed}
use go_oid4vp.Store.Interface.{SessionStore, Implements}
use go_oid4vp.Store.Spec.{Sessions, no_sessions, assign}
use go_oid4vp.Fault.{is}
use go_oid4vp.StoreTest.{
  hour, readings, fixture, with_session, tally, concurrent_consume_exactly_once,
}
use go_oid4vp.StoreTest.Calls.{given_some, succeeds_ok, length-readings, All-readings}
use go_oid4vp.Store.Client
use go_oid4vp.Store.Client.{assign_self}
use go_oid4vp.StoreTest.Fixtures.{IsTimely, Fixtures, in_time, made}

module _ {V : Platform} (c : Codec V) (st : SessionStore V) (i : Implements c.IsStorable st)
    (x : Fixtures c) where
  -- After the winner, all others meet the mark.
  losers :
      (id : Bytes) (s : Session V) (ts : List ℕ) (m : st.Store) (f : Sessions V)
      → f id ≡ some s
      → s.consumed ≡ true
      → All (λ t. t < s.expires_at) ts
      → i.Stands m f
      → tally c st id ts m ≡ record { wins = 0; conflicts = length ts; clean = true }
  unfolding tally is
  losers id s [] m f e u h r = refl
  losers id s (t ∷ ts) m f e u h r =
      let a = Client.consumes_spent st i t id s m f e u h.0 r in
      rw (a.0, losers id s ts _ f e u h.1 a.1) (ground arith)

  one_winner :
      (id : Bytes) (s : Session V) (t : ℕ) (ts : List ℕ) (m : st.Store) (f : Sessions V)
      → f id ≡ some s
      → s.consumed ≡ false
      → All (λ t. t < s.expires_at) (t ∷ ts)
      → i.Stands m f
      → tally c st id (t ∷ ts) m ≡ record { wins = 1; conflicts = length ts; clean = true }
  unfolding tally
  one_winner id s t ts m f e u h r =
      let a = Client.consumes_fresh st i t id s m f e u h.0 r in
      rw (
        a.0,
        losers id (mark_consumed s) ts _ (assign id (some (mark_consumed s)) f)
            (assign_self id (some (mark_consumed s)) f) refl h.1 a.1,
      )

  race_tally :
      (n : ℕ) (clock : ℕ → ℕ) (m : st.Store)
      → IsTimely clock
      → i.Stands m
          (assign (codes "race") (some (made c x (codes "race") hour (clock 0))) no_sessions)
      → tally c st (codes "race") (readings (suc n) (λ j. clock (suc j))) m
        ≡ record { wins = 1; conflicts = n; clean = true }
  unfolding readings fixture
  race_tally n clock m h r =
      let s = made c x (codes "race") hour (clock 0) in
      one_winner (codes "race") s (clock 1) (readings n (λ j. clock (suc (suc j)))) m
        (assign (codes "race") (some s) no_sessions) (assign_self _ _ _) refl
        (
          in_time clock 0 1 h,
          All-readings (λ t. t < s.expires_at) n _ (λ j. in_time clock 0 (suc (suc j)) h),
        )
        r
      ∙ ap (λ (k : ℕ). record { wins = 1; conflicts = k; clean = true })
          (length-readings n (λ j. clock (suc (suc j))))

  pub passes_concurrent_consume_exactly_once :
      (clock : ℕ → ℕ) → IsTimely clock → concurrent_consume_exactly_once c st clock ≡ true
  unfolding concurrent_consume_exactly_once with_session fixture no_sessions
  passes_concurrent_consume_exactly_once clock h =
      let s = made c x (codes "race") hour (clock 0) in
      let a =
        Client.saves st i s st.empty no_sessions refl
          (x.storable (codes "race") (clock 0) refl (h.dated _)).0 tt i.starts in
      given_some _ _ (x.registers (codes "race") refl)
        (succeeds_ok _ _ a.0 (rw (race_tally 63 clock _ h a.1)))
