-- ===== src/StoreTest/Subtests.antt =====
-- The subtests that run in one goroutine.
use go_oid4vp.Base.{ℕ, ◌≡◌, refl, true, Option, none, some, arith}
use go_oid4vp.Base.Bytes.{codes, bytes_eq, bytes_eq_refl}
use go_oid4vp.Platform.{Platform}
use go_oid4vp.Session.{Session}
use go_oid4vp.Store.{Codec, mark_consumed}
use go_oid4vp.Store.Interface.{SessionStore, Implements}
use go_oid4vp.Store.Spec.{no_sessions, assign, spec_save, absent-IsKept, marked-IsKept}
use go_oid4vp.StoreTest.{
  hour, minute_ago, fixture, with_session, zero_session, same_json, save_load_roundtrip,
  load_returns_a_copy, load_unknown_is_not_found, save_requires_id, expired_session_is_not_found,
  consume_once_consumes, consume_once_unknown_is_not_found, consumed_marker_survives_save,
}
use go_oid4vp.StoreTest.Calls.{given_some, succeeds_ok, fails_with_err}
use go_oid4vp.Store.Client
use go_oid4vp.Store.Client.{assign_self}
use go_oid4vp.StoreTest.Fixtures.{IsTimely, Fixtures, in_time, too_late, made}

module _ {V : Platform} (c : Codec V) (st : SessionStore V) (i : Implements c.IsStorable st)
    (x : Fixtures c) where
  same_json_refl : (s : Session V) → c.IsStorable s → same_json c st s s ≡ true
  unfolding same_json
  same_json_refl s h = rw (c.encode_storable s h) (bytes_eq_refl (c.encoding s h))

  pub passes_save_load_roundtrip :
      (clock : ℕ → ℕ) → IsTimely clock → save_load_roundtrip c st clock ≡ true
  unfolding save_load_roundtrip with_session fixture no_sessions
  passes_save_load_roundtrip clock h =
      let want = made c x (codes "s1") hour (clock 0) in
      let f = assign (codes "s1") (some want) no_sessions in
      let a =
        Client.saves st i want st.empty no_sessions refl
          (x.storable (codes "s1") (clock 0) refl (h.dated _)).0 tt i.starts in
      let b =
        Client.finds st i (clock 1) (codes "s1") want _ f (assign_self _ _ _) (in_time clock 0 1 h)
          a.1 in
      given_some _ _ (x.registers (codes "s1") refl) (
        succeeds_ok _ _ a.0 (
          succeeds_ok _ _ b.0
            (same_json_refl want (x.storable (codes "s1") (clock 0) refl (h.dated _)).0)))

  pub passes_load_returns_a_copy :
      (clock : ℕ → ℕ) → IsTimely clock → load_returns_a_copy c st clock ≡ true
  unfolding load_returns_a_copy with_session fixture no_sessions
  passes_load_returns_a_copy clock h =
      let s = made c x (codes "s1") hour (clock 0) in
      let f = assign (codes "s1") (some s) no_sessions in
      let a =
        Client.saves st i s st.empty no_sessions refl
          (x.storable (codes "s1") (clock 0) refl (h.dated _)).0 tt i.starts in
      let b =
        Client.finds st i (clock 1) (codes "s1") s _ f (assign_self _ _ _) (in_time clock 0 1 h)
          a.1 in
      let d =
        Client.finds st i (clock 2) (codes "s1") s _ f (assign_self _ _ _) (in_time clock 0 2 h)
          (i.isolates _ _ _ f b.1) in
      given_some _ _ (x.registers (codes "s1") refl) (
        succeeds_ok _ _ a.0
          (succeeds_ok _ _ b.0 (succeeds_ok _ _ d.0 (bytes_eq_refl (codes "nonce-s1")))))

  pub passes_load_unknown_is_not_found :
      (clock : ℕ → ℕ) → load_unknown_is_not_found c st clock ≡ true
  unfolding load_unknown_is_not_found no_sessions
  passes_load_unknown_is_not_found clock =
      fails_with_err _ _ _
        (Client.misses st i (clock 0) (codes "ghost") st.empty no_sessions refl i.starts).0 refl

  pub passes_save_requires_id : save_requires_id c st ≡ true
  unfolding save_requires_id zero_session spec_save
  passes_save_requires_id =
      let a = i.saves_nameless (zero_session V) st.empty no_sessions refl i.starts in
      let b = i.saves_nil _ no_sessions a.1 in
      fails_with_err _ _ _ a.0 (fails_with_err _ _ _ b.0 refl)

  -- The second id is not in the store that has dropped the first.
  vacant :
      (o : Option (Session V))
      → assign (codes "old") none (assign (codes "old") o no_sessions) (codes "old2") ≡ none
  unfolding no_sessions assign bytes_eq
  vacant o = refl

  pub passes_expired_session_is_not_found :
      (clock : ℕ → ℕ) → IsTimely clock → expired_session_is_not_found c st clock ≡ true
  unfolding expired_session_is_not_found with_session fixture no_sessions
  passes_expired_session_is_not_found clock h =
      let s = made c x (codes "old") minute_ago (clock 0) in
      let s' = made c x (codes "old2") minute_ago (clock 2) in
      let f = assign (codes "old") (some s) no_sessions in
      let f' = assign (codes "old") none f in
      let f'' = assign (codes "old2") (some s') f' in
      let a =
        Client.saves st i s st.empty no_sessions refl
          (x.storable (codes "old") (clock 0) refl (h.dated _)).1 tt i.starts in
      let b =
        Client.load_expired st i (clock 1) (codes "old") s _ f (assign_self _ _ _)
          (too_late clock 0 1 h (omega arith)) a.1 in
      let d =
        Client.saves st i s' _ f' refl (x.storable (codes "old2") (clock 2) refl (h.dated _)).1
          (absent-IsKept (f' (codes "old2")) s' (vacant (some s))) b.1 in
      let e =
        Client.consume_expired st i (clock 3) (codes "old2") s' _ f'' (assign_self _ _ _)
          (too_late clock 2 3 h (omega arith)) d.1 in
      given_some _ _ (x.registers (codes "old") refl) (
        succeeds_ok _ _ a.0 (
          fails_with_err _ _ _ b.0 (
            given_some _ _ (x.registers (codes "old2") refl)
              (succeeds_ok _ _ d.0 (fails_with_err _ _ _ e refl)))))

  pub passes_consume_once_consumes :
      (clock : ℕ → ℕ) → IsTimely clock → consume_once_consumes c st clock ≡ true
  unfolding consume_once_consumes with_session fixture no_sessions
  passes_consume_once_consumes clock h =
      let s = made c x (codes "c1") hour (clock 0) in
      let f = assign (codes "c1") (some s) no_sessions in
      let f' = assign (codes "c1") (some (mark_consumed s)) f in
      let a =
        Client.saves st i s st.empty no_sessions refl
          (x.storable (codes "c1") (clock 0) refl (h.dated _)).0 tt i.starts in
      let b =
        Client.consumes_fresh st i (clock 1) (codes "c1") s _ f (assign_self _ _ _) refl
          (in_time clock 0 1 h) a.1 in
      let d =
        Client.consumes_spent st i (clock 2) (codes "c1") (mark_consumed s) _ f' (assign_self _ _ _)
          refl (in_time clock 0 2 h) b.1 in
      let e =
        Client.finds st i (clock 3) (codes "c1") (mark_consumed s) _ f' (assign_self _ _ _)
          (in_time clock 0 3 h) d.1 in
      given_some _ _ (x.registers (codes "c1") refl) (
        succeeds_ok _ _ a.0
          (succeeds_ok _ _ b.0 (fails_with_err _ _ _ d.0 (succeeds_ok _ _ e.0 refl))))

  pub passes_consume_once_unknown_is_not_found :
      (clock : ℕ → ℕ) → consume_once_unknown_is_not_found c st clock ≡ true
  unfolding consume_once_unknown_is_not_found no_sessions
  passes_consume_once_unknown_is_not_found clock =
      fails_with_err _ _ _
        (Client.consume_misses st i (clock 0) (codes "ghost") st.empty no_sessions refl i.starts)
        refl

  pub passes_consumed_marker_survives_save :
      (clock : ℕ → ℕ) → IsTimely clock → consumed_marker_survives_save c st clock ≡ true
  unfolding consumed_marker_survives_save with_session fixture no_sessions
  passes_consumed_marker_survives_save clock h =
      let s = made c x (codes "c2") hour (clock 0) in
      let s' = record (mark_consumed s) { response_code = codes "minted-after-consume" } in
      let f = assign (codes "c2") (some s) no_sessions in
      let f' = assign (codes "c2") (some (mark_consumed s)) f in
      let f'' = assign (codes "c2") (some s') f' in
      let a =
        Client.saves st i s st.empty no_sessions refl
          (x.storable (codes "c2") (clock 0) refl (h.dated _)).0 tt i.starts in
      let b =
        Client.consumes_fresh st i (clock 1) (codes "c2") s _ f (assign_self _ _ _) refl
          (in_time clock 0 1 h) a.1 in
      let d =
        Client.saves st i s' _ f' refl
          (x.storable_with_code (codes "c2") (clock 0) (codes "minted-after-consume") refl refl
            (h.dated 0))
          (marked-IsKept _ _ refl) b.1 in
      let e =
        Client.consumes_spent st i (clock 2) (codes "c2") s' _ f'' (assign_self _ _ _) refl
          (in_time clock 0 2 h) d.1 in
      let g =
        Client.finds st i (clock 3) (codes "c2") s' _ f'' (assign_self _ _ _) (in_time clock 0 3 h)
          e.1 in
      given_some _ _ (x.registers (codes "c2") refl) (
        succeeds_ok _ _ a.0 (
          succeeds_ok _ _ b.0 (
            succeeds_ok _ _ d.0 (
              fails_with_err _ _ _ e.0
                (succeeds_ok _ _ g.0 (bytes_eq_refl (codes "minted-after-consume")))))))
