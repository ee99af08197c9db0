-- ===== src/Transaction/Echo.antt =====
-- Which echoes of transaction_data_hashes are accepted.
use mathlib.Core.List.{Perm, Permᴰ}
use mathlib.Core.Logic.{∥∥₁_elim}
use native.Mathlib.Nat.{ℕ_set}
use mathlib.Core.List.Perm
use go_oid4vp.Base.{
  ℕ, suc, ◌+◌, ◌-◌, ◌≤◌, ◌≡◌, ◌≢◌, ◌↔◌, inl, inr, ◌∙◌, ap, refl, true, false, Option, some, none,
  List, [], ◌∷◌, arith, length, map, if◌then◌else◌, Bool-cases, ==_iff,
}
use go_oid4vp.Base.Bytes.{
  Bytes, bytes_eq, bytes_eq_iff, is_empty, is_empty-eq, is_empty-ne, is_empty_of_ne,
}
use go_oid4vp.Base.Table.{Table, lookup, insert, lookup-insert}
use go_oid4vp.Platform.{Platform}
use go_oid4vp.Session.{Session}
use go_oid4vp.Engine.{Engine}
use go_oid4vp.Fault.{ok}
use go_oid4vp.Transaction.{
  remaining_of, count_all, match_all, compare_hashes, hash_entry, transaction_data_hashes,
  validate_transaction_data_echo,
}
use go_oid4vp.Transaction.Counts.{count, perm_of_counts, count_perm}

remaining_of-insert :
    (w k : Bytes) (n : ℕ) (m : Table ℕ)
    → remaining_of (insert w n m) k ≡ (if bytes_eq w k then n else remaining_of m k)
unfolding remaining_of
remaining_of-insert w k n m = rw lookup-insert (ground arith)

remaining_of-count_all :
    (ws : List Bytes) (m : Table ℕ) (k : Bytes)
    → remaining_of (count_all ws m) k ≡ remaining_of m k + count k ws
unfolding count_all count
remaining_of-count_all [] m k = omega arith
remaining_of-count_all (w ∷ ws) m k = ground (
  arith,
  remaining_of-count_all ws (insert w (suc (remaining_of m w)) m) k,
  remaining_of-insert w k (suc (remaining_of m w)) m,
  bytes_eq_iff w k,
)

match_all-counts :
    (gs : List Bytes) (m : Table ℕ)
    → match_all gs m ≡ ok tt
    → (k : Bytes) → count k gs ≤ remaining_of m k
unfolding match_all count
match_all-counts [] m h k = omega arith
match_all-counts (g ∷ gs) m h k = ground (
  arith,
  match_all-counts gs (insert g (remaining_of m g - 1) m) (ground arith) k,
  remaining_of-insert g k (remaining_of m g - 1) m,
  bytes_eq_iff g k,
)

counts-match_all :
    (gs : List Bytes) (m : Table ℕ)
    → ((k : Bytes) → count k gs ≤ remaining_of m k)
    → match_all gs m ≡ ok tt
unfolding match_all count
counts-match_all [] m h = refl
counts-match_all (g ∷ gs) m h = ground (
  arith,
  h g,
  bytes_eq_iff g g,
  counts-match_all gs (insert g (remaining_of m g - 1) m) (λ k. rest k),
)
  where
    rest : (k : Bytes) → count k gs ≤ remaining_of (insert g (remaining_of m g - 1) m) k
    rest k = ground (arith, h k, remaining_of-insert g k (remaining_of m g - 1) m, bytes_eq_iff g k)

remaining_of_empty : (k : Bytes) → remaining_of [] k ≡ 0
unfolding remaining_of lookup
remaining_of_empty k = refl

length_perm : {xs ys : List Bytes} → Perm xs ys → length xs ≡ length ys
length_perm p = ∥∥₁_elim p (ℕ_set _ _) length_permᴰ
  where
    length_permᴰ : {xs ys : List Bytes} → Permᴰ xs ys → length xs ≡ length ys
    length_permᴰ Permᴰ.nil = refl
    length_permᴰ (Permᴰ.cons e p) = ap suc (length_permᴰ p)
    length_permᴰ (Permᴰ.swap e e') = refl
    length_permᴰ (Permᴰ.trans p q) = length_permᴰ p ∙ length_permᴰ q

compare_hashes-perm :
    (want echoed : List Bytes) → compare_hashes want echoed ≡ ok tt → Perm want echoed
unfolding compare_hashes
compare_hashes-perm want echoed h =
    perm_of_counts echoed want
      (λ k. omega (
        arith,
        match_all-counts echoed (count_all want []) (ground arith) k,
        remaining_of-count_all want [] k,
        remaining_of_empty k,
      ))
      (ground arith)

perm-compare_hashes :
    (want echoed : List Bytes) → Perm want echoed → compare_hashes want echoed ≡ ok tt
unfolding compare_hashes
perm-compare_hashes want echoed p = rw ((==_iff (length want) (length echoed)).1 (length_perm p)) (
    counts-match_all echoed (count_all want [])
      (λ k. omega (arith, remaining_of-count_all want [] k, remaining_of_empty k, count_perm k p)))

perm_map-ne :
    (f : Bytes → Bytes) (td echoed : List Bytes)
    → Perm (map f td) echoed
    → td ≢ []
    → is_empty echoed ≡ false
perm_map-ne f [] echoed p h = absurd (h refl)
perm_map-ne f (x ∷ td) [] p h = absurd (is_empty-ne (map f (x ∷ td)) refl (Perm.eq-nil p))
perm_map-ne f (x ∷ td) (y ∷ echoed) p h = refl

module _ {V : Platform} where
  -- What the wallet confirmed: nothing where nothing was asked, and otherwise exactly the hashes of
  -- the entries, in any order, under an available hash of the policy.
  pub data Confirms (e : Engine V) (s : Session V) (echoed : List Bytes) (alg : Bytes)
      : Type 0 where
    nothing : s.transaction_data ≡ [] → echoed ≡ [] → Confirms e s echoed alg
    entries :
        (h : V.Hash)
        → s.transaction_data ≢ []
        → e.enable_transaction_data ≡ true
        → V.hash_for_alg e.policy alg ≡ some h
        → V.is_available h ≡ true
        → Perm (map (hash_entry V h) s.transaction_data) echoed
        → Confirms e s echoed alg

  hashes-Confirms :
      (e : Engine V) (s : Session V) (echoed : List Bytes) (alg : Bytes) (o : Option V.Hash)
      → V.hash_for_alg e.policy alg ≡ o
      → is_empty s.transaction_data ≡ false
      → validate_transaction_data_echo e (some s) echoed alg ≡ ok tt
      → Confirms e s echoed alg
  unfolding validate_transaction_data_echo transaction_data_hashes
  hashes-Confirms e s echoed alg none q t h = absurd (ground arith)
  hashes-Confirms e s echoed alg (some hash) q t h =
      entries hash (is_empty-ne s.transaction_data t) (ground arith) q (ground arith)
        (compare_hashes-perm (map (hash_entry V hash) s.transaction_data) echoed (ground arith))

  validate-Confirms :
      (e : Engine V) (s : Session V) (echoed : List Bytes) (alg : Bytes)
      → validate_transaction_data_echo e (some s) echoed alg ≡ ok tt
      → Confirms e s echoed alg
  unfolding validate_transaction_data_echo
  validate-Confirms e s echoed alg h = elim (Bool-cases (is_empty s.transaction_data)) [
    | inl t ↦ nothing (is_empty-eq s.transaction_data t) (is_empty-eq echoed (ground arith))
    | inr t ↦ hashes-Confirms e s echoed alg (V.hash_for_alg e.policy alg) refl t h
  ]

  Confirms-validate :
      (e : Engine V) (s : Session V) (echoed : List Bytes) (alg : Bytes)
      → Confirms e s echoed alg
      → validate_transaction_data_echo e (some s) echoed alg ≡ ok tt
  unfolding validate_transaction_data_echo transaction_data_hashes
  Confirms-validate e s echoed alg (nothing t x) = rw (t, x)
  Confirms-validate e s echoed alg (entries hash t on q a p) =
      let want = map (hash_entry V hash) s.transaction_data in
      rw (
        is_empty_of_ne s.transaction_data t,
        on,
        q,
        a,
        perm-compare_hashes want echoed p,
        perm_map-ne (hash_entry V hash) s.transaction_data echoed p t,
      )

  -- For a session, the echo is accepted exactly if it confirms: nothing is echoed where the request
  -- had no entries, and otherwise the flag is on, the algorithm has an available hash, and the echoed
  -- hashes are those of the entries, each as often, in any order.
  pub validate_transaction_data_echo_iff :
      (e : Engine V) (s : Session V) (echoed : List Bytes) (alg : Bytes)
      → (validate_transaction_data_echo e (some s) echoed alg ≡ ok tt) ↔ Confirms e s echoed alg
  validate_transaction_data_echo_iff e s echoed alg =
      (validate-Confirms e s echoed alg, Confirms-validate e s echoed alg)
