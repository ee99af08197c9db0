-- ===== src/Response/VpToken/Order.antt =====
-- Sorting, permutations and predicates on all elements.
use mathlib.Core.List.{Perm, Permᴰ}
use mathlib.Core.Logic.{∥∥₁_elim}
use mathlib.Core.HLevel.{hedberg}
use native.Mathlib.Decide.{ℕ_discrete}
use go_oid4vp.Base.{◌≡◌, ◌∙◌, refl, true, false, inl, inr, List, [], ◌∷◌, arith, All, Bool-cases}
use go_oid4vp.Base.Bytes.{Bytes}
use go_oid4vp.Response.VpToken.Sort.{bytes_leb, sorted_insert, sort}

bytes_leb_total : (a b : Bytes) → bytes_leb a b ≡ false → bytes_leb b a ≡ true
unfolding bytes_leb
bytes_leb_total [] b h = cc
bytes_leb_total (x ∷ xs) [] h = refl
bytes_leb_total (x ∷ xs) (y ∷ ys) h = ground (arith, bytes_leb_total xs ys)

bytes_leb_antisymm : (a b : Bytes) → bytes_leb a b ≡ true → bytes_leb b a ≡ true → a ≡ b
unfolding bytes_leb
bytes_leb_antisymm [] [] h k = refl
bytes_leb_antisymm [] (y ∷ ys) h k = cc
bytes_leb_antisymm (x ∷ xs) [] h k = cc
bytes_leb_antisymm (x ∷ xs) (y ∷ ys) h k = ground (arith, bytes_leb_antisymm xs ys)

bytes_leb_trans :
    (a b c : Bytes) → bytes_leb a b ≡ true → bytes_leb b c ≡ true → bytes_leb a c ≡ true
unfolding bytes_leb
bytes_leb_trans [] b c h k = refl
bytes_leb_trans (x ∷ xs) [] c h k = cc
bytes_leb_trans (x ∷ xs) (y ∷ ys) [] h k = cc
bytes_leb_trans (x ∷ xs) (y ∷ ys) (z ∷ zs) h k = ground (arith, bytes_leb_trans xs ys zs)

sorted_insert_comm :
    (x y : Bytes) (l : List Bytes)
    → sorted_insert x (sorted_insert y l) ≡ sorted_insert y (sorted_insert x l)
unfolding sorted_insert
sorted_insert_comm x y [] =
    ground (arith, bytes_leb_total x y, bytes_leb_total y x, bytes_leb_antisymm x y)
sorted_insert_comm x y (z ∷ l) = ground (
  arith,
  bytes_leb_total x y,
  bytes_leb_antisymm x y,
  bytes_leb_trans x y z,
  bytes_leb_trans y x z,
  sorted_insert_comm x y l,
)

sort_permᴰ : {xs ys : List Bytes} → Permᴰ xs ys → sort xs ≡ sort ys
unfolding sort
sort_permᴰ Permᴰ.nil = refl
sort_permᴰ (Permᴰ.cons e p) = rw (e, sort_permᴰ p)
sort_permᴰ (Permᴰ.swap {a = a} {b = b} {l = l} e e') =
    rw (← e, ← e') (sorted_insert_comm a b (sort l))
sort_permᴰ (Permᴰ.trans p q) = sort_permᴰ p ∙ sort_permᴰ q

texts_discrete : Discrete (List Bytes)
texts_discrete = hlevel ℕ_discrete

pub sort_perm : {xs ys : List Bytes} → Perm xs ys → sort xs ≡ sort ys
sort_perm p = ∥∥₁_elim p (hedberg texts_discrete _ _) sort_permᴰ

module _ {κ} (P : Bytes → Type κ) where
  All-sorted_insert : (x : Bytes) (l : List Bytes) → All P (sorted_insert x l) → P x × All P l
  unfolding sorted_insert
  All-sorted_insert x [] h = h
  All-sorted_insert x (y ∷ l) h = elim (Bool-cases (bytes_leb x y)) [
    | inl le ↦ let h' : All P (x ∷ y ∷ l) = rw (le, sorted_insert) at h in (h'.0, h'.1)
    | inr gt ↦
        let h' : All P (y ∷ sorted_insert x l) = rw (gt, sorted_insert) at h in
        let r = All-sorted_insert x l h'.1 in (r.0, (h'.0, r.1))
  ]

  -- What holds of every element of the sorted list holds of every element.
  pub All-sort : (l : List Bytes) → All P (sort l) → All P l
  unfolding sort
  All-sort [] h = tt
  All-sort (x ∷ l) h = let r = All-sorted_insert x (sort l) h in (r.0, All-sort l r.1)
