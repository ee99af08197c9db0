-- ===== src/Transaction/Counts.antt =====
-- How often a text stands in a list, and lists that hold the same texts as often.
use mathlib.Core.List.{Perm, Permᴰ}
use mathlib.Core.List.Perm
use mathlib.Core.Logic.{∥∥₁_elim}
use native.Mathlib.Nat.{ℕ_set}
use go_oid4vp.Base.{
  ℕ, suc, ◌+◌, ◌-◌, ◌≤◌, ◌<◌, ◌≡◌, ◌∙◌, refl, inl, inr, List, [], ◌∷◌, arith, length, if◌then◌else◌,
  Bool-cases,
}
use go_oid4vp.Base.Bytes.{Bytes, bytes_eq, bytes_eq-eq, bytes_eq_iff, bytes_eq_refl}

unfoldable pub count : Bytes → List Bytes → ℕ
count k [] = 0
count k (x ∷ xs) = if bytes_eq x k then suc (count k xs) else count k xs

-- The list without the first occurrence of a text.
erase : Bytes → List Bytes → List Bytes
erase k [] = []
erase k (x ∷ xs) = if bytes_eq x k then xs else x ∷ erase k xs

pub count-cons_self : (k : Bytes) (xs : List Bytes) → count k (k ∷ xs) ≡ suc (count k xs)
unfolding count
count-cons_self k xs = rw (bytes_eq_refl k)

perm-erase : (k : Bytes) (xs : List Bytes) → 0 < count k xs → Perm xs (k ∷ erase k xs)
unfolding count erase
perm-erase k [] h = absurd (omega arith)
perm-erase k (x ∷ xs) h = elim (Bool-cases (bytes_eq x k)) [
  | inl hit ↦ rw hit (Perm.cons' (bytes_eq-eq x k hit) (Perm.refl xs))
  | inr miss ↦
      rw miss
        (Perm.trans (Perm.cons x (perm-erase k xs (ground arith))) (Perm.swap k x (erase k xs)))
]

count-erase :
    (k j : Bytes) (xs : List Bytes)
    → count j (erase k xs) ≡ (if bytes_eq k j then count j xs - 1 else count j xs)
unfolding count erase
count-erase k j [] = ground arith
count-erase k j (x ∷ xs) =
    ground (arith, count-erase k j xs, bytes_eq_iff x k, bytes_eq_iff x j, bytes_eq_iff k j)

length-erase : (k : Bytes) (xs : List Bytes) → 0 < count k xs → length (erase k xs) + 1 ≡ length xs
unfolding count erase
length-erase k [] h = absurd (omega arith)
length-erase k (x ∷ xs) h = ground (arith, length-erase k xs)

count-le-erase :
    (k g : Bytes) (gs ws : List Bytes)
    → count k (g ∷ gs) ≤ count k ws
    → count k gs ≤ count k (erase g ws)
unfolding count
count-le-erase k g gs ws h = ground (arith, count-erase g k ws)

-- A list of the same length that holds each text at least as often holds the same texts.
pub perm_of_counts :
    (gs ws : List Bytes)
    → ((k : Bytes) → count k gs ≤ count k ws)
    → length ws ≡ length gs
    → Perm ws gs
perm_of_counts [] [] h e = Perm.nil
perm_of_counts [] (w ∷ ws) h e = absurd (omega arith)
perm_of_counts (g ∷ gs) ws h e =
    let held : 0 < count g ws = omega (arith, h g, count-cons_self g gs) in
    Perm.trans (perm-erase g ws held) (
      Perm.cons g (
        perm_of_counts gs (erase g ws) (λ k. count-le-erase k g gs ws (h k))
          (omega (arith, length-erase g ws held))))

count_permᴰ : (k : Bytes) {xs ys : List Bytes} → Permᴰ xs ys → count k xs ≡ count k ys
unfolding count
count_permᴰ k Permᴰ.nil = refl
count_permᴰ k (Permᴰ.cons e p) = rw (e, count_permᴰ k p)
count_permᴰ k (Permᴰ.swap e e') = rw (e, e') (ground arith)
count_permᴰ k (Permᴰ.trans p q) = count_permᴰ k p ∙ count_permᴰ k q

pub count_perm : (k : Bytes) {xs ys : List Bytes} → Perm xs ys → count k xs ≡ count k ys
count_perm k p = ∥∥₁_elim p (ℕ_set _ _) (count_permᴰ k)
