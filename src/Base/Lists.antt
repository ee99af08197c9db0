-- ===== src/Base/Lists.antt =====
-- Lists measured by native numbers, and predicates that hold of every element.
use Prim.Native.Nat.{ℕ, zero, suc, ◌+◌}
use mathlib.Core.Path.{◌≡◌, refl, ap}
use mathlib.Core.List.{List, [], ◌∷◌, ◌++◌, map}
use native.Mathlib.Omega.{arith}

module _ {ℓ} {A : Type ℓ} where
  abbrev pub length : List A → ℕ
  length [] = 0
  length (x ∷ xs) = suc (length xs)

  abbrev pub take : ℕ → List A → List A
  take zero xs = []
  take (suc n) [] = []
  take (suc n) (x ∷ xs) = x ∷ take n xs

  abbrev pub drop : ℕ → List A → List A
  drop zero xs = xs
  drop (suc n) [] = []
  drop (suc n) (x ∷ xs) = drop n xs

  abbrev pub All {κ} : (A → Type κ) → List A → Type κ
  All P [] = Unit
  All P (x ∷ xs) = P x × All P xs

module _ {ℓ} {A : Type ℓ} where
  pub length-append : (xs ys : List A) → length (xs ++ ys) ≡ length xs + length ys
  length-append [] ys = omega arith
  length-append (x ∷ xs) ys = omega (arith, length-append xs ys)

  pub length-map {κ} : {B : Type κ} (f : A → B) (xs : List A) → length (map f xs) ≡ length xs
  length-map f [] = refl
  length-map f (x ∷ xs) = ap suc (length-map f xs)

  -- What holds throughout two lists holds throughout their concatenation.
  pub All-append {κ} :
      (P : A → Type κ) (front back : List A) → All P front → All P back → All P (front ++ back)
  All-append P [] back _ h = h
  All-append P (f ∷ front) back (first, others) h = (first, All-append P front back others h)

  pub take-drop : (n : ℕ) (xs : List A) → take n xs ++ drop n xs ≡ xs
  take-drop zero xs = refl
  take-drop (suc n) [] = refl
  take-drop (suc n) (x ∷ xs) = ap (◌∷◌ x) (take-drop n xs)

  pub All-take {κ} : (P : A → Type κ) (n : ℕ) (xs : List A) → All P xs → All P (take n xs)
  All-take P zero xs h = tt
  All-take P (suc n) [] h = tt
  All-take P (suc n) (x ∷ xs) h = (h.0, All-take P n xs h.1)

  pub All-drop {κ} : (P : A → Type κ) (n : ℕ) (xs : List A) → All P xs → All P (drop n xs)
  All-drop P zero xs h = h
  All-drop P (suc n) [] h = tt
  All-drop P (suc n) (x ∷ xs) h = All-drop P n xs h.1

  pub length-take : (n k : ℕ) (xs : List A) → length xs ≡ n + k → length (take n xs) ≡ n
  length-take zero k xs h = refl
  length-take (suc n) k [] h = absurd (omega (arith, h))
  length-take (suc n) k (x ∷ xs) h = omega (arith, length-take n k xs (omega (arith, h)))

  pub length-drop : (n k : ℕ) (xs : List A) → length xs ≡ n + k → length (drop n xs) ≡ k
  length-drop zero k xs h = omega (arith, h)
  length-drop (suc n) k [] h = absurd (omega (arith, h))
  length-drop (suc n) k (x ∷ xs) h = length-drop n k xs (omega (arith, h))

-- One list stands to the other element by element, and they have the same length.
abbrev pub Pairwise {ℓ κ} : {A : Type ℓ} {B : Type κ} → (A → B → Type 0) → List A → List B → Type 0
Pairwise R [] [] = Unit
Pairwise R [] (b ∷ bs) = ⊥
Pairwise R (a ∷ as') [] = ⊥
Pairwise R (a ∷ as') (b ∷ bs) = R a b × Pairwise R as' bs

module _ {ℓ κ} {A : Type ℓ} {B : Type κ} (R : A → B → Type 0) where
  pub Pairwise-append :
      (xs ys : List A) (ps qs : List B)
      → Pairwise R xs ps
      → Pairwise R ys qs
      → Pairwise R (xs ++ ys) (ps ++ qs)
  Pairwise-append [] ys [] qs h k = k
  Pairwise-append [] ys (p ∷ ps) qs h k = absurd h
  Pairwise-append (x ∷ xs) ys [] qs h k = absurd h
  Pairwise-append (x ∷ xs) ys (p ∷ ps) qs h k = (h.0, Pairwise-append xs ys ps qs h.1 k)

  pub Pairwise-split :
      (xs ys : List A) (rs : List B)
      → Pairwise R (xs ++ ys) rs
      → (ps : List B) × (qs : List B) × (rs ≡ ps ++ qs) × Pairwise R xs ps × Pairwise R ys qs
  Pairwise-split [] ys rs h = ([], rs, refl, tt, h)
  Pairwise-split (x ∷ xs) ys [] h = absurd h
  Pairwise-split (x ∷ xs) ys (r ∷ rs) h =
      let (ps, qs, e, a, b) = Pairwise-split xs ys rs h.1 in (r ∷ ps, qs, ap (◌∷◌ r) e, (h.0, a), b)
