-- ===== src/Base/Bytes.antt =====
-- Go's `string` and `[]byte`, both as lists of byte values: comparison, concatenation, literals,
-- and the functions of `strings`, `slices` and `crypto/subtle` that the package calls on them.
use Prim.Native.Nat.{ℕ}
use Prim.Native.Char.{code}
use Prim.Native.String.{String}
use mathlib.Core.Path.{◌≡◌, refl}
use mathlib.Core.Logic.{◌↔◌, ◌≢◌}
use mathlib.Core.Bool.{Bool, true, false, ◌&&◌, ◌||◌}
use mathlib.Core.List.{List, [], ◌∷◌}
use mathlib.Core.List.{Mem, mem-cons, not-mem-nil}
use mathlib.Core.Logic.{inl, inr}
use mathlib.Core.Logic.Or
use mathlib.Core.HLevel.{hedberg}
use mathlib.Core.Path.{sym}
use native.Mathlib.Omega.{arith}
use package.go_oid4vp.Base.Tests.{◌==◌, if◌then◌else◌, Bool-cases}

abbrev pub Bytes : Type 0
Bytes = List ℕ

-- A Go literal: its bytes, as all literals of the package that are modelled here are ASCII.
abbrev pub codes : String → Bytes
codes String.[] = []
codes (String.◌∷◌ c s) = code c ∷ codes s

-- `a == b`, `bytes.Equal`, and `subtle.ConstantTimeCompare(a, b) == 1`.
unfoldable pub bytes_eq : Bytes → Bytes → Bool
bytes_eq [] [] = true
bytes_eq [] (y ∷ ys) = false
bytes_eq (x ∷ xs) [] = false
bytes_eq (x ∷ xs) (y ∷ ys) = x == y && bytes_eq xs ys

-- `s == ""`, `len(s) == 0`.
abbrev pub is_empty {ℓ} : {A : Type ℓ} → List A → Bool
is_empty [] = true
is_empty (x ∷ xs) = false

pub bytes_eq-eq : (a b : Bytes) → bytes_eq a b ≡ true → a ≡ b
unfolding bytes_eq
bytes_eq-eq [] [] h = refl
bytes_eq-eq [] (y ∷ ys) h = cc
bytes_eq-eq (x ∷ xs) [] h = cc
bytes_eq-eq (x ∷ xs) (y ∷ ys) h = ground (arith, bytes_eq-eq xs ys)

pub bytes_eq_refl : (a : Bytes) → bytes_eq a a ≡ true
unfolding bytes_eq
bytes_eq_refl [] = refl
bytes_eq_refl (x ∷ xs) = ground (arith, bytes_eq_refl xs)

pub bytes_eq_iff : (a b : Bytes) → (bytes_eq a b ≡ true) ↔ (a ≡ b)
bytes_eq_iff a b = (bytes_eq-eq a b, λ e. rw e (bytes_eq_refl b))

-- `slices.Contains(list, x)`.
unfoldable pub contains : List Bytes → Bytes → Bool
contains [] x = false
contains (y ∷ ys) x = bytes_eq y x || contains ys x

-- `strings.TrimSuffix(s, c)` for a suffix of one byte.
unfoldable pub trim_suffix : Bytes → ℕ → Bytes
trim_suffix [] c = []
trim_suffix (x ∷ []) c = if x == c then [] else x ∷ []
trim_suffix (x ∷ y ∷ ys) c = x ∷ trim_suffix (y ∷ ys) c

-- `strings.Contains(s, c)` for one byte.
unfoldable pub has_byte : Bytes → ℕ → Bool
has_byte [] c = false
has_byte (x ∷ xs) c = x == c || has_byte xs c

module _ {ℓ} {A : Type ℓ} where
  pub is_empty-eq : (xs : List A) → is_empty xs ≡ true → xs ≡ []
  is_empty-eq [] h = refl
  is_empty-eq (x ∷ xs) h = cc

  pub is_empty-ne : (xs : List A) → is_empty xs ≡ false → xs ≢ []
  is_empty-ne [] h = cc
  is_empty-ne (x ∷ xs) h = cc

  pub is_empty_of_ne : (xs : List A) → xs ≢ [] → is_empty xs ≡ false
  is_empty_of_ne [] h = absurd (h refl)
  is_empty_of_ne (x ∷ xs) h = refl

Bool-discrete : Discrete Bool
Bool-discrete = hlevel

contains-Mem : (xs : List Bytes) (x : Bytes) → contains xs x ≡ true → Mem x xs
unfolding contains
contains-Mem [] x h = cc
contains-Mem (y ∷ ys) x h = elim (Bool-cases (bytes_eq y x)) [
  | inl hit ↦ mem-cons.1 (Or.inl (sym (bytes_eq-eq y x hit)))
  | inr miss ↦ mem-cons.1 (Or.inr (contains-Mem ys x (ground arith)))
]

Mem-contains : (xs : List Bytes) (x : Bytes) → Mem x xs → contains xs x ≡ true
unfolding contains
Mem-contains [] x h = absurd (not-mem-nil h)
Mem-contains (y ∷ ys) x h =
    Or.elim (hedberg Bool-discrete _ _) (mem-cons.0 h) (λ e. rw (e, bytes_eq_refl y))
      (λ m. ground (arith, Mem-contains ys x m))

-- A list contains what is a member of it.
pub contains_iff : (xs : List Bytes) (x : Bytes) → (contains xs x ≡ true) ↔ Mem x xs
contains_iff xs x = (contains-Mem xs x, Mem-contains xs x)

pub bytes_eq_of_ne : (a b : Bytes) → a ≢ b → bytes_eq a b ≡ false
bytes_eq_of_ne a b h = elim (Bool-cases (bytes_eq a b)) [
  | inl same ↦ absurd (h ((bytes_eq_iff a b).0 same))
  | inr other ↦ other
]
