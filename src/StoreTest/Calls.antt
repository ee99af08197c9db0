-- ===== src/StoreTest/Calls.antt =====
-- What the tests see of a store that keeps the interface's promise, call by call.
use go_oid4vp.Base.{ℕ, zero, suc, ◌≡◌, refl, ap, Bool, true, Option, some, arith, All, length}
use go_oid4vp.Fault.{Sentinel, Result, ok, err, sentinel, is}
use go_oid4vp.StoreTest.{given, succeeds, fails_with, readings}

pub given_some {ℓ} :
    {A : Type ℓ} (o : Option A) (rest : A → Bool) {a : A}
    → o ≡ some a
    → rest a ≡ true
    → given o rest ≡ true
given_some o rest e h = rw e h

pub succeeds_ok {ℓ κ} :
    {A : Type ℓ} {S : Type κ} (r : Result A × S) (rest : A → S → Bool) {a : A}
    → r.0 ≡ ok a
    → rest a r.1 ≡ true
    → succeeds r rest ≡ true
succeeds_ok (r, m) rest e h = rw e h

pub fails_with_err {ℓ κ} :
    {A : Type ℓ} {S : Type κ} (t : Sentinel) (r : Result A × S) (rest : S → Bool)
    → r.0 ≡ err (sentinel t)
    → rest r.1 ≡ true
    → fails_with t r rest ≡ true
unfolding is
fails_with_err t (r, m) rest e h = rw e (ground (arith, h))

pub length-readings : (n : ℕ) (clock : ℕ → ℕ) → length (readings n clock) ≡ n
unfolding readings
length-readings zero clock = refl
length-readings (suc n) clock = ap suc (length-readings n (λ i. clock (suc i)))

pub All-readings :
    (P : ℕ → Type 0) (n : ℕ) (clock : ℕ → ℕ) → ((i : ℕ) → P (clock i)) → All P (readings n clock)
unfolding readings
All-readings P zero clock h = tt
All-readings P (suc n) clock h = (h 0, All-readings P n (λ i. clock (suc i)) (λ i. h (suc i)))
