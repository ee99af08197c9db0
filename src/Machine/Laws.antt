-- ===== src/Machine/Laws.antt =====
-- Inversion of actions that succeed, and what an error leaves behind.
use go_oid4vp.Base.{◌≡◌, refl}
use go_oid4vp.Platform.{Platform}
use go_oid4vp.Fault.{Result, ok, err}
use go_oid4vp.Machine.{Machine, M, continue}

module _ {ℓ κ} {V : Platform} {A : Type ℓ} {B : Type κ} where
  pub continue-eq-ok :
      (p : Result A × Machine V) (f : A → M V B) {b : B} {w : Machine V}
      → continue p f ≡ (ok b, w)
      → (a : A) × (v : Machine V) × (p ≡ (ok a, v)) × (f a v ≡ (ok b, w))
  continue-eq-ok (ok a, v) f h = (a, v, refl, h)
  continue-eq-ok (err e, v) f h = cc
