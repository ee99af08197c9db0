-- ===== src/Machine.antt =====
-- The engine's methods as actions. A `Machine` is what a call can read or change beside the engine's
-- constant fields: the source of random bytes, the clock, and the session that the method's
-- argument `s` points to. What was written before an error stays written.
pub mod Laws
use go_oid4vp.Base.{ℕ, suc, Bool, Option, none, some, List, length, take, drop, ltb, if◌then◌else◌}
use go_oid4vp.Base.Bytes.{Bytes}
use go_oid4vp.Base64.{encode}
use go_oid4vp.Platform.{Platform}
use go_oid4vp.Session.{Session}
use go_oid4vp.Fault.{Error, Result, ok, err, foreign, wrap, sentinel, session_invalid}

-- `random` is what the reader still yields before it fails; `clock` lists the readings to come.
pub record Machine (V : Platform) : Type 0 where
  pub random : Bytes
  pub clock : ℕ → ℕ
  pub session : Option (Session V)

abbrev pub M {ℓ} : Platform → Type ℓ → Type ℓ
M V A = Machine V → Result A × Machine V

module _ {V : Platform} where
  abbrev pub pure {ℓ} : {A : Type ℓ} → A → M V A
  pure a w = (ok a, w)

  abbrev pub lift {ℓ} : {A : Type ℓ} → Result A → M V A
  lift r w = (r, w)

  abbrev pub fail {ℓ} : {A : Type ℓ} → Error → M V A
  fail e w = (err e, w)

  -- `if test { return err }`.
  abbrev pub refuse_when : Bool → Error → M V (Unit {0})
  refuse_when b e w = (if b then err e else ok tt, w)

  abbrev pub continue {ℓ κ} :
      {A : Type ℓ} {B : Type κ} → Result A × Machine V → (A → M V B) → Result B × Machine V
  continue (ok a, w) f = f a w
  continue (err e, w) f = (err e, w)

  infixl 5 ◌>>=◌ ◌>>◌
  abbrev pub ◌>>=◌ {ℓ κ} : {A : Type ℓ} {B : Type κ} → M V A → (A → M V B) → M V B
  ◌>>=◌ m f w = continue (m w) f

  abbrev pub ◌>>◌ {ℓ κ} : {A : Type ℓ} {B : Type κ} → M V A → M V B → M V B
  ◌>>◌ m n w = continue (m w) (λ _. n)

  abbrev or_nil : Option (Session V) → Result (Session V)
  or_nil none = err (sentinel session_invalid)
  or_nil (some s) = ok s

  -- `if s == nil { return ErrSessionInvalid }`, and the session otherwise.
  unfoldable pub session : M V (Session V)
  session w = (or_nil w.session, w)

  -- Assignments to fields of `s`.
  unfoldable pub assign : Session V → M V (Unit {0})
  assign s w = (ok tt, record w { session = some s })

  -- `e.clock()`.
  unfoldable pub now : M V ℕ
  now w = (ok (w.clock 0), record w { clock = λ n. w.clock (suc n) })

  -- `randToken`: `io.ReadFull` takes all that is left when that is too little.
  unfoldable pub rand_token : ℕ → M V Bytes
  rand_token n w =
      if ltb (length w.random) n
      then (err (wrap foreign List.[]), record w { random = List.[] })
      else (ok (encode (take n w.random)), record w { random = drop n w.random })
