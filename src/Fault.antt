-- ===== src/Fault.antt =====
-- errors.go: the sentinels, `WalletError`, and errors as Go builds them, with the tests
-- `errors.Is` and `errors.As` that the package makes on them. Functions that may fail return a
-- `Result`.
pub mod Response
pub mod Table
pub mod Echo
use go_oid4vp.Base.{
  ℕ, ◌≡◌, refl, Bool, true, false, ◌||◌, Option, none, some, List, ◌==◌, arith, if◌then◌else◌,
}
use go_oid4vp.Base.Bytes.{Bytes}

-- The `Err…` variables, in the order of the file.
pub data Sentinel : Type 0 where
  session_invalid session_not_found session_expired session_consumed : Sentinel
  session_not_consumed config san_mismatch unsupported_client_id_prefix : Sentinel
  spec no_registration flow_mismatch request_uri_consumed : Sentinel
  wallet_metadata_invalid body_too_large malformed_response decrypt : Sentinel
  state_mismatch apv_mismatch unknown_credential_id no_response_code : Sentinel
  response_code_mismatch response_code_consumed origin_not_expected : Sentinel
  transaction_data_disabled transaction_data_invalid transaction_data_missing : Sentinel
  transaction_data_unexpected transaction_data_mismatch transcript_params : Sentinel

pub record WalletError : Type 0 where
  pub code : Bytes
  pub description : Bytes

-- `foreign` is an error of another package. `wrap` is `fmt.Errorf("%w: …", e, …)`, with the texts
-- that it quotes; `join` is `fmt.Errorf("%w: … %w", e, f)`. The fixed words of a message are left
-- out.
pub data Error : Type 0 where
  sentinel : Sentinel → Error
  wallet : WalletError → Error
  foreign : Error
  wrap : Error → List Bytes → Error
  join : Error → Error → Error

-- Go compares the variables by address: equal exactly if they are the same one.
abbrev pub index : Sentinel → ℕ
index session_invalid = 0
index session_not_found = 1
index session_expired = 2
index session_consumed = 3
index session_not_consumed = 4
index config = 5
index san_mismatch = 6
index unsupported_client_id_prefix = 7
index spec = 8
index no_registration = 9
index flow_mismatch = 10
index request_uri_consumed = 11
index wallet_metadata_invalid = 12
index body_too_large = 13
index malformed_response = 14
index decrypt = 15
index state_mismatch = 16
index apv_mismatch = 17
index unknown_credential_id = 18
index no_response_code = 19
index response_code_mismatch = 20
index response_code_consumed = 21
index origin_not_expected = 22
index transaction_data_disabled = 23
index transaction_data_invalid = 24
index transaction_data_missing = 25
index transaction_data_unexpected = 26
index transaction_data_mismatch = 27
index transcript_params = 28

-- `errors.Is(err, target)`: along `Unwrap`, through both errors of a join.
unfoldable pub is : Error → Sentinel → Bool
is (sentinel s) t = index s == index t
is (wallet w) t = false
is foreign t = false
is (wrap e texts) t = is e t
is (join e f) t = is e t || is f t

abbrev first_of_two {ℓ} : {A : Type ℓ} → Option A → Option A → Option A
first_of_two (some a) o = some a
first_of_two none o = o

-- `errors.As(err, &we)` at a `*WalletError`: the first one, depth first.
unfoldable pub as_wallet_error : Error → Option WalletError
as_wallet_error (sentinel s) = none
as_wallet_error (wallet w) = some w
as_wallet_error foreign = none
as_wallet_error (wrap e texts) = as_wallet_error e
as_wallet_error (join e f) = first_of_two (as_wallet_error e) (as_wallet_error f)

-- A value, or the error that a Go function returns in its place.
pub data Result {ℓ} (X : Type ℓ) : Type ℓ where
  ok : X → Result X
  err : Error → Result X

-- `if err != nil { return err }` between two calls, the second with the first one's value or not.
infixl 5 ◌>>=◌ ◌>>◌
abbrev pub ◌>>=◌ {ℓ κ} : {X : Type ℓ} {Y : Type κ} → Result X → (X → Result Y) → Result Y
err failure >>= next = err failure
ok value >>= next = next value

abbrev pub ◌>>◌ {κ} : {Y : Type κ} → Result (Unit {0}) → Result Y → Result Y
check >> rest = check >>= λ _. rest

-- `if test { return err }`.
abbrev pub refuse_if : Bool → Error → Result (Unit {0})
refuse_if true e = err e
refuse_if false e = ok tt

-- `x, err := call(); if err != nil { return wrapped }`, where the callee is another package's.
abbrev pub or_fail {ℓ} : {A : Type ℓ} → Option A → Error → Result A
or_fail none e = err e
or_fail (some a) e = ok a

-- What a success says about its parts.
pub refuse_if-eq-ok : (b : Bool) (e : Error) {u : Unit {0}} → refuse_if b e ≡ ok u → b ≡ false
refuse_if-eq-ok true e h = cc
refuse_if-eq-ok false e h = refl

pub or_fail-eq-ok {ℓ} :
    {A : Type ℓ} (o : Option A) (e : Error) {a : A} → or_fail o e ≡ ok a → o ≡ some a
or_fail-eq-ok none e h = cc
or_fail-eq-ok (some b) e h = ground arith

pub >>=-eq-ok {ℓ κ} :
    {X : Type ℓ} {Y : Type κ} (first : Result X) (next : X → Result Y) {y : Y}
    → (first >>= next) ≡ ok y
    → (x : X) × (first ≡ ok x) × (next x ≡ ok y)
>>=-eq-ok (err failure) next both = cc
>>=-eq-ok (ok value) next both = (value, refl, both)
