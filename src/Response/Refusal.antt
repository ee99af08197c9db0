-- ===== src/Response/Refusal.antt =====
-- The errors with which a response is refused once its session is in order.
use go_oid4vp.Base.{
  ℕ, zero, suc, ◌+◌, ◌≤◌, ◌≡◌, refl, inl, inr, arith, Bool, true, false, ◌||◌, ◌⊎◌, Option, none,
  some, List, [], ◌∷◌, ◌++◌, ltb, length, length-append, take, All, Bool-cases,
}
use go_oid4vp.Base.Bytes.{Bytes}
use go_oid4vp.Fault.{
  is, as_wallet_error, Error, Result, ok, err, sentinel, wallet, WalletError, wrap, join, foreign,
  refuse_if, or_fail, ◌>>=◌, malformed_response, decrypt, state_mismatch, apv_mismatch,
  unknown_credential_id, session_expired, body_too_large, origin_not_expected,
}
use go_oid4vp.Fault.Response.{error_response, find_row, error_table}
use go_oid4vp.Response.VpToken.{clip, ellipsis}

-- What the handler answers.
abbrev pub status_of : Error → ℕ
status_of x = (error_response (some x)).status

-- Every one of them; a quoted name is cut to 64 bytes and the texts of a wallet's error to 256, with
-- three more bytes for the ellipsis.
pub data IsRefusal : Error → Type 0 where
  malformed :
      (texts : List Bytes)
      → All (λ t. length t ≤ 67) texts
      → IsRefusal (wrap (sentinel malformed_response) texts)
  unknown :
      (name : Bytes)
      → length name ≤ 67
      → IsRefusal (wrap (sentinel unknown_credential_id) (name ∷ []))
  reported :
      (w : WalletError) → length w.code ≤ 259 → length w.description ≤ 259 → IsRefusal (wallet w)
  undecryptable : IsRefusal (join (sentinel decrypt) foreign)
  other_state : IsRefusal (sentinel state_mismatch)
  other_nonce : IsRefusal (sentinel apv_mismatch)

pub IsRefusal-status : {x : Error} → IsRefusal x → status_of x ≡ 400
unfolding error_response as_wallet_error find_row error_table is
IsRefusal-status (malformed texts short) = refl
IsRefusal-status (unknown name short) = refl
IsRefusal-status (reported w code description) = refl
IsRefusal-status undecryptable = refl
IsRefusal-status other_state = refl
IsRefusal-status other_nonce = refl

pub expired-status : status_of (sentinel session_expired) ≡ 404
unfolding error_response as_wallet_error find_row error_table is
expired-status = refl

pub too_large-status : status_of (sentinel body_too_large) ≡ 400
unfolding error_response as_wallet_error find_row error_table is
too_large-status = refl

pub origin-status : status_of (sentinel origin_not_expected) ≡ 400
unfolding error_response as_wallet_error find_row error_table is
origin-status = refl

-- The texts that the package quotes in an error, before `%q` writes them out. The text of another
-- package's error is not among them: see `has_foreign`.
unfoldable pub quoted : Error → List Bytes
quoted (sentinel t) = []
quoted (wallet w) = w.code ∷ w.description ∷ []
quoted foreign = []
quoted (wrap e texts) = quoted e ++ texts
quoted (join e f) = quoted e ++ quoted f

-- Whether the message has the text of another package's error in it.
unfoldable pub has_foreign : Error → Bool
has_foreign (sentinel t) = false
has_foreign (wallet w) = false
has_foreign foreign = true
has_foreign (wrap e texts) = has_foreign e
has_foreign (join e f) = has_foreign e || has_foreign f

pub IsRefusal-foreign :
    {x : Error} → IsRefusal x → (has_foreign x ≡ false) ⊎ (x ≡ join (sentinel decrypt) foreign)
unfolding has_foreign
IsRefusal-foreign (malformed texts short) = inl refl
IsRefusal-foreign (unknown name short) = inl refl
IsRefusal-foreign (reported w code description) = inl refl
IsRefusal-foreign undecryptable = inr refl
IsRefusal-foreign other_state = inl refl
IsRefusal-foreign other_nonce = inl refl

All-longer : (ts : List Bytes) → All (λ t. length t ≤ 67) ts → All (λ t. length t ≤ 259) ts
All-longer [] h = tt
All-longer (t ∷ ts) h = (omega (arith, h.0), All-longer ts h.1)

pub IsRefusal-quoted : {x : Error} → IsRefusal x → All (λ t. length t ≤ 259) (quoted x)
unfolding quoted
IsRefusal-quoted (malformed texts short) = All-longer texts short
IsRefusal-quoted (unknown name short) = (omega (arith, short), tt)
IsRefusal-quoted (reported w code description) = (code, (description, tt))
IsRefusal-quoted undecryptable = tt
IsRefusal-quoted other_state = tt
IsRefusal-quoted other_nonce = tt

length-take-le : (n : ℕ) (s : Bytes) → length (take n s) ≤ n
length-take-le zero s = omega arith
length-take-le (suc n) [] = omega arith
length-take-le (suc n) (b ∷ s) = omega (arith, length-take-le n s)

pub length-clip : (s : Bytes) (n : ℕ) → length (clip s n) ≤ n + 3
unfolding clip
length-clip s n = elim (Bool-cases (ltb n (length s))) [
  | inl long ↦ rw long (omega (arith, length-append (take n s) ellipsis, length-take-le n s))
  | inr short ↦ rw short (ground (arith, short))
]

-- Whatever error the call returns, it is one of them.
abbrev pub Refuses {ℓ} : {A : Type ℓ} → Result A → Type ℓ
Refuses r = (x : Error) → r ≡ err x → IsRefusal x

pub ok-Refuses {ℓ} : {A : Type ℓ} (a : A) → Refuses (ok a)
ok-Refuses a x h = cc

pub err-Refuses {ℓ} : (A : Type ℓ) (e : Error) → IsRefusal e → Refuses {A = A} (err e)
err-Refuses A e known x h = let same : e ≡ x = ground (arith, h) in rw (← same) known

pub refuse_if-Refuses : (b : Bool) (e : Error) → IsRefusal e → Refuses (refuse_if b e)
refuse_if-Refuses true e known = err-Refuses _ e known
refuse_if-Refuses false e known = ok-Refuses tt

pub or_fail-Refuses {ℓ} :
    {A : Type ℓ} (o : Option A) (e : Error) → IsRefusal e → Refuses (or_fail o e)
or_fail-Refuses none e known = err-Refuses _ e known
or_fail-Refuses (some a) e known = ok-Refuses a

-- The second call may rely on what the first one returned.
pub >>=-Refuses {ℓ κ} :
    {A : Type ℓ} {B : Type κ} (r : Result A) (f : A → Result B)
    → Refuses r
    → ((a : A) → r ≡ ok a → Refuses (f a))
    → Refuses (r >>= f)
>>=-Refuses (err e) f first rest = err-Refuses _ e (first e refl)
>>=-Refuses (ok a) f first rest = rest a refl
