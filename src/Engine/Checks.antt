-- ===== src/Engine/Checks.antt =====
-- The checks of `New`, one by one.
use go_oid4vp.Base.{
  ℕ, zero, suc, ◌<◌, ◌≡◌, ◌≢◌, refl, ◌⊎◌, inl, inr, Bool, true, false, not, ◌&&◌, Option, none,
  some, List, [], ◌∷◌, arith, All, Bool-cases, ℤ, not-eq-false, or-eq-false,
}
use go_oid4vp.Base.Int.{or_default, pos, negsuc}
use go_oid4vp.Base.Bytes.{
  Bytes, codes, bytes_eq, bytes_eq_iff, is_empty, is_empty-eq, is_empty-ne, is_empty_of_ne,
}
use go_oid4vp.Platform.{Platform, Url}
use go_oid4vp.Fault.{Error, ok, >>=-eq-ok, or_fail-eq-ok, refuse_if-eq-ok}
use go_oid4vp.Engine.{
  check_each, key_matches, valid_base_url, client_id_prefix_x509_san_dns, ec_public_key,
}

pub check_each-All {ℓ} :
    {A : Type ℓ} (allowed : A → Bool) (refusal : A → Error) (xs : List A)
    → check_each allowed refusal xs ≡ ok tt
    → All (λ x. allowed x ≡ true) xs
unfolding check_each
check_each-All allowed refusal [] h = tt
check_each-All allowed refusal (x ∷ xs) h = elim (Bool-cases (allowed x)) [
  | inl good ↦ (good, check_each-All allowed refusal xs (ground arith))
  | inr bad ↦ cc (rw (bad, check_each) at h)
]

pub All-check_each {ℓ} :
    {A : Type ℓ} (allowed : A → Bool) (refusal : A → Error) (xs : List A)
    → All (λ x. allowed x ≡ true) xs
    → check_each allowed refusal xs ≡ ok tt
unfolding check_each
All-check_each allowed refusal [] h = refl
All-check_each allowed refusal (x ∷ xs) h = rw (h.0, All-check_each allowed refusal xs h.1)

pub or_default-pos : (n : ℤ) (d : ℕ) → 0 < d → 0 < or_default n d
unfolding or_default
or_default-pos (pos zero) d h = h
or_default-pos (pos (suc n)) d h = omega arith
or_default-pos (negsuc n) d h = h

pub is_prefix :
    (p : Bytes)
    → (not (is_empty p) && not (bytes_eq p client_id_prefix_x509_san_dns)) ≡ false
    → (p ≡ []) ⊎ (p ≡ client_id_prefix_x509_san_dns)
is_prefix p h = elim (Bool-cases (is_empty p)) [
  | inl blank ↦ inl (is_empty-eq p blank)
  | inr given ↦
      inr ((bytes_eq_iff p client_id_prefix_x509_san_dns).0 (not-eq-false _ (rw given at h)))
]

module _ (V : Platform) where
  pub key_matches-eq :
      (k : V.PublicKey) (o : Option V.PublicKey)
      → key_matches V k o ≡ true
      → (k' : V.PublicKey) × (o ≡ some k') × (V.public_key_eq k k' ≡ true)
  unfolding key_matches
  key_matches-eq k none h = cc
  key_matches-eq k (some k') h = (k', refl, h)

  pub ec_public_key-eq-ok :
      (o : Option (Option V.PublicKey)) (k : V.PublicKey)
      → ec_public_key o ≡ ok k
      → o ≡ some (some k)
  ec_public_key-eq-ok none k h = cc
  ec_public_key-eq-ok (some none) k h = cc
  ec_public_key-eq-ok (some (some k')) k h = ground arith

  -- An absolute https URL with neither query nor fragment.
  abbrev pub IsBaseUrl : Bytes → Type 0
  IsBaseUrl raw =
      (u : Url) × (V.parse_url raw ≡ some u)
      × (u.scheme ≡ codes "https")
      × (u.host ≢ [])
      × (u.raw_query ≡ [])
      × (u.fragment ≡ [])

  pub valid_base_url-IsBaseUrl : (raw : Bytes) → valid_base_url V raw ≡ ok tt → IsBaseUrl raw
  unfolding valid_base_url
  valid_base_url-IsBaseUrl raw h =
      let (u, parsed, h₁) = >>=-eq-ok _ _ h in
      let (a, absolute, bare) = >>=-eq-ok _ _ h₁ in
      let (https, host) = or-eq-false _ _ (refuse_if-eq-ok _ _ absolute) in
      let (query, fragment) = or-eq-false _ _ (refuse_if-eq-ok _ _ bare) in
      (
        u,
        or_fail-eq-ok _ _ parsed,
        (bytes_eq_iff u.scheme (codes "https")).0 (not-eq-false _ https),
        is_empty-ne _ host,
        is_empty-eq _ (not-eq-false _ query),
        is_empty-eq _ (not-eq-false _ fragment),
      )

  pub IsBaseUrl-valid_base_url : (raw : Bytes) → IsBaseUrl raw → valid_base_url V raw ≡ ok tt
  unfolding valid_base_url
  IsBaseUrl-valid_base_url raw (u, parsed, https, host, query, fragment) = rw (
    parsed,
    (bytes_eq_iff u.scheme (codes "https")).1 https,
    is_empty_of_ne u.host host,
    query,
    fragment,
  )
