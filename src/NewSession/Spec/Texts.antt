-- ===== src/NewSession/Spec/Texts.antt =====
-- The texts of a request spec: URLs, origins and objects.
use go_oid4vp.Base.{
  ◌≡◌, ◌≢◌, ◌↔◌, inl, inr, refl, true, false, some, List, [], ◌∷◌, arith, All, Option-cases,
}
use go_oid4vp.Base.Bytes.{Bytes, codes, bytes_eq_iff, is_empty-eq, is_empty-ne, is_empty_of_ne}
use go_oid4vp.Platform.{Platform, Url, Document}
use go_oid4vp.Fault.{Result, ok, err, >>=-eq-ok, or_fail-eq-ok, refuse_if-eq-ok}
use go_oid4vp.Transaction.{is_object, validate_transaction_data}
use go_oid4vp.NewSession.Spec.{
  join_spec, is_https, is_origin, valid_https_url, valid_origin, valid_origins,
}

-- An absolute https URL.
abbrev pub IsHttps : Url → Type 0
IsHttps u = (u.scheme ≡ codes "https") × (u.host ≢ [])

-- Scheme and host, with nothing behind them.
abbrev pub IsOrigin : Url → Type 0
IsOrigin u =
    IsHttps u × (u.path ≡ []) × (u.raw_query ≡ []) × (u.fragment ≡ []) × (u.has_user ≡ false)

pub is_https_iff : (u : Url) → (is_https u ≡ true) ↔ IsHttps u
is_https_iff u = (
  λ h.
      ((bytes_eq_iff u.scheme (codes "https")).0 (ground arith), is_empty-ne u.host (ground arith)),
  λ h. rw ((bytes_eq_iff u.scheme (codes "https")).1 h.0, is_empty_of_ne u.host h.1),
)

pub is_origin_iff : (u : Url) → (is_origin u ≡ true) ↔ IsOrigin u
is_origin_iff u = (
  λ h. (
    (is_https_iff u).0 (ground arith),
    is_empty-eq u.path (ground arith),
    is_empty-eq u.raw_query (ground arith),
    is_empty-eq u.fragment (ground arith),
    ground arith,
  ),
  λ h. rw ((is_https_iff u).1 h.0, h.1, h.2, h.3, h.4),
)

pub join_spec-eq-ok {ℓ} : {A : Type ℓ} (r : Result A) (a : A) → join_spec r ≡ ok a → r ≡ ok a
join_spec-eq-ok (ok b) a h = h
join_spec-eq-ok (err e) a h = cc

module _ (V : Platform) where
  abbrev pub IsHttpsText : Bytes → Type 0
  IsHttpsText raw = (u : Url) × (raw ≢ []) × (V.parse_url raw ≡ some u) × IsHttps u

  abbrev pub IsOriginText : Bytes → Type 0
  IsOriginText raw = (u : Url) × (V.parse_url raw ≡ some u) × IsOrigin u

  pub valid_https_url-IsHttpsText : (raw : Bytes) → valid_https_url V raw ≡ ok tt → IsHttpsText raw
  unfolding valid_https_url
  valid_https_url-IsHttpsText raw h =
      let (a, given, h₁) = >>=-eq-ok _ _ h in
      let (u, parsed, h₂) = >>=-eq-ok _ _ h₁ in
      (
        u,
        is_empty-ne raw (refuse_if-eq-ok _ _ given),
        or_fail-eq-ok _ _ parsed,
        (is_https_iff u).0 (ground arith),
      )

  pub IsHttpsText-valid_https_url : (raw : Bytes) → IsHttpsText raw → valid_https_url V raw ≡ ok tt
  unfolding valid_https_url
  IsHttpsText-valid_https_url raw (u, given, parsed, h) =
      rw (is_empty_of_ne raw given, parsed, (is_https_iff u).1 h)

  pub valid_origins-IsOriginText :
      (os : List Bytes) → valid_origins V os ≡ ok tt → All IsOriginText os
  unfolding valid_origins valid_origin
  valid_origins-IsOriginText [] h = tt
  valid_origins-IsOriginText (o ∷ os) h =
      let (a, checked, h₁) = >>=-eq-ok _ _ h in
      let (u, parsed, h₂) = >>=-eq-ok _ _ (join_spec-eq-ok _ a checked) in
      (
        (u, or_fail-eq-ok _ _ parsed, (is_origin_iff u).0 (ground arith)),
        valid_origins-IsOriginText os h₁,
      )

  pub IsOriginText-valid_origins :
      (os : List Bytes) → All IsOriginText os → valid_origins V os ≡ ok tt
  unfolding valid_origins valid_origin
  IsOriginText-valid_origins [] h = refl
  IsOriginText-valid_origins (o ∷ os) ((u, parsed, h), hs) =
      rw (parsed, (is_origin_iff u).1 h, IsOriginText-valid_origins os hs)

  -- The text begins with a JSON object. What follows it is not looked at.
  abbrev pub BeginsWithObject : Bytes → Type 0
  BeginsWithObject raw = (d : Document) × (V.decode_document raw ≡ some d) × (d.is_nil ≡ false)

  pub is_object-BeginsWithObject :
      (raw : Bytes) → is_object (V.decode_document raw) ≡ true → BeginsWithObject raw
  is_object-BeginsWithObject raw h = elim (Option-cases (V.decode_document raw)) [
    | inl bad ↦ cc (rw bad at h)
    | inr (d, good) ↦ (d, good, ground arith)
  ]

  pub validate-BeginsWithObject :
      (td : List Bytes) → validate_transaction_data V td ≡ ok tt → All BeginsWithObject td
  unfolding validate_transaction_data
  validate-BeginsWithObject [] h = tt
  validate-BeginsWithObject (e ∷ es) h =
      (is_object-BeginsWithObject e (ground arith), validate-BeginsWithObject es (ground arith))

  pub BeginsWithObject-validate :
      (td : List Bytes) → All BeginsWithObject td → validate_transaction_data V td ≡ ok tt
  unfolding validate_transaction_data
  BeginsWithObject-validate [] h = refl
  BeginsWithObject-validate (e ∷ es) ((d, good, object), hs) =
      rw (good, object, BeginsWithObject-validate es hs)
