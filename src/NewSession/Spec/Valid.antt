-- ===== src/NewSession/Spec/Valid.antt =====
-- Which request specs are accepted.
use go_oid4vp.Base.{
  ◌≡◌, ◌≢◌, ◌↔◌, ◌⊎◌, inl, inr, subst, true, false, some, [], arith, All, Bool-cases,
}
use go_oid4vp.Base.Bytes.{Bytes, bytes_eq_iff, is_empty, is_empty-eq, is_empty-ne, is_empty_of_ne}
use go_oid4vp.Platform.{Platform, Url}
use go_oid4vp.Session.{Flow, same_device, cross_device, dcapi, other}
use go_oid4vp.Engine.{Engine}
use go_oid4vp.Fault.{ok, >>=-eq-ok, or_fail-eq-ok}
use go_oid4vp.Request.Metadata.{is_zero_registration}
use go_oid4vp.NewSession.Spec.{
  RequestSpec, valid_response_uri, check_by_uri, check_flow, check_transaction_data, validate_spec,
}
use go_oid4vp.NewSession.Spec.Texts.{
  IsHttps, join_spec-eq-ok, IsHttpsText, IsOriginText, valid_https_url-IsHttpsText,
  IsHttpsText-valid_https_url, valid_origins-IsOriginText, IsOriginText-valid_origins,
  BeginsWithObject, validate-BeginsWithObject, BeginsWithObject-validate,
}

module _ {V : Platform} (e : Engine V) where
  -- An https URL on the host that the client id names.
  abbrev pub IsResponseUri : Bytes → Type 0
  IsResponseUri raw =
      (u : Url) × (raw ≢ [])
      × (V.parse_url raw ≡ some u)
      × IsHttps u
      × (u.hostname ≡ e.client_dns_name)

  -- What each flow asks of the spec.
  abbrev pub FitsFlow : RequestSpec V → Flow → Type 0
  FitsFlow r same_device =
      IsResponseUri r.response_uri × (r.expected_origins ≡ []) × IsHttpsText V r.return_uri
  FitsFlow r cross_device =
      IsResponseUri r.response_uri × (r.expected_origins ≡ []) × (r.return_uri ≡ [])
  FitsFlow r dcapi =
      (r.response_uri ≡ [])
      × (r.return_uri ≡ [])
      × (r.expected_origins ≢ [])
      × All (IsOriginText V) r.expected_origins
  FitsFlow r (other name) = ⊥

  pub record IsValid (r : RequestSpec V) : Type 0 where
    pub registered : is_zero_registration V r.registration ≡ false
    pub asks : V.credentials r.query ≢ []
    pub well_formed : V.is_valid_query r.query ≡ true
    pub transaction :
        (r.transaction_data ≡ [])
        ⊎ ((e.enable_transaction_data ≡ true) × All (BeginsWithObject V) r.transaction_data)
    pub fits_flow : FitsFlow r r.flow

  valid_response_uri-IsResponseUri :
      (raw : Bytes) → valid_response_uri e raw ≡ ok tt → IsResponseUri raw
  unfolding valid_response_uri
  valid_response_uri-IsResponseUri raw h =
      let (a, https, h₁) = >>=-eq-ok _ _ h in
      let (u, parsed, h₂) = >>=-eq-ok _ _ h₁ in
      let (v, given, p, url) = valid_https_url-IsHttpsText V raw (join_spec-eq-ok _ a https) in
      let q : V.parse_url raw ≡ some u = or_fail-eq-ok _ _ parsed in
      let same : v ≡ u = ground arith in
      (
        u,
        given,
        q,
        subst IsHttps same url,
        (bytes_eq_iff u.hostname e.client_dns_name).0 (ground arith),
      )

  IsResponseUri-valid_response_uri :
      (raw : Bytes) → IsResponseUri raw → valid_response_uri e raw ≡ ok tt
  unfolding valid_response_uri
  IsResponseUri-valid_response_uri raw (u, given, parsed, url, host) = rw (
    IsHttpsText-valid_https_url V raw (u, given, parsed, url),
    parsed,
    (bytes_eq_iff u.hostname e.client_dns_name).1 host,
  )

  check_flow-FitsFlow : (r : RequestSpec V) (f : Flow) → check_flow e r f ≡ ok tt → FitsFlow r f
  unfolding check_flow
  check_flow-FitsFlow r same_device h =
      let (a, by_uri, h₁) = >>=-eq-ok (check_by_uri e r) _ h in
      let (b, uri, h₂) = >>=-eq-ok (valid_response_uri e r.response_uri) _ by_uri in
      (
        valid_response_uri-IsResponseUri r.response_uri uri,
        is_empty-eq r.expected_origins (ground arith),
        valid_https_url-IsHttpsText V r.return_uri (join_spec-eq-ok _ tt h₁),
      )
  check_flow-FitsFlow r cross_device h =
      let (a, by_uri, h₁) = >>=-eq-ok (check_by_uri e r) _ h in
      let (b, uri, h₂) = >>=-eq-ok (valid_response_uri e r.response_uri) _ by_uri in
      (
        valid_response_uri-IsResponseUri r.response_uri uri,
        is_empty-eq r.expected_origins (ground arith),
        is_empty-eq r.return_uri (ground arith),
      )
  check_flow-FitsFlow r dcapi h = (
    is_empty-eq r.response_uri (ground arith),
    is_empty-eq r.return_uri (ground arith),
    is_empty-ne r.expected_origins (ground arith),
    valid_origins-IsOriginText V r.expected_origins (ground arith),
  )
  check_flow-FitsFlow r (other name) h = cc

  FitsFlow-check_flow : (r : RequestSpec V) (f : Flow) → FitsFlow r f → check_flow e r f ≡ ok tt
  unfolding check_flow
  FitsFlow-check_flow r same_device (uri, origins, return) = rw (
    IsResponseUri-valid_response_uri r.response_uri uri,
    origins,
    IsHttpsText-valid_https_url V r.return_uri return,
  )
  FitsFlow-check_flow r cross_device (uri, origins, return) =
      rw (IsResponseUri-valid_response_uri r.response_uri uri, origins, return)
  FitsFlow-check_flow r dcapi (response, return, some_origin, origins) = rw (
    response,
    return,
    is_empty_of_ne r.expected_origins some_origin,
    IsOriginText-valid_origins V r.expected_origins origins,
  )
  FitsFlow-check_flow r (other name) h = absurd h

  Transacts : RequestSpec V → Type 0
  Transacts r =
      (r.transaction_data ≡ [])
      ⊎ ((e.enable_transaction_data ≡ true) × All (BeginsWithObject V) r.transaction_data)

  check_transaction_data-Transacts :
      (r : RequestSpec V) → check_transaction_data e r ≡ ok tt → Transacts r
  unfolding check_transaction_data Transacts
  check_transaction_data-Transacts r h = elim (Bool-cases (is_empty r.transaction_data)) [
    | inl t ↦ inl (is_empty-eq r.transaction_data t)
    | inr t ↦ inr (ground arith, validate-BeginsWithObject V r.transaction_data (ground arith))
  ]

  Transacts-check_transaction_data :
      (r : RequestSpec V) → Transacts r → check_transaction_data e r ≡ ok tt
  unfolding check_transaction_data Transacts
  Transacts-check_transaction_data r (inl t) = rw t
  Transacts-check_transaction_data r (inr (on, objects)) =
      rw (on, BeginsWithObject-validate V r.transaction_data objects) (ground arith)

  validate_spec-IsValid : (r : RequestSpec V) → validate_spec e r ≡ ok tt → IsValid r
  unfolding validate_spec Transacts
  validate_spec-IsValid r h = record {
    registered = ground arith;
    asks = is_empty-ne (V.credentials r.query) (ground arith);
    well_formed = ground arith;
    transaction = check_transaction_data-Transacts r (ground arith);
    fits_flow = check_flow-FitsFlow r r.flow (ground arith);
  }

  IsValid-validate_spec : (r : RequestSpec V) → IsValid r → validate_spec e r ≡ ok tt
  unfolding validate_spec Transacts
  IsValid-validate_spec r v = rw (
    v.registered,
    is_empty_of_ne (V.credentials r.query) v.asks,
    v.well_formed,
    Transacts-check_transaction_data r v.transaction,
    FitsFlow-check_flow r r.flow v.fits_flow,
  )

  -- A request spec passes exactly if it is valid: a registration that is not zero, a well-formed
  -- query with a credential, no transaction data or else the flag and a JSON object at the beginning
  -- of each entry, whatever follows the object, and what its flow asks for. By request_uri: an https response URI on the client id's host, no
  -- expected origins, and an https return URI (same device) or none (cross device). By DCAPI: no
  -- URIs, and at least one expected origin, all of them https origins. No other flow passes.
  pub validate_spec_iff : (r : RequestSpec V) → (validate_spec e r ≡ ok tt) ↔ IsValid r
  validate_spec_iff r = (validate_spec-IsValid r, IsValid-validate_spec r)
