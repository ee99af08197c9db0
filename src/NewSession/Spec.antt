-- ===== src/NewSession/Spec.antt =====
-- newsession.go, `validateSpec` and the checks of URLs.
pub mod Texts
pub mod Valid
use go_oid4vp.Base.{Bool, not, ◌&&◌, ◌||◌, List, [], ◌∷◌, if◌then◌else◌}
use go_oid4vp.Base.Bytes.{Bytes, codes, bytes_eq, is_empty}
use go_oid4vp.Platform.{Platform, Url}
use go_oid4vp.Session.{Session, Flow, same_device, cross_device, dcapi, other}
use go_oid4vp.Engine.{Engine}
use go_oid4vp.Transaction.{validate_transaction_data}
use go_oid4vp.Request.Metadata.{is_zero_registration}
use go_oid4vp.Fault.{
  Error, Result, ok, err, sentinel, foreign, wrap, join, refuse_if, or_fail, ◌>>=◌, ◌>>◌, spec,
  no_registration, transaction_data_disabled,
}

pub record RequestSpec (V : Platform) : Type 0 where
  pub query : V.Query
  pub flow : Flow
  pub response_uri : Bytes
  pub return_uri : Bytes
  pub registration : V.Registration
  pub wrprc : Bytes
  pub transaction_data : List Bytes
  pub expected_origins : List Bytes

abbrev spec_error : Error
spec_error = wrap (sentinel spec) []

-- `fmt.Errorf("%w: …: %w", ErrSpec, err)` around the error of a step.
abbrev pub join_spec {ℓ} : {A : Type ℓ} → Result A → Result A
join_spec (ok a) = ok a
join_spec (err e) = err (join (sentinel spec) e)

-- The tests of `validHTTPSURL` and of `validOrigin` on a parsed URL.
abbrev pub is_https : Url → Bool
is_https u = bytes_eq u.scheme (codes "https") && not (is_empty u.host)

abbrev pub is_origin : Url → Bool
is_origin u =
    is_https u && is_empty u.path && is_empty u.raw_query && is_empty u.fragment && not u.has_user

module _ (V : Platform) where
  unfoldable pub valid_https_url : Bytes → Result (Unit {0})
  valid_https_url raw = do
    refuse_if (is_empty raw) (wrap foreign [])
    u ← or_fail (V.parse_url raw) foreign
    refuse_if (not (is_https u)) (wrap foreign [])

  unfoldable pub valid_origin : Bytes → Result (Unit {0})
  valid_origin raw = do
    u ← or_fail (V.parse_url raw) foreign
    refuse_if (not (is_origin u)) (wrap foreign [])

  -- The loop over the origins.
  unfoldable pub valid_origins : List Bytes → Result (Unit {0})
  valid_origins [] = ok tt
  valid_origins (o ∷ os) = let rest = valid_origins os in do join_spec (valid_origin o); rest

module _ {V : Platform} where
  unfoldable pub valid_response_uri : Engine V → Bytes → Result (Unit {0})
  valid_response_uri e raw = do
    join_spec (valid_https_url V raw)
    u ← or_fail (V.parse_url raw) (join (sentinel spec) foreign)
    refuse_if (not (bytes_eq u.hostname e.client_dns_name))
        (wrap (sentinel spec) (u.hostname ∷ e.client_dns_name ∷ []))

  -- `case SameDevice, CrossDevice`, up to the return URI.
  unfoldable pub check_by_uri : Engine V → RequestSpec V → Result (Unit {0})
  check_by_uri e r = do
    valid_response_uri e r.response_uri
    refuse_if (not (is_empty r.expected_origins)) spec_error

  unfoldable pub check_flow : Engine V → RequestSpec V → Flow → Result (Unit {0})
  unfolding check_by_uri
  check_flow e r same_device = do check_by_uri e r; join_spec (valid_https_url V r.return_uri)
  check_flow e r cross_device = do
    check_by_uri e r
    refuse_if (not (is_empty r.return_uri)) spec_error
  check_flow e r dcapi = do
    refuse_if (not (is_empty r.response_uri) || not (is_empty r.return_uri)) spec_error
    refuse_if (is_empty r.expected_origins) spec_error
    valid_origins V r.expected_origins
  check_flow e r (other name) = err (wrap (sentinel spec) (name ∷ []))

  unfoldable pub check_transaction_data : Engine V → RequestSpec V → Result (Unit {0})
  check_transaction_data e r = if is_empty r.transaction_data then ok tt else (do
    refuse_if (not e.enable_transaction_data) (sentinel transaction_data_disabled)
    validate_transaction_data V r.transaction_data)

  unfoldable pub validate_spec : Engine V → RequestSpec V → Result (Unit {0})
  unfolding check_transaction_data
  validate_spec e r = do
    refuse_if (is_zero_registration V r.registration) (sentinel no_registration)
    refuse_if (is_empty (V.credentials r.query)) spec_error
    refuse_if (not (V.is_valid_query r.query)) (join (sentinel spec) foreign)
    check_transaction_data e r
    check_flow e r r.flow
