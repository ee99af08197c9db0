-- ===== src/Engine.antt =====
-- engine.go: the configuration and its validation. `time.Now` and `crypto/rand.Reader`, which stand
-- in for a nil clock or source, are the clock and the source of a `Machine` like any other.
pub mod Checks
pub mod Accepts
pub mod New
use go_oid4vp.Base.{
  ℕ, ◌+◌, ◌*◌, Bool, true, false, not, ◌&&◌, ◌||◌, Option, none, some, List, [], ◌∷◌, ◌++◌, ℤ,
  if◌then◌else◌,
}
use go_oid4vp.Base.Bytes.{Bytes, codes, bytes_eq, is_empty, contains, trim_suffix}
use go_oid4vp.Base.Int.{or_default}
use go_oid4vp.Platform.{Platform, Url}
use go_oid4vp.Fault.{
  Error, Result, ok, err, sentinel, foreign, wrap, join, refuse_if, or_fail, ◌>>=◌, ◌>>◌, config,
  san_mismatch, unsupported_client_id_prefix,
}

abbrev pub client_id_prefix_x509_san_dns : Bytes
client_id_prefix_x509_san_dns = codes "x509_san_dns"

-- 5 minutes, in nanoseconds.
abbrev pub default_session_ttl : ℕ
default_session_ttl = 300 * 1_000_000_000

abbrev pub default_max_response_body : ℕ
default_max_response_body = 1_048_576

abbrev pub token_bytes : ℕ
token_bytes = 16

pub record ResponseEncryption : Type 0 where
  pub curve : Bytes
  pub alg : Bytes
  pub enc_values : List Bytes

pub record VpFormats : Type 0 where
  pub sdjwt_alg_values : List Bytes
  pub kbjwt_alg_values : List Bytes
  pub mdoc_issuer_auth_alg_values : List ℤ
  pub mdoc_device_auth_alg_values : List ℤ

-- A nil pointer or interface is `none`. `Clock` and `Rand` are not here: see `Machine`.
pub record Config (V : Platform) : Type 0 where
  pub keys : Option V.KeyProvider
  pub signing_key_id : Bytes
  pub wrpac_chain : List (Option V.Certificate)
  pub client_dns_name : Bytes
  pub client_id_prefix : Bytes
  pub policy : Option V.Policy
  pub request_uri_base : Bytes
  pub request_uri_func : Option (Bytes → Bytes)
  pub universal_link_base : Bytes
  pub session_ttl : ℤ
  pub max_response_body : ℤ
  pub response_encryption : ResponseEncryption
  pub vp_formats : VpFormats
  pub enable_transaction_data : Bool

-- `Engine`, with the fields of its resolved `cfg` beside its own.
pub record Engine (V : Platform) : Type 0 where
  pub keys : V.KeyProvider
  pub signing_key_id : Bytes
  pub wrpac_chain : List (Option V.Certificate)
  pub client_dns_name : Bytes
  pub policy : V.Policy
  pub client_id : Bytes
  pub request_uri_base : Bytes
  pub request_uri_func : Option (Bytes → Bytes)
  pub universal_link_base : Bytes
  pub session_ttl : ℕ
  pub max_response_body : ℕ
  pub response_encryption : ResponseEncryption
  pub vp_formats : VpFormats
  pub enable_transaction_data : Bool

-- `for _, x := range xs { if !allowed(x) { return err } }`.
unfoldable pub check_each {ℓ} : {A : Type ℓ} → (A → Bool) → (A → Error) → List A → Result (Unit {0})
check_each allowed refusal [] = ok tt
check_each allowed refusal (x ∷ xs) =
    let rest = check_each allowed refusal xs in if allowed x then rest else err (refusal x)

-- The leaf, unless the chain is empty or begins with a nil pointer.
unfoldable pub leaf_of {ℓ} : {A : Type ℓ} → List (Option A) → Option A
leaf_of [] = none
leaf_of (c ∷ cs) = c

abbrev config_error : Error
config_error = wrap (sentinel config) []

-- `pub.(*ecdsa.PublicKey)` on what the key provider returns.
abbrev pub ec_public_key {ℓ} : {A : Type ℓ} → Option (Option A) → Result A
ec_public_key none = err (join (sentinel config) foreign)
ec_public_key (some none) = err config_error
ec_public_key (some (some k)) = ok k

abbrev pub is_none {ℓ} : {A : Type ℓ} → Option A → Bool
is_none none = true
is_none (some a) = false

abbrev pub or_else {ℓ} : {A : Type ℓ} → Option A → A → A
or_else none d = d
or_else (some a) d = a

-- The tests on the parsed URL in `validBaseURL`.
unfoldable pub is_base_url : Url → Result (Unit {0})
is_base_url u = do
  refuse_if (not (bytes_eq u.scheme (codes "https")) || is_empty u.host) (wrap foreign [])
  refuse_if (not (is_empty u.raw_query) || not (is_empty u.fragment)) (wrap foreign [])

-- `fmt.Errorf("%w: …: %w", ErrConfig, err)` around the error of a step.
abbrev pub join_config {ℓ} : {A : Type ℓ} → Result A → Result A
join_config (ok a) = ok a
join_config (err e) = err (join (sentinel config) e)

module _ (V : Platform) where
  unfoldable pub valid_base_url : Bytes → Result (Unit {0})
  unfolding is_base_url
  valid_base_url raw = do u ← or_fail (V.parse_url raw) foreign; is_base_url u

  unfoldable pub key_matches : V.PublicKey → Option V.PublicKey → Bool
  key_matches k none = false
  key_matches k (some k') = V.public_key_eq k k'

module _ {V : Platform} where
  -- The checks on the signing identity, up to the leaf's key.
  unfoldable pub check_identity : Config V → V.KeyProvider → Result (Unit {0})
  unfolding key_matches
  check_identity cfg keys = do
    refuse_if (is_empty cfg.signing_key_id) config_error
    leaf ← or_fail (leaf_of cfg.wrpac_chain) config_error
    refuse_if (is_empty cfg.client_dns_name) config_error
    refuse_if
        (not (is_empty cfg.client_id_prefix)
          && not (bytes_eq cfg.client_id_prefix client_id_prefix_x509_san_dns))
        (wrap (sentinel unsupported_client_id_prefix) (cfg.client_id_prefix ∷ []))
    refuse_if (not (contains (V.dns_names leaf) cfg.client_dns_name))
        (wrap (sentinel san_mismatch) (cfg.client_dns_name ∷ V.dns_names leaf))
    k ← ec_public_key (V.provider_key keys cfg.signing_key_id)
    refuse_if (not (key_matches V k (V.certificate_key leaf))) config_error

  -- The checks of the configured algorithms against the policy.
  unfoldable pub check_algorithms : Config V → V.Policy → Result (Unit {0})
  check_algorithms cfg policy = do
    refuse_if (not (V.allowed_curve policy cfg.response_encryption.curve))
        (wrap (sentinel config) (cfg.response_encryption.curve ∷ []))
    refuse_if (is_empty cfg.response_encryption.enc_values) config_error
    check_each (V.allowed_jwe_alg policy cfg.response_encryption.alg)
        (λ enc. wrap (sentinel config) (cfg.response_encryption.alg ∷ enc ∷ []))
        cfg.response_encryption.enc_values
    refuse_if
        (is_empty cfg.vp_formats.sdjwt_alg_values
          || is_empty cfg.vp_formats.kbjwt_alg_values
          || is_empty cfg.vp_formats.mdoc_issuer_auth_alg_values
          || is_empty cfg.vp_formats.mdoc_device_auth_alg_values)
        config_error
    check_each (V.allowed_jws_alg policy) (λ alg. wrap (sentinel config) (alg ∷ []))
        (cfg.vp_formats.sdjwt_alg_values ++ cfg.vp_formats.kbjwt_alg_values)
    check_each (V.allowed_cose_alg policy) (λ alg. config_error)
        (cfg.vp_formats.mdoc_issuer_auth_alg_values ++ cfg.vp_formats.mdoc_device_auth_alg_values)

  unfoldable pub check_urls : Config V → Result (Unit {0})
  check_urls cfg = do
    (if is_none cfg.request_uri_func
        then join_config (valid_base_url V cfg.request_uri_base)
        else ok tt)
    join_config (valid_base_url V cfg.universal_link_base)

  -- The engine that `New` returns when every check has passed.
  unfoldable pub build : Config V → V.KeyProvider → Engine V
  build cfg keys = record {
    keys = keys;
    signing_key_id = cfg.signing_key_id;
    wrpac_chain = cfg.wrpac_chain;
    client_dns_name = cfg.client_dns_name;
    policy = or_else cfg.policy V.eccg;
    client_id = client_id_prefix_x509_san_dns ++ codes ":" ++ cfg.client_dns_name;
    request_uri_base = trim_suffix cfg.request_uri_base b'/';
    request_uri_func = cfg.request_uri_func;
    universal_link_base = cfg.universal_link_base;
    session_ttl = or_default cfg.session_ttl default_session_ttl;
    max_response_body = or_default cfg.max_response_body default_max_response_body;
    response_encryption = cfg.response_encryption;
    vp_formats = cfg.vp_formats;
    enable_transaction_data = cfg.enable_transaction_data;
  }

  unfoldable pub new : Config V → Result (Engine V)
  new cfg = do
    keys ← or_fail cfg.keys config_error
    check_identity cfg keys
    check_algorithms cfg (or_else cfg.policy V.eccg)
    check_urls cfg
    ok (build cfg keys)
