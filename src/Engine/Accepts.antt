-- ===== src/Engine/Accepts.antt =====
-- Which configurations `New` accepts, and the engine that it returns.
use mathlib.Core.List.{Mem}
use go_oid4vp.Base.{
  ◌≡◌, ◌≢◌, refl, ◌⊎◌, inl, inr, true, false, not, ◌&&◌, some, [], ◌++◌, All, not-eq-false,
  or-eq-false,
}
use go_oid4vp.Base.Bytes.{Bytes, bytes_eq, is_empty, is_empty-ne, is_empty_of_ne, contains_iff}
use go_oid4vp.Platform.{Platform}
use go_oid4vp.Fault.{ok, >>=-eq-ok, or_fail-eq-ok, refuse_if-eq-ok}
use go_oid4vp.Engine.Checks.{
  check_each-All, All-check_each, key_matches-eq, ec_public_key-eq-ok, is_prefix,
}
use go_oid4vp.Engine.{
  Config, leaf_of, check_identity, check_algorithms, client_id_prefix_x509_san_dns,
}

passes_prefix :
    (p : Bytes)
    → (p ≡ []) ⊎ (p ≡ client_id_prefix_x509_san_dns)
    → (not (is_empty p) && not (bytes_eq p client_id_prefix_x509_san_dns)) ≡ false
passes_prefix p (inl e) = rw e
passes_prefix p (inr e) = rw e (unfold bytes_eq in refl)

module _ {V : Platform} where
  -- The certificate and the signing key belong together, and the name is the certificate's.
  pub record IsIdentified (cfg : Config V) (keys : V.KeyProvider) : Type 0 where
    pub leaf : V.Certificate
    pub key : V.PublicKey
    pub leaf_key : V.PublicKey
    pub key_id : cfg.signing_key_id ≢ []
    pub is_leaf : leaf_of cfg.wrpac_chain ≡ some leaf
    pub named : cfg.client_dns_name ≢ []
    pub prefix :
        (cfg.client_id_prefix ≡ []) ⊎ (cfg.client_id_prefix ≡ client_id_prefix_x509_san_dns)
    pub san : Mem cfg.client_dns_name (V.dns_names leaf)
    pub provided : V.provider_key keys cfg.signing_key_id ≡ some (some key)
    pub certified : V.certificate_key leaf ≡ some leaf_key
    pub same_key : V.public_key_eq key leaf_key ≡ true

  -- Every configured algorithm is one that the policy allows, and none is left out.
  pub record IsAllowed (cfg : Config V) (policy : V.Policy) : Type 0 where
    pub curve : V.allowed_curve policy cfg.response_encryption.curve ≡ true
    pub some_enc : cfg.response_encryption.enc_values ≢ []
    pub enc :
        All
          (λ x. V.allowed_jwe_alg policy cfg.response_encryption.alg x ≡ true)
          cfg.response_encryption.enc_values
    pub some_sdjwt : cfg.vp_formats.sdjwt_alg_values ≢ []
    pub some_kbjwt : cfg.vp_formats.kbjwt_alg_values ≢ []
    pub some_issuer_auth : cfg.vp_formats.mdoc_issuer_auth_alg_values ≢ []
    pub some_device_auth : cfg.vp_formats.mdoc_device_auth_alg_values ≢ []
    pub jws :
        All
          (λ x. V.allowed_jws_alg policy x ≡ true)
          (cfg.vp_formats.sdjwt_alg_values ++ cfg.vp_formats.kbjwt_alg_values)
    pub cose :
        All
          (λ x. V.allowed_cose_alg policy x ≡ true)
          (cfg.vp_formats.mdoc_issuer_auth_alg_values ++ cfg.vp_formats.mdoc_device_auth_alg_values)

  pub check_algorithms-IsAllowed :
      (cfg : Config V) (policy : V.Policy)
      → check_algorithms cfg policy ≡ ok tt
      → IsAllowed cfg policy
  unfolding check_algorithms
  check_algorithms-IsAllowed cfg policy h =
      let (a, curve, h₁) = >>=-eq-ok _ _ h in
      let (b, some_enc, h₂) = >>=-eq-ok _ _ h₁ in
      let (c, enc, h₃) = >>=-eq-ok _ _ h₂ in
      let (d, formats, h₄) = >>=-eq-ok _ _ h₃ in
      let (f, jws, cose) = >>=-eq-ok _ _ h₄ in
      let (three, device) = or-eq-false _ _ (refuse_if-eq-ok _ _ formats) in
      let (two, issuer) = or-eq-false _ _ three in
      let (sdjwt, kbjwt) = or-eq-false _ _ two in
      record {
        curve = not-eq-false _ (refuse_if-eq-ok _ _ curve);
        some_enc = is_empty-ne _ (refuse_if-eq-ok _ _ some_enc);
        enc = check_each-All _ _ _ enc;
        some_sdjwt = is_empty-ne _ sdjwt;
        some_kbjwt = is_empty-ne _ kbjwt;
        some_issuer_auth = is_empty-ne _ issuer;
        some_device_auth = is_empty-ne _ device;
        jws = check_each-All _ _ _ jws;
        cose = check_each-All _ _ _ cose;
      }

  pub IsAllowed-check_algorithms :
      (cfg : Config V) (policy : V.Policy)
      → IsAllowed cfg policy
      → check_algorithms cfg policy ≡ ok tt
  unfolding check_algorithms
  IsAllowed-check_algorithms cfg policy a = rw (
    a.curve,
    is_empty_of_ne _ a.some_enc,
    All-check_each _ _ _ a.enc,
    is_empty_of_ne _ a.some_sdjwt,
    is_empty_of_ne _ a.some_kbjwt,
    is_empty_of_ne _ a.some_issuer_auth,
    is_empty_of_ne _ a.some_device_auth,
    All-check_each _ _ _ a.jws,
    All-check_each _ _ _ a.cose,
  )

  pub check_identity-IsIdentified :
      (cfg : Config V) (keys : V.KeyProvider)
      → check_identity cfg keys ≡ ok tt
      → IsIdentified cfg keys
  unfolding check_identity
  check_identity-IsIdentified cfg keys h =
      let (a, id, h₁) = >>=-eq-ok _ _ h in
      let (leaf, found, h₂) = >>=-eq-ok _ _ h₁ in
      let (b, named, h₃) = >>=-eq-ok _ _ h₂ in
      let (c, prefix, h₄) = >>=-eq-ok _ _ h₃ in
      let (d, san, h₅) = >>=-eq-ok _ _ h₄ in
      let (key, provided, same) = >>=-eq-ok _ _ h₅ in
      let (leaf_key, certified, equal) =
        key_matches-eq V key (V.certificate_key leaf) (not-eq-false _ (refuse_if-eq-ok _ _ same)) in
      record {
        leaf = leaf;
        key = key;
        leaf_key = leaf_key;
        key_id = is_empty-ne _ (refuse_if-eq-ok _ _ id);
        is_leaf = or_fail-eq-ok _ _ found;
        named = is_empty-ne _ (refuse_if-eq-ok _ _ named);
        prefix = is_prefix cfg.client_id_prefix (refuse_if-eq-ok _ _ prefix);
        san =
            (contains_iff (V.dns_names leaf) cfg.client_dns_name).0
              (not-eq-false _ (refuse_if-eq-ok _ _ san));
        provided = ec_public_key-eq-ok V _ key provided;
        certified = certified;
        same_key = equal;
      }

  pub IsIdentified-check_identity :
      (cfg : Config V) (keys : V.KeyProvider)
      → IsIdentified cfg keys
      → check_identity cfg keys ≡ ok tt
  unfolding check_identity
  IsIdentified-check_identity cfg keys i = rw (
    is_empty_of_ne cfg.signing_key_id i.key_id,
    i.is_leaf,
    is_empty_of_ne cfg.client_dns_name i.named,
    passes_prefix cfg.client_id_prefix i.prefix,
    (contains_iff (V.dns_names i.leaf) cfg.client_dns_name).1 i.san,
    i.provided,
    i.certified,
    i.same_key,
  )
