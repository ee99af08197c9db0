-- ===== src/Engine/New.antt =====
-- What `New` returns.
use go_oid4vp.Base.{
  ◌<◌, ◌≡◌, ◌↔◌, sym, ap, subst, refl, Option, none, some, ◌++◌, arith, if◌then◌else◌,
}
use go_oid4vp.Base.Bytes.{Bytes, codes}
use go_oid4vp.Platform.{Platform}
use go_oid4vp.Fault.{Result, ok, err, >>=-eq-ok, or_fail-eq-ok}
use go_oid4vp.Engine.Checks.{
  or_default-pos, IsBaseUrl, valid_base_url-IsBaseUrl, IsBaseUrl-valid_base_url,
}
use go_oid4vp.Engine.Accepts.{
  IsIdentified, IsAllowed, check_algorithms-IsAllowed, IsAllowed-check_algorithms,
  check_identity-IsIdentified, IsIdentified-check_identity,
}
use go_oid4vp.Engine.{
  Config, Engine, valid_base_url, check_urls, build, new, or_else, is_none, join_config,
  default_session_ttl, default_max_response_body,
}

join_config-eq-ok {ℓ} : {A : Type ℓ} (r : Result A) {a : A} → join_config r ≡ ok a → r ≡ ok a
join_config-eq-ok (ok b) h = h
join_config-eq-ok (err e) h = cc

module _ {V : Platform} where
  abbrev pub HasBase : Config V → Option (Bytes → Bytes) → Type 0
  HasBase cfg none = IsBaseUrl V cfg.request_uri_base
  HasBase cfg (some f) = Unit

  -- Everything behind an engine.
  pub record Accepts (cfg : Config V) (e : Engine V) : Type 0 where
    pub keys : V.KeyProvider
    pub given : cfg.keys ≡ some keys
    pub identified : IsIdentified cfg keys
    pub allowed : IsAllowed cfg (or_else cfg.policy V.eccg)
    pub has_base : HasBase cfg cfg.request_uri_func
    pub has_link : IsBaseUrl V cfg.universal_link_base
    pub built : e ≡ build cfg keys

  base_check : Config V → Option (Bytes → Bytes) → Result (Unit {0})
  base_check cfg f =
      if is_none f then join_config (valid_base_url V cfg.request_uri_base) else ok tt

  base_check-HasBase :
      (cfg : Config V) (f : Option (Bytes → Bytes)) → base_check cfg f ≡ ok tt → HasBase cfg f
  unfolding base_check
  base_check-HasBase cfg none h =
      valid_base_url-IsBaseUrl V cfg.request_uri_base (join_config-eq-ok _ h)
  base_check-HasBase cfg (some f) h = tt

  HasBase-base_check :
      (cfg : Config V) (f : Option (Bytes → Bytes)) → HasBase cfg f → base_check cfg f ≡ ok tt
  unfolding base_check
  HasBase-base_check cfg none h = rw (IsBaseUrl-valid_base_url V cfg.request_uri_base h)
  HasBase-base_check cfg (some f) h = refl

  new-Accepts : (cfg : Config V) (e : Engine V) → new cfg ≡ ok e → Accepts cfg e
  unfolding new check_urls base_check
  new-Accepts cfg e h =
      let (keys, given, h₁) = >>=-eq-ok _ _ h in
      let (a, identity, h₂) = >>=-eq-ok _ _ h₁ in
      let (b, algorithms, h₃) = >>=-eq-ok _ _ h₂ in
      let (c, urls, built) = >>=-eq-ok _ _ h₃ in
      let (d, base, link) = >>=-eq-ok _ _ urls in
      record {
        keys = keys;
        given = or_fail-eq-ok _ _ given;
        identified = check_identity-IsIdentified cfg keys identity;
        allowed = check_algorithms-IsAllowed cfg _ algorithms;
        has_base = base_check-HasBase cfg cfg.request_uri_func base;
        has_link = valid_base_url-IsBaseUrl V cfg.universal_link_base (join_config-eq-ok _ link);
        built = cc;
      }

  Accepts-new : (cfg : Config V) (e : Engine V) → Accepts cfg e → new cfg ≡ ok e
  unfolding new check_urls base_check
  Accepts-new cfg e a = simp (
    a.given,
    IsIdentified-check_identity cfg a.keys a.identified,
    IsAllowed-check_algorithms cfg _ a.allowed,
    HasBase-base_check cfg cfg.request_uri_func a.has_base,
    IsBaseUrl-valid_base_url V cfg.universal_link_base a.has_link,
    a.built,
  )

  -- `New` returns an engine exactly if the configuration has a key provider, a signing key that is
  -- the key of the chain's leaf certificate, a DNS name among the leaf's, the one supported prefix
  -- or none, only algorithms that the policy allows with no list left empty, and base URLs that are
  -- absolute https without query and fragment (the request_uri's only where no function supplies
  -- it); it is then the engine built of the configuration, its client_id is "x509_san_dns:" with
  -- the DNS name, and its session lifetime and its body limit are positive.
  pub new_iff :
      (cfg : Config V) (e : Engine V)
      → (new cfg ≡ ok e) ↔ (
          Accepts cfg e
          × (e.client_id ≡ codes "x509_san_dns:" ++ cfg.client_dns_name)
          × (0 < e.session_ttl)
          × (0 < e.max_response_body))
  unfolding build
  new_iff cfg e = (
    (λ h.
        let a = new-Accepts cfg e h in
        (
          a,
          ap (λ x. x.client_id) a.built,
          subst (λ x. 0 < x.session_ttl) (sym a.built)
              (or_default-pos cfg.session_ttl default_session_ttl (omega arith)),
          subst (λ x. 0 < x.max_response_body) (sym a.built)
              (or_default-pos cfg.max_response_body default_max_response_body (omega arith)),
        )),
    (λ h. Accepts-new cfg e h.0),
  )
