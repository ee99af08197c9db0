-- ===== src/NewSession/Fresh.antt =====
-- What a new session holds.
use mathlib.Core.Path.{subst₂}
use go_oid4vp.Base.{
  ℕ, zero, suc, ◌+◌, ◌≤◌, ◌≡◌, ◌∙◌, refl, subst, sym, ap, false, some, [], arith, length, take,
  drop,
}
use go_oid4vp.Base.Bytes.{Bytes}
use go_oid4vp.Base64.{encode}
use go_oid4vp.Platform.{Platform}
use go_oid4vp.Session.{Session}
use go_oid4vp.Engine.{Engine, token_bytes}
use go_oid4vp.Fault.{Result, ok, or_fail-eq-ok}
use go_oid4vp.Machine.{Machine, now, rand_token}
use go_oid4vp.Machine.Laws.{continue-eq-ok}
use go_oid4vp.Response.{is_dcapi}
use go_oid4vp.NewSession.{
  WalletInvocation, session_of, make_session, invocation, link_invocation, new_session,
}
use go_oid4vp.NewSession.Spec.{RequestSpec, validate_spec}
use go_oid4vp.NewSession.Spec.Valid.{IsValid, validate_spec_iff}

-- Three runs of 16 bytes at the head of a source.
abbrev pub chunk : ℕ → Bytes → Bytes
chunk zero bs = take token_bytes bs
chunk (suc n) bs = chunk n (drop token_bytes bs)

module _ {V : Platform} where
  rand_token-eq-ok :
      (w w' : Machine V) (t : Bytes)
      → rand_token token_bytes w ≡ (ok t, w')
      → (token_bytes ≤ length w.random)
        × (t ≡ encode (take token_bytes w.random))
        × (w' ≡ record w { random = drop token_bytes w.random })
  unfolding rand_token
  rand_token-eq-ok w w' t h = ground arith

  -- Field by field, what the session takes from the engine, the spec, its secrets, its key and the
  -- clock.
  pub record IsOf (e : Engine V) (spec : RequestSpec V) (id nonce state der : Bytes) (t : ℕ)
      (s : Session V) : Type 0 where
    pub named : s.id ≡ id
    pub flow : s.flow ≡ spec.flow
    pub client_id : s.client_id ≡ e.client_id
    pub nonce_set : s.nonce ≡ nonce
    pub state_set : s.state ≡ state
    pub response_uri : s.response_uri ≡ spec.response_uri
    pub return_uri : s.return_uri ≡ spec.return_uri
    pub query : s.query ≡ spec.query
    pub registration : s.registration ≡ spec.registration
    pub wrprc : s.wrprc ≡ spec.wrprc
    pub transaction_data : s.transaction_data ≡ spec.transaction_data
    pub expected_origins : s.expected_origins ≡ spec.expected_origins
    pub own_key : s.ephemeral_key_pkcs8 ≡ der
    pub created : s.created_at ≡ t
    pub expires : s.expires_at ≡ t + e.session_ttl
    pub unserved : s.request_object_served ≡ false
    pub no_metadata : s.wallet_metadata ≡ []
    pub unconsumed : s.consumed ≡ false
    pub no_code : s.response_code ≡ []
    pub unused : s.response_code_used ≡ false

  session_of-IsOf :
      (e : Engine V) (spec : RequestSpec V) (id nonce state der : Bytes) (t : ℕ)
      → IsOf e spec id nonce state der t (session_of e spec id nonce state der t)
  unfolding session_of
  session_of-IsOf e spec id nonce state der t = record {
    named = refl;
    flow = refl;
    client_id = refl;
    nonce_set = refl;
    state_set = refl;
    response_uri = refl;
    return_uri = refl;
    query = refl;
    registration = refl;
    wrprc = refl;
    transaction_data = refl;
    expected_origins = refl;
    own_key = refl;
    created = refl;
    expires = refl;
    unserved = refl;
    no_metadata = refl;
    unconsumed = refl;
    no_code = refl;
    unused = refl;
  }

  -- The session's secrets are three successive runs of 16 random bytes, its key is the fresh one.
  pub record Makes (e : Engine V) (spec : RequestSpec V) (entropy : ℕ) (w : Machine V)
      (s : Session V) : Type 0 where
    pub der : Bytes
    pub key : V.PrivateKey
    pub enough :
        (token_bytes ≤ length w.random)
        × (token_bytes ≤ length (drop token_bytes w.random))
        × (token_bytes ≤ length (drop token_bytes (drop token_bytes w.random)))
    pub generated : V.generate_ephemeral_key e.response_encryption.curve entropy ≡ some key
    pub stored : V.marshal_pkcs8 key ≡ some der
    pub holds :
        IsOf e spec
          (encode (chunk 0 w.random))
          (encode (chunk 1 w.random))
          (encode (chunk 2 w.random))
          der
          (w.clock 0)
          s
    pub literal :
        s
        ≡ session_of e spec
            (encode (chunk 0 w.random))
            (encode (chunk 1 w.random))
            (encode (chunk 2 w.random))
            der
            (w.clock 0)

  make_session-Makes :
      (e : Engine V) (spec : RequestSpec V) (entropy : ℕ) (w w' : Machine V) (s : Session V)
      → make_session e spec entropy w ≡ (ok s, w')
      → Makes e spec entropy w s
  unfolding make_session now
  make_session-Makes e spec entropy w w' s h =
      let (id, w₁, i, h₁) = continue-eq-ok (rand_token token_bytes w) _ h in
      let (nonce, w₂, n, h₂) = continue-eq-ok (rand_token token_bytes w₁) _ h₁ in
      let (state, w₃, st, h₃) = continue-eq-ok (rand_token token_bytes w₂) _ h₂ in
      let (key, w₄, k, h₄) = continue-eq-ok _ _ h₃ in
      let (der, w₅, d, h₅) = continue-eq-ok _ _ h₄ in
      let a = rand_token-eq-ok w w₁ id i in
      let b = rand_token-eq-ok w₁ w₂ nonce n in
      let c = rand_token-eq-ok w₂ w₃ state st in
      let r₁ : w₁.random ≡ drop token_bytes w.random = ap (λ (v : Machine V). v.random) a.2 in
      let r₂ : w₂.random ≡ drop token_bytes (drop token_bytes w.random) =
        ap (λ (v : Machine V). v.random) b.2 ∙ ap (drop token_bytes) r₁ in
      let e₄ : w₄ ≡ w₃ = sym (ap (λ (p : Result V.PrivateKey × Machine V). p.1) k) in
      let e₅ : w₅ ≡ w₄ = sym (ap (λ (p : Result Bytes × Machine V). p.1) d) in
      let first = λ (v : Machine V). v.clock 0 in
      let clock : w₅.clock 0 ≡ w.clock 0 =
        ap first (e₅ ∙ e₄) ∙ ap first c.2 ∙ ap first b.2 ∙ ap first a.2 in
      let nonce-eq : nonce ≡ encode (chunk 1 w.random) =
        b.1 ∙ ap (λ (r : Bytes). encode (take token_bytes r)) r₁ in
      let state-eq : state ≡ encode (chunk 2 w.random) =
        c.1 ∙ ap (λ (r : Bytes). encode (take token_bytes r)) r₂ in
      let made : session_of e spec id nonce state der (w₅.clock 0) ≡ s = ground arith in
      let whole =
        sym made ∙ λ i. session_of e spec (a.1 i) (nonce-eq i) (state-eq i) der (clock i) in
      record {
        holds =
            subst (IsOf e spec _ _ _ der (w.clock 0)) (sym whole)
              (session_of-IsOf e spec _ _ _ der _);
        der = der;
        key = key;
        enough = (a.0, rw (← r₁) b.0, rw (← r₂) c.0);
        generated = or_fail-eq-ok _ _ (ap (λ (p : Result V.PrivateKey × Machine V). p.0) k);
        stored = or_fail-eq-ok _ _ (ap (λ (p : Result Bytes × Machine V). p.0) d);
        literal = whole;
      }

  invocation-eq-ok :
      (e : Engine V) (s : Session V) (w w' : Machine V) (inv : WalletInvocation)
      → is_dcapi s.flow ≡ false
      → invocation e s w ≡ (ok inv, w')
      → inv ≡ link_invocation e s
  unfolding invocation
  invocation-eq-ok e s w w' inv f h = ground arith

  -- A new session comes from a valid spec. Its id, nonce and state are the encodings of three
  -- successive runs of 16 bytes of the random source, its key is the one generated for it; its
  -- flow, URIs, query, registration, certificates, transaction data and expected origins are the
  -- spec's and its client_id the engine's; it is made at the clock's reading, expires after the
  -- engine's lifetime, is neither served nor consumed, and has no wallet metadata and no code, used
  -- or not. And unless it is of the DCAPI flow, its
  -- invocation is the link to its request_uri.
  pub new_session-Makes :
      (e : Engine V) (spec : RequestSpec V) (entropy : ℕ) (w w' : Machine V) (s : Session V)
      (inv : WalletInvocation)
      → new_session e spec entropy w ≡ (ok (s, inv), w')
      → IsValid e spec
        × Makes e spec entropy w s
        × (is_dcapi s.flow ≡ false → inv ≡ link_invocation e s)
  unfolding new_session
  new_session-Makes e spec entropy w w' s inv h =
      let (u, v, valid, h₁) = continue-eq-ok (validate_spec e spec, w) _ h in
      let (t, v₁, made, h₂) = continue-eq-ok (make_session e spec entropy v) _ h₁ in
      let (i, v₂, invoked, h₃) = continue-eq-ok (invocation e t v₁) _ h₂ in
      let v-eq : v ≡ w = ground arith in
      let t-eq : t ≡ s = ground arith in
      let i-eq : i ≡ inv = ground arith in
      (
        (validate_spec_iff e spec).0 (ground arith),
        subst₂ (Makes e spec entropy) v-eq t-eq (make_session-Makes e spec entropy v v₁ t made),
        λ f.
            sym i-eq
            ∙ invocation-eq-ok e t v₁ v₂ i (ap (λ (x : Session V). is_dcapi x.flow) t-eq ∙ f)
                invoked
            ∙ ap (link_invocation e) t-eq,
      )
