-- ===== src/Exchange/Fetches.antt =====
-- The fetch of a new session's Request Object.
use go_oid4vp.Base.{
  ℕ, ◌+◌, ◌*◌, ◌/◌, ◌<◌, ◌≡◌, ◌∙◌, ap, refl, true, false, some, arith, length, ◌==◌, lt→ltb,
}
use go_oid4vp.Base.Bytes.{Bytes}
use go_oid4vp.Json.{Json, Members, obj}
use go_oid4vp.Platform.{Platform}
use go_oid4vp.Session.{Session, ephemeral_private_key}
use go_oid4vp.Engine.{Engine}
use go_oid4vp.Fault.{ok}
use go_oid4vp.Machine.{Machine, session, now, assign}
use go_oid4vp.Response.{is_dcapi}
use go_oid4vp.Request.{admit_request, request_object_jwt, mark_served, typ_oauth_authz_req}
use go_oid4vp.Request.Metadata.{
  registration_claim, client_metadata, ephemeral_jwk, is_zero_registration,
}
use go_oid4vp.Request.Claims.{request_claims}
use go_oid4vp.NewSession.{WalletInvocation, new_session, session_of}
use go_oid4vp.NewSession.Spec.{RequestSpec}
use go_oid4vp.NewSession.Fresh.{new_session-Makes}
use go_oid4vp.Exchange.{Wallet}

module _ (V : Platform) where
  ephemeral_jwk_ok :
      (k : V.PublicKey) (alg kid point : Bytes)
      → V.ecdh_point k ≡ some point
      → length point ≡ 1 + 2 * ((V.curve_bits k + 7) / 8)
      → (jwk : Json) × (ephemeral_jwk V k alg kid ≡ ok jwk)
  unfolding ephemeral_jwk
  ephemeral_jwk_ok k alg kid point p n =
      let fits : (length point == 1 + 2 * ((V.curve_bits k + 7) / 8)) ≡ true = ground arith in
      rw (p, fits) (_, refl)

module _ {V : Platform} where
  -- What the libraries do for the engine and the session: the registration has claims, the key is
  -- an uncompressed point of its curve, claims can be marshalled and signed.
  pub record CanSign (e : Engine V) (s : Session V) (k : V.PrivateKey) : Type 0 where
    pub registration : Json
    pub point : Bytes
    pub payload : Members → Bytes
    pub token : Bytes → Bytes
    pub claims : V.registration_claims s.registration ≡ some registration
    pub has_point : V.ecdh_point (V.public_key k) ≡ some point
    pub uncompressed : length point ≡ 1 + 2 * ((V.curve_bits (V.public_key k) + 7) / 8)
    pub marshals : (c : Members) → V.json_marshal (obj c) ≡ some (payload c)
    pub signs :
        (p : Bytes)
        → V.sign_jws e.keys e.signing_key_id typ_oauth_authz_req e.wrpac_chain p ≡ some (token p)

  client_metadata_ok :
      (e : Engine V) (s : Session V) (k : V.PrivateKey) (jwk : Json)
      → V.parse_pkcs8 s.ephemeral_key_pkcs8 ≡ some (some k)
      → ephemeral_jwk V (V.public_key k) e.response_encryption.alg s.id ≡ ok jwk
      → (cm : Json) × (client_metadata e s ≡ ok cm)
  unfolding client_metadata ephemeral_private_key
  client_metadata_ok e s k jwk own made = rw (own, made) (_, refl)

  registration_claim_ok :
      (s : Session V) (reg : Json)
      → is_zero_registration V s.registration ≡ false
      → V.registration_claims s.registration ≡ some reg
      → registration_claim s ≡ ok reg
  unfolding registration_claim
  registration_claim_ok s reg given claims = rw (given, claims)

  request_object_jwt_returns :
      (e : Engine V) (s : Session V) (k : V.PrivateKey) (w : Machine V)
      → CanSign e s k
      → V.parse_pkcs8 s.ephemeral_key_pkcs8 ≡ some (some k)
      → is_zero_registration V s.registration ≡ false
      → is_dcapi s.flow ≡ false
      → s.request_object_served ≡ false
      → w.session ≡ some s
      → w.clock 0 < s.expires_at
      → (tok : Bytes) × (w' : Machine V) × (request_object_jwt e w ≡ (ok tok, w'))
        × (w'.session ≡ some (mark_served s))
  unfolding request_object_jwt admit_request session now request_claims assign registration_claim
      client_metadata ephemeral_private_key
  request_object_jwt_returns e s k w can own registered flow unserved found soon =
      let (jwk, j) =
        ephemeral_jwk_ok V (V.public_key k) e.response_encryption.alg s.id can.point can.has_point
          can.uncompressed in
      let (cm, c) = client_metadata_ok e s k jwk own j in
      let r = registration_claim_ok s can.registration registered can.claims in
      rw (found, flow, lt→ltb _ _ soon, unserved, r, c, can.marshals, can.signs) (_, _, refl, refl)

  -- A wallet that comes in time gets its request. For a new session of a request_uri flow, whose
  -- registration has claims, whose key comes back from its PKCS#8 form and is an uncompressed
  -- point of its curve, and whose claims can be marshalled and signed, the first call of
  -- `RequestObjectJWT` before the session expires returns a token and marks the session as
  -- served.
  pub new_request_served :
      (a : Wallet V) (e : Engine V) (spec : RequestSpec V) (entropy : ℕ) (w w' v : Machine V)
      (s : Session V) (inv : WalletInvocation) (k : V.PrivateKey)
      → new_session e spec entropy w ≡ (ok (s, inv), w')
      → V.generate_ephemeral_key e.response_encryption.curve entropy ≡ some k
      → CanSign e s k
      → is_dcapi s.flow ≡ false
      → v.session ≡ some s
      → v.clock 0 < s.expires_at
      → (tok : Bytes) × (v' : Machine V) × (request_object_jwt e v ≡ (ok tok, v'))
        × (v'.session ≡ some (mark_served s))
  unfolding session_of
  new_request_served a e spec entropy w w' v s inv k made key can flow found soon =
      let (valid, makes, invoked) = new_session-Makes e spec entropy w w' s inv made in
      let same : makes.key ≡ k = ground (arith, makes.generated) in
      let own : V.parse_pkcs8 s.ephemeral_key_pkcs8 ≡ some (some k) =
        ap (λ (u : Session V). V.parse_pkcs8 u.ephemeral_key_pkcs8) makes.literal
        ∙ a.key_kept makes.key makes.der makes.stored
        ∙ ap (λ (x : V.PrivateKey). some (some x)) same in
      let registered : is_zero_registration V s.registration ≡ false =
        ap (λ (u : Session V). is_zero_registration V u.registration) makes.literal
        ∙ valid.registered in
      request_object_jwt_returns e s k v can own registered flow
        (ap (λ (u : Session V). u.request_object_served) makes.literal) found soon
