-- ===== src/Dcapi/Says.antt =====
-- What the requests by the Digital Credentials API say.
use go_oid4vp.Base.{ℕ, ◌<◌, ◌≡◌, ap, sym, subst, ltb, not, true, false, Option, some, [], arith}
use go_oid4vp.Base.Bytes.{Bytes}
use go_oid4vp.Json.{Json, obj, Members}
use go_oid4vp.Platform.{Platform}
use go_oid4vp.Session.{Session}
use go_oid4vp.Engine.{Engine}
use go_oid4vp.Fault.{
  join, config, session_invalid, foreign, wrap, sentinel, flow_mismatch, session_expired, Error,
  Result, ok, or_fail, or_fail-eq-ok,
}
use go_oid4vp.Machine.{Machine, lift, refuse_when, now}
use go_oid4vp.Machine.Laws.{continue-eq-ok}
use go_oid4vp.Response.{is_dcapi}
use go_oid4vp.Request.{typ_oauth_authz_req}
use go_oid4vp.Request.Metadata.{registration_claim, client_metadata, is_zero_registration}
use go_oid4vp.Request.Says.{registration_claim-eq-ok}
use go_oid4vp.Dcapi.{
  with_signed_claims, unsigned_claims, dcapi_claims, dcapi_request, dcapi_unsigned_request,
}
use go_oid4vp.Dcapi.Wording.{
  SaysUnsigned, signed_wrapper, unsigned_wrapper, SaysCommon, SaysSigned,
  unsigned_claims-SaysCommon, unsigned_claims-SaysUnsigned, with_signed_claims-SaysSigned,
  with_signed_claims-SaysCommon,
}

module _ {V : Platform} where
  lifted :
      {X : Type 0} (o : Option X) (x : Error) (w v : Machine V) {a : X}
      → lift (or_fail o x) w ≡ (ok a, v)
      → (o ≡ some a) × (v ≡ w)
  lifted {X = X} o x w v h = (
    or_fail-eq-ok o x (ap (λ (r : Result X × Machine V). r.0) h),
    sym (ap (λ (r : Result X × Machine V). r.1) h),
  )

  -- What stands behind the claims of a signed request.
  signed_claims :
      (e : Engine V) (s : Session V) (w w' : Machine V) (claims : Members)
      → dcapi_claims e s true w ≡ (ok claims, w')
      → (reg : Json) × (registration_claim s ≡ ok reg)
        × SaysCommon s reg claims
        × SaysSigned e s (w.clock 0) claims
  unfolding dcapi_claims now
  signed_claims e s w w' claims h =
      let (reg, v, r, h₁) = continue-eq-ok (registration_claim s, w) _ h in
      let (cm, v', c, h₂) = continue-eq-ok (client_metadata e s, v) _ h₁ in
      let vw : v' ≡ w = ground arith in
      let made : with_signed_claims e s (v'.clock 0) (unsigned_claims e s reg cm) ≡ claims =
        ground arith in
      (
        reg,
        ground arith,
        subst (λ m. SaysCommon s reg m) made
            (with_signed_claims-SaysCommon e s reg (v'.clock 0) _
              (unsigned_claims-SaysCommon e s reg cm)),
        subst (λ (u : Machine V). SaysSigned e s (u.clock 0) claims) vw
            (subst (λ m. SaysSigned e s (v'.clock 0) m) made
              (with_signed_claims-SaysSigned e s (v'.clock 0) (unsigned_claims e s reg cm))),
      )

  plain_claims :
      (e : Engine V) (s : Session V) (w w' : Machine V) (claims : Members)
      → dcapi_claims e s false w ≡ (ok claims, w')
      → (reg : Json) × (registration_claim s ≡ ok reg)
        × SaysCommon s reg claims
        × SaysUnsigned claims
  unfolding dcapi_claims
  plain_claims e s w w' claims h =
      let (reg, v, r, h₁) = continue-eq-ok (registration_claim s, w) _ h in
      let (cm, v', c, h₂) = continue-eq-ok (client_metadata e s, v) _ h₁ in
      let made : unsigned_claims e s reg cm ≡ claims = ground arith in
      (
        reg,
        ground arith,
        subst (λ m. SaysCommon s reg m) made (unsigned_claims-SaysCommon e s reg cm),
        subst (λ m. SaysUnsigned m) made (unsigned_claims-SaysUnsigned e s reg cm),
      )

  -- The two checks of a signed request, with the reading of the clock between them.
  passed :
      (s : Session V) (t : ℕ) (w v v₁ v₂ v₃ : Machine V) {a b : Unit {0}}
      → v ≡ w
      → refuse_when (not (is_dcapi s.flow)) (wrap (sentinel flow_mismatch) []) v ≡ (ok a, v₁)
      → now v₁ ≡ (ok t, v₂)
      → refuse_when (not (ltb t s.expires_at)) (sentinel session_expired) v₂ ≡ (ok b, v₃)
      → (is_dcapi s.flow ≡ true) × (w.clock 0 < s.expires_at) × (v₃.clock 0 ≡ w.clock 1)
  unfolding now
  passed s t w v v₁ v₂ v₃ same flow read unexpired = ground arith

  -- A result of `DCAPIRequest` is for an unexpired session of the DCAPI flow with a registration that
  -- is not zero. It wraps, under its protocol's name, the signature with the engine's key and
  -- certificates of claims that say: a vp_token by dc_api.jwt, the session's nonce, query and
  -- registration, the client_id, the expected origins, who asks whom from when to when, and
  -- neither a state nor a response or redirect URI.
  pub dcapi_request-Says :
      (e : Engine V) (p : Option (Session V)) (w w' : Machine V) (out : Bytes)
      → dcapi_request e p w ≡ (ok out, w')
      → (s : Session V) × (reg : Json) × (claims : Members) × (payload : Bytes) × (tok : Bytes) × (p
          ≡ some s)
        × (is_dcapi s.flow ≡ true)
        × (w.clock 0 < s.expires_at)
        × (is_zero_registration V s.registration ≡ false)
        × (V.registration_claims s.registration ≡ some reg)
        × (V.json_marshal (obj claims) ≡ some payload)
        × (V.sign_jws e.keys e.signing_key_id typ_oauth_authz_req e.wrpac_chain payload ≡ some tok)
        × (V.json_marshal (signed_wrapper tok) ≡ some out)
        × SaysCommon s reg claims
        × SaysSigned e s (w.clock 1) claims
  unfolding dcapi_request
  dcapi_request-Says e p w w' out h =
      let (s, v, given, h₁) = continue-eq-ok (lift (or_fail p (sentinel session_invalid)) w) _ h in
      let (a, v₁, flow, h₂) =
        continue-eq-ok (refuse_when (not (is_dcapi s.flow)) (wrap (sentinel flow_mismatch) []) v) _
          h₁ in
      let (t, v₂, read, h₃) = continue-eq-ok (now v₁) _ h₂ in
      let (b, v₃, unexpired, h₄) =
        continue-eq-ok (refuse_when (not (ltb t s.expires_at)) (sentinel session_expired) v₂) _
          h₃ in
      let (claims, v₄, claimed, h₅) = continue-eq-ok (dcapi_claims e s true v₃) _ h₄ in
      let (payload, v₅, marshaled, h₆) =
        continue-eq-ok
          (lift (or_fail (V.json_marshal (obj claims)) (join (sentinel config) foreign)) v₄) _ h₅ in
      let (tok, v₆, signed, h₇) =
        continue-eq-ok
          (lift
            (or_fail (V.sign_jws e.keys e.signing_key_id typ_oauth_authz_req e.wrpac_chain payload)
              foreign)
            v₅)
          _ h₆ in
      let (reg, registered, common, by) = signed_claims e s v₃ v₄ claims claimed in
      let r = registration_claim-eq-ok s reg registered in
      let (flow-eq, unexpired-eq, clock) =
        passed s t w v v₁ v₂ v₃ (lifted p (sentinel session_invalid) w v given).1 flow read
          unexpired in
      (
        s,
        reg,
        claims,
        payload,
        tok,
        (lifted p (sentinel session_invalid) w v given).0,
        flow-eq,
        unexpired-eq,
        r.0,
        r.1,
        (lifted (V.json_marshal (obj claims)) (join (sentinel config) foreign) v₄ v₅ marshaled).0,
        (lifted (V.sign_jws e.keys e.signing_key_id typ_oauth_authz_req e.wrpac_chain payload)
            foreign v₅ v₆ signed).0,
        (lifted (V.json_marshal (signed_wrapper tok)) foreign v₆ w' h₇).0,
        common,
        subst (λ u. SaysSigned e s u claims) clock by,
      )

  -- A result of `DCAPIUnsignedRequest` is for a session of the DCAPI flow with a registration that is
  -- not zero. It wraps, under its protocol's name, claims that say the same of the response, the
  -- nonce, the query and the registration, but neither client_id, nor expected_origins, nor iss.
  pub dcapi_unsigned_request-Says :
      (e : Engine V) (p : Option (Session V)) (w w' : Machine V) (out : Bytes)
      → dcapi_unsigned_request e p w ≡ (ok out, w')
      → (s : Session V) × (reg : Json) × (claims : Members) × (p ≡ some s)
        × (is_dcapi s.flow ≡ true)
        × (is_zero_registration V s.registration ≡ false)
        × (V.registration_claims s.registration ≡ some reg)
        × (V.json_marshal (unsigned_wrapper claims) ≡ some out)
        × SaysCommon s reg claims
        × SaysUnsigned claims
  unfolding dcapi_unsigned_request
  dcapi_unsigned_request-Says e p w w' out h =
      let (s, v, given, h₁) = continue-eq-ok (lift (or_fail p (sentinel session_invalid)) w) _ h in
      let (a, v₁, flow, h₂) =
        continue-eq-ok (refuse_when (not (is_dcapi s.flow)) (wrap (sentinel flow_mismatch) []) v) _
          h₁ in
      let (claims, v₂, claimed, h₃) = continue-eq-ok (dcapi_claims e s false v₁) _ h₂ in
      let (reg, registered, common, plain) = plain_claims e s v₁ v₂ claims claimed in
      let r = registration_claim-eq-ok s reg registered in
      (
        s,
        reg,
        claims,
        (lifted p (sentinel session_invalid) w v given).0,
        ground arith,
        r.0,
        r.1,
        (lifted (V.json_marshal (unsigned_wrapper claims)) foreign v₂ w' h₃).0,
        common,
        plain,
      )
