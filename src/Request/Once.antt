-- ===== src/Request/Once.antt =====
-- How often a Request Object is handed out, and what stands behind one.
use go_oid4vp.Base.{◌<◌, ◌≡◌, ◌∙◌, sym, ap, false, some, arith, if◌then◌else◌, ltb}
use go_oid4vp.Base.Bytes.{Bytes}
use go_oid4vp.Json.{Json, obj, Members}
use go_oid4vp.Platform.{Platform}
use go_oid4vp.Session.{Session}
use go_oid4vp.Engine.{Engine}
use go_oid4vp.Fault.{
  Result, ok, err, Error, sentinel, session_expired, request_uri_consumed, or_fail-eq-ok,
}
use go_oid4vp.Machine.{Machine, session, now, assign}
use go_oid4vp.Machine.Laws.{continue-eq-ok}
use go_oid4vp.Response.{is_dcapi}
use go_oid4vp.Response.Process.Sound.{ticked}
use go_oid4vp.Request.{admit_request, request_object_jwt, mark_served, typ_oauth_authz_req}
use go_oid4vp.Request.Metadata.{client_metadata, registration_claim}
use go_oid4vp.Request.Claims.{request_claims, full_claims}

module _ {V : Platform} where
  -- The session may be handed out: it is there, not of the DCAPI flow, unexpired and not served.
  pub record Admits (w : Machine V) (s : Session V) : Type 0 where
    pub pointed : w.session ≡ some s
    pub flow : is_dcapi s.flow ≡ false
    pub unexpired : w.clock 0 < s.expires_at
    pub unserved : s.request_object_served ≡ false

  admit_request-Admits :
      (w w' : Machine V) (s : Session V)
      → admit_request w ≡ (ok s, w')
      → Admits w s × (w' ≡ ticked w)
  unfolding admit_request session now
  admit_request-Admits w w' s h = ground arith

  request_claims-eq-ok :
      (e : Engine V) (s : Session V) (w w' : Machine V) (claims : Members)
      → request_claims e s w ≡ (ok claims, w')
      → (reg : Json) × (cm : Json) × (registration_claim s ≡ ok reg)
        × (client_metadata e s ≡ ok cm)
        × (claims ≡ full_claims e s reg cm (w.clock 0))
        × (w' ≡ ticked w)
  unfolding request_claims now
  request_claims-eq-ok e s w w' claims h =
      let (reg, v, r, h₁) = continue-eq-ok (registration_claim s, w) _ h in
      let (cm, v', c, h₂) = continue-eq-ok (client_metadata e s, v) _ h₁ in
      let vw : v ≡ w = ground arith in
      let vw' : v' ≡ w = ground arith in
      (reg, cm, ground arith, ground arith, ground arith, ground arith)

  -- What stands behind a token: the claims that were signed, and the machine after it.
  pub record Issues (e : Engine V) (w : Machine V) (tok : Bytes) (w' : Machine V) : Type 0 where
    pub s : Session V
    pub reg : Json
    pub cm : Json
    pub payload : Bytes
    pub admits : Admits w s
    pub registered : registration_claim s ≡ ok reg
    pub metadata : client_metadata e s ≡ ok cm
    pub marshals : V.json_marshal (obj (full_claims e s reg cm (w.clock 1))) ≡ some payload
    pub signs :
        V.sign_jws e.keys e.signing_key_id typ_oauth_authz_req e.wrpac_chain payload ≡ some tok
    pub served : w' ≡ record (ticked (ticked w)) { session = some (mark_served s) }

  pub request_object_jwt-Issues :
      (e : Engine V) (w w' : Machine V) (tok : Bytes)
      → request_object_jwt e w ≡ (ok tok, w')
      → Issues e w tok w'
  unfolding request_object_jwt assign
  request_object_jwt-Issues e w w' tok h =
      let (s, v, admitted, h₁) = continue-eq-ok (admit_request w) _ h in
      let a = admit_request-Admits w v s admitted in
      let (claims, v', built, h₂) = continue-eq-ok (request_claims e s v) _ h₁ in
      let (reg, cm, registered, metadata, c, t) = request_claims-eq-ok e s v v' claims built in
      let (payload, v₂, marshaled, h₃) = continue-eq-ok _ _ h₂ in
      let (tok', v₃, signed, h₄) = continue-eq-ok _ _ h₃ in
      let claims-eq : full_claims e s reg cm (w.clock 1) ≡ claims =
        sym (c ∙ ap (λ (u : Machine V). full_claims e s reg cm (u.clock 0)) a.1) in
      let marshal-eq = or_fail-eq-ok _ _ (ap (λ (p : Result Bytes × Machine V). p.0) marshaled) in
      let sign-eq = or_fail-eq-ok _ _ (ap (λ (p : Result Bytes × Machine V). p.0) signed) in
      let v-eq : v₃ ≡ ticked (ticked w) =
        sym (ap (λ (p : Result Bytes × Machine V). p.1) signed)
        ∙ sym (ap (λ (p : Result Bytes × Machine V). p.1) marshaled)
        ∙ t
        ∙ ap ticked a.1 in
      let tok-eq : tok' ≡ tok = ground arith in
      record {
        s = s;
        reg = reg;
        cm = cm;
        payload = payload;
        admits = a.0;
        registered = registered;
        metadata = metadata;
        marshals = ap (λ (m : Members). V.json_marshal (obj m)) claims-eq ∙ marshal-eq;
        signs = sign-eq ∙ ap some tok-eq;
        served =
            sym (ap (λ (p : Result Bytes × Machine V). p.1) h₄)
            ∙ ap (λ (u : Machine V). record u { session = some (mark_served s) }) v-eq;
      }

  second_fetch :
      (e : Engine V) (w : Machine V) (s : Session V)
      → is_dcapi s.flow ≡ false
      → w.session ≡ some (mark_served s)
      → (request_object_jwt e w).0
        ≡ err (
            sentinel
              (if ltb (w.clock 0) s.expires_at then request_uri_consumed else session_expired))
  unfolding request_object_jwt admit_request session now
  second_fetch e w s f p = ground arith

  -- A request_uri is good for one fetch. When `RequestObjectJWT` returns a token, the session was
  -- there, unexpired, not of the DCAPI flow and not served yet, it is marked as served and otherwise
  -- unchanged, and any later fetch from it, at any time, is refused: as already served before the
  -- session expires, and as expired from then on.
  pub request_object_jwt_once :
      (e : Engine V) (w w' : Machine V) (tok : Bytes)
      → request_object_jwt e w ≡ (ok tok, w')
      → (s : Session V) × Admits w s
        × (w'.session ≡ some (mark_served s))
        × ((v : Machine V)
            → v.session ≡ w'.session
            → (request_object_jwt e v).0
              ≡ err (
                  sentinel (
                    if ltb (v.clock 0) s.expires_at
                    then request_uri_consumed
                    else session_expired)))
  request_object_jwt_once e w w' tok h =
      let i = request_object_jwt-Issues e w w' tok h in
      let served : w'.session ≡ some (mark_served i.s) =
        ap (λ (u : Machine V). u.session) i.served in
      (i.s, i.admits, served, λ v p. second_fetch e v i.s i.admits.flow (p ∙ served))

  -- A fetch that is refused leaves the session as it was, whatever the error.
  pub request_object_jwt_refused :
      (e : Engine V) (w : Machine V) (x : Error)
      → (request_object_jwt e w).0 ≡ err x
      → (request_object_jwt e w).1.session ≡ w.session
  unfolding request_object_jwt admit_request session now request_claims assign
  request_object_jwt_refused e w x h = ground arith
