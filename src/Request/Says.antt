-- ===== src/Request/Says.antt =====
-- What a Request Object says, member by member.
use go_oid4vp.Base.{
  ℕ, ◌≡◌, ◌∙◌, refl, Bool, false, not, ◌&&◌, inl, inr, Option, none, some, List, map, arith,
  if◌then◌else◌, Bool-cases,
}
use go_oid4vp.Base.Bytes.{Bytes, codes, bytes_eq, is_empty}
use go_oid4vp.Base64.{encode}
use go_oid4vp.Json.{Json, text, arr, obj, nil, item, Members, end, member, get, get-set, texts}
use go_oid4vp.Platform.{Platform}
use go_oid4vp.Session.{Session}
use go_oid4vp.Engine.{Engine}
use go_oid4vp.Fault.{ok}
use go_oid4vp.Machine.{Machine}
use go_oid4vp.Transaction.{transaction_data_strings}
use go_oid4vp.Request.{request_object_jwt, typ_oauth_authz_req}
use go_oid4vp.Request.Metadata.{registration_claim, is_zero_registration}
use go_oid4vp.Request.Once.{request_object_jwt-Issues}
use go_oid4vp.Request.Claims.{
  full_claims, base_claims, with_verifier_info, with_transaction_data, unix, member_verifier_info,
}

pub get-with_verifier_info :
    (k w : Bytes) (m : Members)
    → bytes_eq member_verifier_info k ≡ false
    → get k (with_verifier_info w m) ≡ get k m
unfolding with_verifier_info
get-with_verifier_info k w m h = elim (Bool-cases (is_empty w)) [
  | inl none' ↦ rw none'
  | inr some' ↦ rw (some', get-set, h)
]

pub get-with_transaction_data :
    (k : Bytes) (on : Bool) (td : List Bytes) (m : Members)
    → bytes_eq (codes "transaction_data") k ≡ false
    → get k (with_transaction_data on td m) ≡ get k m
unfolding with_transaction_data
get-with_transaction_data k on td m h = elim (Bool-cases (not (is_empty td) && on)) [
  | inl yes' ↦ rw (yes', get-set, h)
  | inr no' ↦ rw no'
]

module _ {V : Platform} where
  -- The optional members.
  abbrev pub verifier_info : Session V → Option Json
  verifier_info s =
      if is_empty s.wrprc
      then none
      else some (
          arr (
            item
              (obj (
                member (codes "format") (text (codes "jwt"))
                  (member (codes "data") (text s.wrprc) end)))
              nil))

  abbrev pub transaction_data : Engine V → Session V → Option Json
  transaction_data e s =
      if not (is_empty s.transaction_data) && e.enable_transaction_data
      then some (arr (texts (map encode s.transaction_data)))
      else none

  -- What the claims say, member by member.
  pub record Says (e : Engine V) (s : Session V) (reg : Json) (t : ℕ) (m : Members) : Type 0 where
    pub iss : get (codes "iss") m ≡ some (text e.client_id)
    pub aud : get (codes "aud") m ≡ some (text (codes "https://self-issued.me/v2"))
    pub iat : get (codes "iat") m ≡ some (unix t)
    pub nbf : get (codes "nbf") m ≡ some (unix t)
    pub exp : get (codes "exp") m ≡ some (unix s.expires_at)
    pub client_id : get (codes "client_id") m ≡ some (text e.client_id)
    pub response_type : get (codes "response_type") m ≡ some (text (codes "vp_token"))
    pub response_mode : get (codes "response_mode") m ≡ some (text (codes "direct_post.jwt"))
    pub response_uri : get (codes "response_uri") m ≡ some (text s.response_uri)
    pub nonce : get (codes "nonce") m ≡ some (text s.nonce)
    pub state : get (codes "state") m ≡ some (text s.state)
    pub dcql_query : get (codes "dcql_query") m ≡ some (V.query_json s.query)
    pub registration : get (codes "verifier_registration") m ≡ some reg
    pub verifier_info_member : get (codes "verifier_info") m ≡ verifier_info s
    pub transaction_data_member : get (codes "transaction_data") m ≡ transaction_data e s
    pub no_redirect_uri : get (codes "redirect_uri") m ≡ none

  pub registration_claim-eq-ok :
      (s : Session V) (reg : Json)
      → registration_claim s ≡ ok reg
      → (is_zero_registration V s.registration ≡ false)
        × (V.registration_claims s.registration ≡ some reg)
  unfolding registration_claim
  registration_claim-eq-ok s reg h = ground arith

  get-full_claims :
      (k : Bytes) (e : Engine V) (s : Session V) (reg cm : Json) (t : ℕ)
      → bytes_eq member_verifier_info k ≡ false
      → bytes_eq (codes "transaction_data") k ≡ false
      → get k (full_claims e s reg cm t) ≡ get k (base_claims e s reg cm t)
  unfolding full_claims
  get-full_claims k e s reg cm t h h' =
      get-with_transaction_data k e.enable_transaction_data s.transaction_data
        (with_verifier_info s.wrprc (base_claims e s reg cm t)) h'
      ∙ get-with_verifier_info k s.wrprc (base_claims e s reg cm t) h

  says_verifier_info :
      (e : Engine V) (s : Session V) (reg cm : Json) (t : ℕ)
      → get (codes "verifier_info") (full_claims e s reg cm t) ≡ verifier_info s
  unfolding full_claims with_verifier_info
  says_verifier_info e s reg cm t =
      get-with_transaction_data (codes "verifier_info") e.enable_transaction_data s.transaction_data
        (with_verifier_info s.wrprc (base_claims e s reg cm t)) (unfold bytes_eq in refl)
      ∙ elim (Bool-cases (is_empty s.wrprc)) [
        | inl absent ↦ rw absent (unfold base_claims get bytes_eq in refl)
        | inr present ↦ rw (present, get-set) (unfold bytes_eq in refl)
      ]

  says_transaction_data :
      (e : Engine V) (s : Session V) (reg cm : Json) (t : ℕ)
      → get (codes "transaction_data") (full_claims e s reg cm t) ≡ transaction_data e s
  unfolding full_claims with_transaction_data transaction_data_strings
  says_transaction_data e s reg cm t =
      elim (Bool-cases (not (is_empty s.transaction_data) && e.enable_transaction_data)) [
        | inl on ↦ rw (on, get-set) (unfold bytes_eq in refl)
        | inr off ↦ rw off (
            get-with_verifier_info (codes "transaction_data") s.wrprc (base_claims e s reg cm t)
              (unfold bytes_eq in refl)
            ∙ unfold base_claims get bytes_eq in refl)
      ]

  full_claims-Says :
      (e : Engine V) (s : Session V) (reg cm : Json) (t : ℕ)
      → Says e s reg t (full_claims e s reg cm t)
  unfolding base_claims get bytes_eq
  full_claims-Says e s reg cm t = record {
    iss = get-full_claims (codes "iss") e s reg cm t refl refl;
    aud = get-full_claims (codes "aud") e s reg cm t refl refl;
    iat = get-full_claims (codes "iat") e s reg cm t refl refl;
    nbf = get-full_claims (codes "nbf") e s reg cm t refl refl;
    exp = get-full_claims (codes "exp") e s reg cm t refl refl;
    client_id = get-full_claims (codes "client_id") e s reg cm t refl refl;
    response_type = get-full_claims (codes "response_type") e s reg cm t refl refl;
    response_mode = get-full_claims (codes "response_mode") e s reg cm t refl refl;
    response_uri = get-full_claims (codes "response_uri") e s reg cm t refl refl;
    nonce = get-full_claims (codes "nonce") e s reg cm t refl refl;
    state = get-full_claims (codes "state") e s reg cm t refl refl;
    dcql_query = get-full_claims (codes "dcql_query") e s reg cm t refl refl;
    registration = get-full_claims (codes "verifier_registration") e s reg cm t refl refl;
    verifier_info_member = says_verifier_info e s reg cm t;
    transaction_data_member = says_transaction_data e s reg cm t;
    no_redirect_uri = get-full_claims (codes "redirect_uri") e s reg cm t refl refl;
  }

  -- A token of `RequestObjectJWT` is the signature, with the engine's key and certificates, of claims
  -- that say: who asks (`iss`, `client_id`), whom, from when to when, that a vp_token is wanted by
  -- direct_post.jwt at the session's response URI, with its nonce, state and query, the registration
  -- data of a registration that is not zero, the verifier_info exactly if the session has a
  -- certificate, the transaction_data exactly if there is some and the flag is on, and no
  -- redirect_uri.
  pub request_object_jwt-Says :
      (e : Engine V) (w w' : Machine V) (tok : Bytes)
      → request_object_jwt e w ≡ (ok tok, w')
      → (s : Session V) × (reg : Json) × (claims : Members) × (payload : Bytes) × (w.session
          ≡ some s)
        × (is_zero_registration V s.registration ≡ false)
        × (V.registration_claims s.registration ≡ some reg)
        × (V.json_marshal (obj claims) ≡ some payload)
        × (V.sign_jws e.keys e.signing_key_id typ_oauth_authz_req e.wrpac_chain payload ≡ some tok)
        × Says e s reg (w.clock 1) claims
  request_object_jwt-Says e w w' tok h =
      let i = request_object_jwt-Issues e w w' tok h in
      let r = registration_claim-eq-ok i.s i.reg i.registered in
      (
        i.s,
        i.reg,
        full_claims e i.s i.reg i.cm (w.clock 1),
        i.payload,
        i.admits.pointed,
        r.0,
        r.1,
        i.marshals,
        i.signs,
        full_claims-Says e i.s i.reg i.cm (w.clock 1),
      )
