-- ===== src/Dcapi/Wording.antt =====
-- The members of a DC API request.
use go_oid4vp.Base.{ℕ, ◌≡◌, ◌∙◌, refl, false, none, some}
use go_oid4vp.Base.Bytes.{Bytes, codes, bytes_eq}
use go_oid4vp.Json.{Json, text, arr, obj, Members, end, member, get, get-set, texts}
use go_oid4vp.Platform.{Platform}
use go_oid4vp.Session.{Session}
use go_oid4vp.Engine.{Engine}
use go_oid4vp.Request.Claims.{unix, with_verifier_info, member_verifier_info}
use go_oid4vp.Request.Says.{get-with_verifier_info, get-with_transaction_data}
use go_oid4vp.Dcapi.{base_dcapi_claims, with_signed_claims, unsigned_claims}

-- An unsigned request says none of it.
pub record SaysUnsigned (m : Members) : Type 0 where
  pub no_client_id : get (codes "client_id") m ≡ none
  pub no_expected_origins : get (codes "expected_origins") m ≡ none
  pub no_iss : get (codes "iss") m ≡ none

-- The text of the request object that the page gets, around signed or plain claims.
abbrev pub signed_wrapper : Bytes → Json
signed_wrapper tok = obj (
    member (codes "protocol") (text (codes "openid4vp-v1-signed"))
      (member (codes "data") (obj (member (codes "request") (text tok) end)) end))

abbrev pub unsigned_wrapper : Members → Json
unsigned_wrapper claims = obj (
    member (codes "protocol") (text (codes "openid4vp-v1-unsigned"))
      (member (codes "data") (obj claims) end))

module _ {V : Platform} where
  -- What both kinds of request say.
  pub record SaysCommon (s : Session V) (reg : Json) (m : Members) : Type 0 where
    pub response_type : get (codes "response_type") m ≡ some (text (codes "vp_token"))
    pub response_mode : get (codes "response_mode") m ≡ some (text (codes "dc_api.jwt"))
    pub nonce : get (codes "nonce") m ≡ some (text s.nonce)
    pub dcql_query : get (codes "dcql_query") m ≡ some (V.query_json s.query)
    pub registration : get (codes "verifier_registration") m ≡ some reg
    pub no_state : get (codes "state") m ≡ none
    pub no_response_uri : get (codes "response_uri") m ≡ none
    pub no_redirect_uri : get (codes "redirect_uri") m ≡ none

  -- Who asks, whom, for which origins and until when: in a signed request only.
  pub record SaysSigned (e : Engine V) (s : Session V) (t : ℕ) (m : Members) : Type 0 where
    pub client_id : get (codes "client_id") m ≡ some (text e.client_id)
    pub expected_origins : get (codes "expected_origins") m ≡ some (arr (texts s.expected_origins))
    pub iss : get (codes "iss") m ≡ some (text e.client_id)
    pub aud : get (codes "aud") m ≡ some (text (codes "https://self-issued.me/v2"))
    pub iat : get (codes "iat") m ≡ some (unix t)
    pub nbf : get (codes "nbf") m ≡ some (unix t)
    pub exp : get (codes "exp") m ≡ some (unix s.expires_at)

  pub get-unsigned_claims :
      (k : Bytes) (e : Engine V) (s : Session V) (reg cm : Json)
      → bytes_eq member_verifier_info k ≡ false
      → bytes_eq (codes "transaction_data") k ≡ false
      → get k (unsigned_claims e s reg cm) ≡ get k (base_dcapi_claims s reg cm)
  unfolding unsigned_claims
  get-unsigned_claims k e s reg cm h h' =
      get-with_transaction_data k e.enable_transaction_data s.transaction_data
        (with_verifier_info s.wrprc (base_dcapi_claims s reg cm)) h'
      ∙ get-with_verifier_info k s.wrprc (base_dcapi_claims s reg cm) h

  pub unsigned_claims-SaysCommon :
      (e : Engine V) (s : Session V) (reg cm : Json) → SaysCommon s reg (unsigned_claims e s reg cm)
  unfolding base_dcapi_claims get bytes_eq
  unsigned_claims-SaysCommon e s reg cm = record {
    response_type = get-unsigned_claims (codes "response_type") e s reg cm refl refl;
    response_mode = get-unsigned_claims (codes "response_mode") e s reg cm refl refl;
    nonce = get-unsigned_claims (codes "nonce") e s reg cm refl refl;
    dcql_query = get-unsigned_claims (codes "dcql_query") e s reg cm refl refl;
    registration = get-unsigned_claims (codes "verifier_registration") e s reg cm refl refl;
    no_state = get-unsigned_claims (codes "state") e s reg cm refl refl;
    no_response_uri = get-unsigned_claims (codes "response_uri") e s reg cm refl refl;
    no_redirect_uri = get-unsigned_claims (codes "redirect_uri") e s reg cm refl refl;
  }

  pub unsigned_claims-SaysUnsigned :
      (e : Engine V) (s : Session V) (reg cm : Json) → SaysUnsigned (unsigned_claims e s reg cm)
  unfolding base_dcapi_claims get bytes_eq
  unsigned_claims-SaysUnsigned e s reg cm = record {
    no_client_id = get-unsigned_claims (codes "client_id") e s reg cm refl refl;
    no_expected_origins = get-unsigned_claims (codes "expected_origins") e s reg cm refl refl;
    no_iss = get-unsigned_claims (codes "iss") e s reg cm refl refl;
  }

  -- A member that the signed part does not set.
  pub get-signed :
      (k : Bytes) (e : Engine V) (s : Session V) (t : ℕ) (m : Members)
      → bytes_eq (codes "exp") k ≡ false
      → bytes_eq (codes "nbf") k ≡ false
      → bytes_eq (codes "iat") k ≡ false
      → bytes_eq (codes "aud") k ≡ false
      → bytes_eq (codes "iss") k ≡ false
      → bytes_eq (codes "expected_origins") k ≡ false
      → bytes_eq (codes "client_id") k ≡ false
      → get k (with_signed_claims e s t m) ≡ get k m
  unfolding with_signed_claims
  get-signed k e s t m h₁ h₂ h₃ h₄ h₅ h₆ h₇ = simp (get-set, h₁, h₂, h₃, h₄, h₅, h₆, h₇)

  pub with_signed_claims-SaysSigned :
      (e : Engine V) (s : Session V) (t : ℕ) (m : Members)
      → SaysSigned e s t (with_signed_claims e s t m)
  unfolding with_signed_claims bytes_eq
  with_signed_claims-SaysSigned e s t m = record {
    client_id = simp get-set;
    expected_origins = simp get-set;
    iss = simp get-set;
    aud = simp get-set;
    iat = simp get-set;
    nbf = simp get-set;
    exp = simp get-set;
  }

  pub with_signed_claims-SaysCommon :
      (e : Engine V) (s : Session V) (reg : Json) (t : ℕ) (m : Members)
      → SaysCommon s reg m
      → SaysCommon s reg (with_signed_claims e s t m)
  unfolding with_signed_claims bytes_eq
  with_signed_claims-SaysCommon e s reg t m c = record {
    response_type = simp (get-set, c.response_type);
    response_mode = simp (get-set, c.response_mode);
    nonce = simp (get-set, c.nonce);
    dcql_query = simp (get-set, c.dcql_query);
    registration = simp (get-set, c.registration);
    no_state = simp (get-set, c.no_state);
    no_response_uri = simp (get-set, c.no_response_uri);
    no_redirect_uri = simp (get-set, c.no_redirect_uri);
  }
