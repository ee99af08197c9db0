-- ===== src/NewSession.antt =====
-- newsession.go: a new session and the wallet invocation for it.
pub mod Spec
pub mod Fresh
pub mod Link
pub mod Secrets
use go_oid4vp.Base.{ℕ, ◌+◌, Bool, Option, none, some, List, [], ◌∷◌, ◌++◌, if◌then◌else◌}
use go_oid4vp.Base.Bytes.{Bytes, codes}
use go_oid4vp.Form.{encode_values}
use go_oid4vp.Platform.{Platform}
use go_oid4vp.Session.{Session}
use go_oid4vp.Engine.{Engine, token_bytes}
use go_oid4vp.Response.{is_dcapi}
use go_oid4vp.Dcapi.{dcapi_request}
use go_oid4vp.Fault.{sentinel, foreign, join, or_fail, config}
use go_oid4vp.Machine.{M, pure, lift, now, rand_token, ◌>>=◌, ◌>>◌}
use Spec.{RequestSpec, validate_spec}

pub record WalletInvocation : Type 0 where
  pub scheme_uri : Bytes
  pub universal_link : Bytes
  pub qr_payload : Bytes
  pub dcapi : Bytes

-- `RequestURIFunc(id)` if it is set.
abbrev pub build_uri : Option (Bytes → Bytes) → Bytes → Bytes → Bytes
build_uri none base id = base ++ codes "/" ++ id
build_uri (some f) base id = f id

-- `q.Encode()` of the three parameters.
unfoldable pub invocation_query : Bytes → Bytes → Bytes
invocation_query client_id request_uri = encode_values (
    (codes "client_id", client_id)
    ∷ (codes "request_uri", request_uri)
    ∷ (codes "request_uri_method", codes "get")
    ∷ [])

module _ {V : Platform} where
  abbrev pub request_uri_of : Engine V → Session V → Bytes
  request_uri_of e s = build_uri e.request_uri_func e.request_uri_base s.id

  -- The invocation of a flow by request_uri.
  unfoldable pub link_invocation : Engine V → Session V → WalletInvocation
  link_invocation e s =
      let enc = invocation_query e.client_id (request_uri_of e s) in
      record {
        scheme_uri = codes "openid4vp://?" ++ enc;
        universal_link = e.universal_link_base ++ codes "?" ++ enc;
        qr_payload = codes "openid4vp://?" ++ enc;
        dcapi = [];
      }

  unfoldable pub invocation : Engine V → Session V → M V WalletInvocation
  invocation e s =
      if is_dcapi s.flow
      then (do
        request ← dcapi_request e (some s)
        pure (record { scheme_uri = []; universal_link = []; qr_payload = []; dcapi = request }))
      else pure (link_invocation e s)

  -- The literal of the session.
  unfoldable pub session_of :
      Engine V → RequestSpec V → Bytes → Bytes → Bytes → Bytes → ℕ → Session V
  session_of e spec id nonce state der t = record {
    id = id;
    flow = spec.flow;
    client_id = e.client_id;
    nonce = nonce;
    state = state;
    response_uri = spec.response_uri;
    return_uri = spec.return_uri;
    query = spec.query;
    registration = spec.registration;
    wrprc = spec.wrprc;
    transaction_data = spec.transaction_data;
    expected_origins = spec.expected_origins;
    ephemeral_key_pkcs8 = der;
    created_at = t;
    expires_at = t + e.session_ttl;
    request_object_served = Bool.false;
    wallet_metadata = [];
    consumed = Bool.false;
    response_code = [];
    response_code_used = Bool.false;
  }

  -- The steps between the validation and the invocation; `entropy` is what the key is made from.
  unfoldable pub make_session : Engine V → RequestSpec V → ℕ → M V (Session V)
  make_session e spec entropy = do
    id ← rand_token token_bytes
    nonce ← rand_token token_bytes
    state ← rand_token token_bytes
    key ← lift (or_fail (V.generate_ephemeral_key e.response_encryption.curve entropy) foreign)
    der ← lift (or_fail (V.marshal_pkcs8 key) (join (sentinel config) foreign))
    t ← now
    pure (session_of e spec id nonce state der t)

  unfoldable pub new_session : Engine V → RequestSpec V → ℕ → M V (Session V × WalletInvocation)
  new_session e spec entropy = do
    lift (validate_spec e spec)
    s ← make_session e spec entropy
    inv ← invocation e s
    pure (s, inv)
