-- ===== src/Examples/Fresh.antt =====
-- A new session of the toy instance.
use go_oid4vp.Base.{◌≡◌, ◌++◌, ◌+◌, suc, refl, List, [], ◌∷◌, none, false}
use go_oid4vp.Base.Bytes.{Bytes, codes}
use go_oid4vp.Session.{Session, same_device}
use go_oid4vp.Fault.{ok}
use go_oid4vp.Machine.{Machine}
use go_oid4vp.NewSession.{new_session, link_invocation}
use go_oid4vp.NewSession.Spec.{RequestSpec, validate_spec}
use go_oid4vp.Request.Metadata.{is_zero_registration}
use go_oid4vp.Examples.Toy.{toy, toy_engine, toy_random}

abbrev pub toy_spec : RequestSpec toy
toy_spec = record {
  query = record { id = codes "pid"; format = codes "dc+sd-jwt" } ∷ [];
  flow = same_device;
  response_uri = codes "https://v.example/resp";
  return_uri = codes "https://v.example/back";
  registration = 5;
  wrprc = [];
  transaction_data = codes "{a" ∷ [];
  expected_origins = [];
}

-- Three times sixteen random bytes.
abbrev pub source : Machine toy
source = record {
  random = toy_random ++ toy_random ++ toy_random;
  clock = λ n. 150 + n;
  session = none;
}

abbrev pub zeros : Bytes
zeros = 0 ∷ 0 ∷ 0 ∷ 0 ∷ 0 ∷ 0 ∷ 0 ∷ 0 ∷ 0 ∷ 0 ∷ 0 ∷ 0 ∷ 0 ∷ 0 ∷ 0 ∷ 0 ∷ []

abbrev pub token : Bytes
token = codes "AQIDBAUGBwgJCgsMDQ4PEA"

abbrev pub fresh : Session toy
fresh = record {
  id = token;
  flow = same_device;
  client_id = codes "x509_san_dns:v.example";
  nonce = token;
  state = token;
  response_uri = codes "https://v.example/resp";
  return_uri = codes "https://v.example/back";
  query = record { id = codes "pid"; format = codes "dc+sd-jwt" } ∷ [];
  registration = 5;
  wrprc = [];
  transaction_data = codes "{a" ∷ [];
  expected_origins = [];
  ephemeral_key_pkcs8 = 48 ∷ 9 ∷ [];
  created_at = 150;
  expires_at = 300_000_000_150;
  request_object_served = false;
  wallet_metadata = [];
  consumed = false;
  response_code = [];
  response_code_used = false;
}

abbrev pub drained : Machine toy
drained = record { random = []; clock = λ n. 150 + suc n; session = none }

pub created :
    new_session toy_engine toy_spec 9 source
    ≡ (ok (fresh, link_invocation toy_engine fresh), drained)
unfolding new_session validate_spec is_zero_registration
    go_oid4vp.Transaction.validate_transaction_data go_oid4vp.NewSession.Spec.check_flow
    go_oid4vp.NewSession.Spec.valid_response_uri go_oid4vp.NewSession.Spec.valid_https_url
    go_oid4vp.Base.Bytes.bytes_eq go_oid4vp.NewSession.make_session go_oid4vp.Machine.rand_token
    go_oid4vp.Machine.now go_oid4vp.NewSession.invocation go_oid4vp.NewSession.session_of
    go_oid4vp.Base64.encode go_oid4vp.Base64.chars go_oid4vp.Base64.sextets go_oid4vp.Base64.char_of
created = refl

-- A source with another third run, and the session made from it.
abbrev pub other_source : Machine toy
other_source = record source { random = toy_random ++ toy_random ++ zeros }

abbrev pub other_token : Bytes
other_token = codes "AAAAAAAAAAAAAAAAAAAAAA"

abbrev pub other : Session toy
other = record fresh { state = other_token; ephemeral_key_pkcs8 = 48 ∷ 10 ∷ [] }

pub created_other :
    new_session toy_engine toy_spec 10 other_source
    ≡ (ok (other, link_invocation toy_engine other), drained)
unfolding new_session validate_spec is_zero_registration
    go_oid4vp.Transaction.validate_transaction_data go_oid4vp.NewSession.Spec.check_flow
    go_oid4vp.NewSession.Spec.valid_response_uri go_oid4vp.NewSession.Spec.valid_https_url
    go_oid4vp.Base.Bytes.bytes_eq go_oid4vp.NewSession.make_session go_oid4vp.Machine.rand_token
    go_oid4vp.Machine.now go_oid4vp.NewSession.invocation go_oid4vp.NewSession.session_of
    go_oid4vp.Base64.encode go_oid4vp.Base64.chars go_oid4vp.Base64.sextets go_oid4vp.Base64.char_of
created_other = refl
