-- ===== src/Examples/DcapiRuns.antt =====
-- Runs of the requests by the Digital Credentials API.
use go_oid4vp.Base.{◌≡◌, ◌<◌, ◌+◌, suc, refl, some, true, false}
use go_oid4vp.Base.Bytes.{Bytes, codes}
use go_oid4vp.Json.{Json, Members, obj}
use go_oid4vp.Session.{Session, dcapi}
use go_oid4vp.Fault.{ok}
use go_oid4vp.Machine.{Machine}
use go_oid4vp.Request.{typ_oauth_authz_req}
use go_oid4vp.Request.Metadata.{is_zero_registration}
use go_oid4vp.Response.{is_dcapi}
use go_oid4vp.Dcapi.{dcapi_request, dcapi_unsigned_request}
use go_oid4vp.Dcapi.Wording.{SaysCommon, SaysSigned, SaysUnsigned, signed_wrapper, unsigned_wrapper}
use go_oid4vp.Dcapi.Says.{dcapi_request-Says, dcapi_unsigned_request-Says}
use go_oid4vp.Examples.Toy.{toy, toy_engine, toy_session, toy_machine, toy_random}

abbrev start : Machine toy
start = toy_machine (toy_session dcapi)

abbrev asked : Machine toy
asked = record {
  random = toy_random;
  clock = λ n. 150 + suc (suc n);
  session = some (toy_session dcapi);
}

signed : dcapi_request toy_engine (some (toy_session dcapi)) start ≡ (ok (codes "{}"), asked)
unfolding dcapi_request go_oid4vp.Machine.now go_oid4vp.Dcapi.dcapi_claims
    go_oid4vp.Request.Metadata.registration_claim is_zero_registration
    go_oid4vp.Request.Metadata.client_metadata go_oid4vp.Session.ephemeral_private_key
    go_oid4vp.Request.Metadata.ephemeral_jwk
signed = refl

dcapi_request-Says_example :
    (s : Session toy) × (reg : Json) × (claims : Members) × (payload : Bytes) × (tok : Bytes)
    × (some (toy_session dcapi) ≡ some s)
    × (is_dcapi s.flow ≡ true)
    × (150 < s.expires_at)
    × (is_zero_registration toy s.registration ≡ false)
    × (toy.registration_claims s.registration ≡ some reg)
    × (toy.json_marshal (obj claims) ≡ some payload)
    × (toy.sign_jws toy_engine.keys toy_engine.signing_key_id typ_oauth_authz_req
          toy_engine.wrpac_chain payload
        ≡ some tok)
    × (toy.json_marshal (signed_wrapper tok) ≡ some (codes "{}"))
    × SaysCommon s reg claims
    × SaysSigned toy_engine s 151 claims
dcapi_request-Says_example =
    dcapi_request-Says toy_engine (some (toy_session dcapi)) start asked (codes "{}") signed

unsigned :
    dcapi_unsigned_request toy_engine (some (toy_session dcapi)) start ≡ (ok (codes "{}"), start)
unfolding dcapi_unsigned_request go_oid4vp.Dcapi.dcapi_claims
    go_oid4vp.Request.Metadata.registration_claim is_zero_registration
    go_oid4vp.Request.Metadata.client_metadata go_oid4vp.Session.ephemeral_private_key
    go_oid4vp.Request.Metadata.ephemeral_jwk
unsigned = refl

dcapi_unsigned_request-Says_example :
    (s : Session toy) × (reg : Json) × (claims : Members) × (some (toy_session dcapi) ≡ some s)
    × (is_dcapi s.flow ≡ true)
    × (is_zero_registration toy s.registration ≡ false)
    × (toy.registration_claims s.registration ≡ some reg)
    × (toy.json_marshal (unsigned_wrapper claims) ≡ some (codes "{}"))
    × SaysCommon s reg claims
    × SaysUnsigned claims
dcapi_unsigned_request-Says_example =
    dcapi_unsigned_request-Says toy_engine (some (toy_session dcapi)) start start (codes "{}")
      unsigned
