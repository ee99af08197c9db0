-- ===== src/Examples/IssueRuns.antt =====
-- Runs of the configuration, of new sessions and of the request objects.
use go_oid4vp.Base.{
  ◌≡◌, ◌≢◌, ◌↔◌, ◌++◌, ◌<◌, ◌+◌, ◌&&◌, suc, refl, arith, List, [], ◌∷◌, Option, some, none, Bool,
  true, false, All, if◌then◌else◌, ltb,
}
use go_oid4vp.Base.Bytes.{Bytes, codes}
use go_oid4vp.Json.{Json, Members, obj}
use go_oid4vp.Session.{Session, same_device, cross_device, dcapi}
use go_oid4vp.Fault.{ok, err, sentinel, request_uri_consumed, session_expired}
use go_oid4vp.Machine.{Machine}
use go_oid4vp.Engine.{new}
use go_oid4vp.Engine.New.{new_iff}
use go_oid4vp.Engine.New
use go_oid4vp.Form.Read.{read_query}
use go_oid4vp.NewSession.{link_invocation}
use go_oid4vp.NewSession.Spec.{validate_spec}
use go_oid4vp.NewSession.Spec.Valid.{IsValid, validate_spec_iff}
use go_oid4vp.NewSession.Secrets.{IsToken, new_session-IsToken}
use go_oid4vp.NewSession.Fresh.{chunk, Makes, new_session-Makes}
use go_oid4vp.NewSession.Link.{link_invocation_reads}
use go_oid4vp.Request.{request_object_jwt, mark_served, typ_oauth_authz_req}
use go_oid4vp.Request.Metadata.{is_zero_registration}
use go_oid4vp.Request.Once.{Admits, request_object_jwt_once, request_object_jwt_refused}
use go_oid4vp.Request.Says.{Says, request_object_jwt-Says}
use go_oid4vp.Examples.Fresh.{toy_spec, source, fresh, drained, created}
use go_oid4vp.Examples.Toy.{
  All-are_bytes, toy, toy_config, toy_engine, toy_session, toy_machine, toy_random,
}

configured : new toy_config ≡ ok toy_engine
unfolding new go_oid4vp.Engine.check_identity go_oid4vp.Engine.leaf_of go_oid4vp.Base.Bytes.contains
    go_oid4vp.Base.Bytes.bytes_eq go_oid4vp.Engine.check_algorithms go_oid4vp.Engine.check_each
    go_oid4vp.Engine.check_urls go_oid4vp.Engine.valid_base_url go_oid4vp.Engine.build
    go_oid4vp.Base.Bytes.trim_suffix go_oid4vp.Base.Int.or_default
configured = refl

new_iff_example : (new toy_config ≡ ok toy_engine) ↔ (
    New.Accepts toy_config toy_engine
    × (toy_engine.client_id ≡ codes "x509_san_dns:" ++ codes "v.example")
    × (0 < toy_engine.session_ttl)
    × (0 < toy_engine.max_response_body))
new_iff_example = new_iff toy_config toy_engine

validate_spec_iff_example :
    (validate_spec toy_engine toy_spec ≡ ok tt) ↔ IsValid toy_engine toy_spec
validate_spec_iff_example = validate_spec_iff toy_engine toy_spec

new_session-Makes_example :
    IsValid toy_engine toy_spec
    × Makes toy_engine toy_spec 9 source fresh
    × (false ≡ false → link_invocation toy_engine fresh ≡ link_invocation toy_engine fresh)
new_session-Makes_example =
    new_session-Makes toy_engine toy_spec 9 source drained fresh (link_invocation toy_engine fresh)
      created

source_bytes : All (λ b. b < 256) source.random
source_bytes = All-are_bytes source.random refl

new_session-IsToken_example :
    IsToken fresh.id (chunk 0 source.random)
    × IsToken fresh.nonce (chunk 1 source.random)
    × IsToken fresh.state (chunk 2 source.random)
new_session-IsToken_example =
    new_session-IsToken toy_engine toy_spec 9 source drained fresh
      (link_invocation toy_engine fresh) created source_bytes

abbrev served : Machine toy
served = record {
  random = toy_random;
  clock = λ n. 150 + suc (suc n);
  session = some (mark_served (toy_session same_device));
}

fetched :
    request_object_jwt toy_engine (toy_machine (toy_session same_device))
    ≡ (ok (codes "signed:{}"), served)
unfolding request_object_jwt go_oid4vp.Request.admit_request go_oid4vp.Machine.session
    go_oid4vp.Machine.now go_oid4vp.Request.Claims.request_claims
    go_oid4vp.Request.Metadata.registration_claim is_zero_registration
    go_oid4vp.Request.Metadata.client_metadata go_oid4vp.Session.ephemeral_private_key
    go_oid4vp.Request.Metadata.ephemeral_jwk go_oid4vp.Machine.assign
fetched = refl

request_object_jwt_once_example :
    (s : Session toy) × Admits (toy_machine (toy_session same_device)) s
    × (served.session ≡ some (mark_served s))
    × ((v : Machine toy)
        → v.session ≡ served.session
        → (request_object_jwt toy_engine v).0
          ≡ err (
              sentinel
                (if ltb (v.clock 0) s.expires_at then request_uri_consumed else session_expired)))
request_object_jwt_once_example =
    request_object_jwt_once toy_engine (toy_machine (toy_session same_device)) served
      (codes "signed:{}") fetched

refetched : (request_object_jwt toy_engine served).0 ≡ err (sentinel request_uri_consumed)
unfolding request_object_jwt go_oid4vp.Request.admit_request go_oid4vp.Machine.session
    go_oid4vp.Machine.now
refetched = refl

request_object_jwt_refused_example :
    (request_object_jwt toy_engine served).1.session ≡ some (mark_served (toy_session same_device))
request_object_jwt_refused_example =
    request_object_jwt_refused toy_engine served (sentinel request_uri_consumed) refetched

request_object_jwt-Says_example :
    (s : Session toy) × (reg : Json) × (claims : Members) × (payload : Bytes) × (some
        (toy_session same_device)
      ≡ some s)
    × (is_zero_registration toy s.registration ≡ false)
    × (toy.registration_claims s.registration ≡ some reg)
    × (toy.json_marshal (obj claims) ≡ some payload)
    × (toy.sign_jws toy_engine.keys toy_engine.signing_key_id typ_oauth_authz_req
          toy_engine.wrpac_chain payload
        ≡ some (codes "signed:{}"))
    × Says toy_engine s reg 151 claims
request_object_jwt-Says_example =
    request_object_jwt-Says toy_engine (toy_machine (toy_session same_device)) served
      (codes "signed:{}") fetched

client_bytes : All (λ b. b < 256) (codes "x509_san_dns:v.example")
client_bytes = All-are_bytes (codes "x509_san_dns:v.example") refl

uri_bytes : All (λ b. b < 256) (codes "https://v.example/ro/s1")
uri_bytes = All-are_bytes (codes "https://v.example/ro/s1") refl

link_invocation_reads_example :
    (q : Bytes) × ((link_invocation toy_engine (toy_session cross_device)).scheme_uri
      ≡ codes "openid4vp://?" ++ q)
    × ((link_invocation toy_engine (toy_session cross_device)).qr_payload
        ≡ (link_invocation toy_engine (toy_session cross_device)).scheme_uri)
    × ((link_invocation toy_engine (toy_session cross_device)).universal_link
        ≡ codes "https://wallet.example/authorize" ++ codes "?" ++ q)
    × (read_query q
        ≡ some (
            (codes "client_id", codes "x509_san_dns:v.example")
            ∷ (codes "request_uri", codes "https://v.example/ro/s1")
            ∷ (codes "request_uri_method", codes "get")
            ∷ []))
link_invocation_reads_example =
    link_invocation_reads toy_engine (toy_session cross_device) client_bytes uri_bytes
