-- ===== src/Examples/FetchRuns.antt =====
-- The fetch of a new session's Request Object, and the key in it.
use go_oid4vp.Base.{◌+◌, ◌<◌, ◌≡◌, ◌++◌, refl, arith, subst, All, [], ◌∷◌, some}
use go_oid4vp.Base.Bytes.{Bytes, codes}
use go_oid4vp.Json.{text, num, obj, member, end, Json}
use go_oid4vp.Fault.{ok}
use go_oid4vp.Machine.{Machine}
use go_oid4vp.NewSession.{link_invocation}
use go_oid4vp.Request.{request_object_jwt, mark_served}
use go_oid4vp.Request.Metadata.{ephemeral_jwk}
use go_oid4vp.Request.Published.{Publishes, ephemeral_jwk-Publishes}
use go_oid4vp.Exchange.Fetches.{CanSign, new_request_served}
use go_oid4vp.Examples.Toy.{All-are_bytes, toy, toy_engine, toy_random}
use go_oid4vp.Examples.Fresh.{toy_spec, source, fresh, drained, created}
use go_oid4vp.Examples.ExchangeRuns.{toy_wallet}

can_sign : CanSign toy_engine fresh 9
can_sign = record {
  registration = num 5;
  point = 4 ∷ 9 ∷ 9 ∷ [];
  payload = λ c. codes "{}";
  token = λ p. codes "signed:" ++ p;
  claims = refl;
  has_point = refl;
  uncompressed = refl;
  marshals = λ c. refl;
  signs = λ p. refl;
}

-- A machine at the new session.
abbrev at_fresh : Machine toy
at_fresh = record { random = toy_random; clock = λ n. 200 + n; session = some fresh }

new_request_served_example :
    (tok : Bytes) × (v : Machine toy) × (request_object_jwt toy_engine at_fresh ≡ (ok tok, v))
    × (v.session ≡ some (mark_served fresh))
new_request_served_example =
    new_request_served toy_wallet toy_engine toy_spec 9 source drained at_fresh fresh
      (link_invocation toy_engine fresh) 9 created refl can_sign refl refl (omega arith)

abbrev toy_jwk : Json
toy_jwk = obj (
    member (codes "kty") (text (codes "EC")) (
      member (codes "crv") (text (codes "P-8")) (
        member (codes "x") (text (codes "CQ")) (
          member (codes "y") (text (codes "CQ")) (
            member (codes "use") (text (codes "enc")) (
              member (codes "alg") (text (codes "ECDH-ES"))
                (member (codes "kid") (text (codes "s1")) end)))))))

made_jwk : ephemeral_jwk toy 9 (codes "ECDH-ES") (codes "s1") ≡ ok toy_jwk
unfolding ephemeral_jwk go_oid4vp.Base64.encode go_oid4vp.Base64.chars go_oid4vp.Base64.sextets
    go_oid4vp.Base64.char_of
made_jwk = refl

point_bytes : (p : Bytes) → toy.ecdh_point 9 ≡ some p → All (λ b. b < 256) p
point_bytes p h =
    let same : 4 ∷ 9 ∷ 9 ∷ [] ≡ p = ground (arith, h) in
    subst (All (λ b. b < 256)) same (All-are_bytes (4 ∷ 9 ∷ 9 ∷ []) refl)

ephemeral_jwk-Publishes_example : Publishes toy 9 (codes "ECDH-ES") (codes "s1") toy_jwk
ephemeral_jwk-Publishes_example =
    ephemeral_jwk-Publishes toy 9 (codes "ECDH-ES") (codes "s1") toy_jwk point_bytes made_jwk
