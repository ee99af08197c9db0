-- ===== src/Request/Metadata.antt =====
-- requestobject.go: `clientMetadata` and `ephemeralJWK`, and the registration claim.
use go_oid4vp.Base.{◌+◌, ◌*◌, ◌/◌, Bool, not, [], length, take, drop, ◌==◌}
use go_oid4vp.Base.Bytes.{Bytes, codes}
use go_oid4vp.Base64.{encode}
use go_oid4vp.Json.{Json, text, arr, obj, nil, item, end, member, texts, ints}
use go_oid4vp.Platform.{Platform}
use go_oid4vp.Session.{Session, ephemeral_private_key}
use go_oid4vp.Engine.{Engine, VpFormats}
use go_oid4vp.Fault.{
  Result, ok, sentinel, foreign, wrap, join, refuse_if, or_fail, ◌>>=◌, ◌>>◌, config,
  no_registration,
}

module _ (V : Platform) where
  unfoldable pub ephemeral_jwk : V.PublicKey → Bytes → Bytes → Result Json
  ephemeral_jwk pub_key alg kid = do
    point ← or_fail (V.ecdh_point pub_key) (join (sentinel config) foreign)
    let size = (V.curve_bits pub_key + 7) / 8
    refuse_if (not (length point == 1 + 2 * size)) (wrap (sentinel config) [])
    ok (
        obj (
          member (codes "kty") (text (codes "EC")) (
            member (codes "crv") (text (V.curve_name pub_key)) (
              member (codes "x") (text (encode (take size (drop 1 point)))) (
                member (codes "y") (text (encode (drop (1 + size) point))) (
                  member (codes "use") (text (codes "enc"))
                    (member (codes "alg") (text alg) (member (codes "kid") (text kid) end))))))))

  unfoldable pub is_zero_registration : V.Registration → Bool
  is_zero_registration r = V.registration_eq r V.zero_registration

  unfoldable pub vp_formats_supported : VpFormats → Json
  vp_formats_supported f = obj (
      member V.format_sdjwt
        (obj (
          member (codes "sd-jwt_alg_values") (arr (texts f.sdjwt_alg_values))
            (member (codes "kb-jwt_alg_values") (arr (texts f.kbjwt_alg_values)) end)))
        (member V.format_mdoc
          (obj (
            member (codes "issuerauth_alg_values") (arr (ints f.mdoc_issuer_auth_alg_values)) (
              member (codes "deviceauth_alg_values") (arr (ints f.mdoc_device_auth_alg_values))
                end)))
          end))

module _ {V : Platform} where
  unfoldable pub client_metadata : Engine V → Session V → Result Json
  client_metadata e s = do
    priv ← ephemeral_private_key s
    jwk ← ephemeral_jwk V (V.public_key priv) e.response_encryption.alg s.id
    ok (
        obj (
          member (codes "jwks") (obj (member (codes "keys") (arr (item jwk nil)) end)) (
            member (codes "encrypted_response_enc_values_supported")
              (arr (texts e.response_encryption.enc_values))
              (member (codes "vp_formats_supported") (vp_formats_supported V e.vp_formats) end))))

  -- The registration data of the session, which every request carries.
  unfoldable pub registration_claim : Session V → Result Json
  registration_claim s = do
    refuse_if (is_zero_registration V s.registration) (sentinel no_registration)
    or_fail (V.registration_claims s.registration) (join (sentinel no_registration) foreign)
