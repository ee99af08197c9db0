-- ===== src/Request/Claims.antt =====
-- requestobject.go, `requestClaims`: the members of the Request Object.
use go_oid4vp.Base.{ℕ, ◌/◌, Bool, not, ◌&&◌, List, if◌then◌else◌}
use go_oid4vp.Base.Bytes.{Bytes, codes, is_empty}
use go_oid4vp.Json.{Json, text, num, arr, obj, nil, item, Members, end, member, set}
use go_oid4vp.Platform.{Platform}
use go_oid4vp.Session.{Session}
use go_oid4vp.Engine.{Engine}
use go_oid4vp.Transaction.{transaction_data_strings}
use go_oid4vp.Machine.{M, pure, lift, now, ◌>>=◌}
use go_oid4vp.Request.Metadata.{client_metadata, registration_claim}

abbrev pub aud_wallet : Bytes
aud_wallet = codes "https://self-issued.me/v2"

abbrev pub member_registration : Bytes
member_registration = codes "verifier_registration"

abbrev pub member_verifier_info : Bytes
member_verifier_info = codes "verifier_info"

-- `t.Unix()` of a time in nanoseconds.
abbrev pub unix : ℕ → Json
unix t = num (t / 1_000_000_000)

-- The two optional members, which `requestClaims` and `dcapiClaims` add alike.
unfoldable pub with_verifier_info : Bytes → Members → Members
with_verifier_info wrprc claims =
    if is_empty wrprc
    then claims
    else set member_verifier_info
        (arr (
          item
            (obj (
              member (codes "format") (text (codes "jwt"))
                (member (codes "data") (text wrprc) end)))
            nil))
        claims

unfoldable pub with_transaction_data : Bool → List Bytes → Members → Members
with_transaction_data enabled td claims =
    if not (is_empty td) && enabled
    then set (codes "transaction_data") (arr (transaction_data_strings td)) claims
    else claims

module _ {V : Platform} where
  -- The map literal.
  unfoldable pub base_claims : Engine V → Session V → Json → Json → ℕ → Members
  base_claims e s reg cm t = member (codes "iss") (text e.client_id) (
      member (codes "aud") (text aud_wallet) (
        member (codes "iat") (unix t) (
          member (codes "nbf") (unix t) (
            member (codes "exp") (unix s.expires_at) (
              member (codes "client_id") (text e.client_id) (
                member (codes "response_type") (text (codes "vp_token")) (
                  member (codes "response_mode") (text (codes "direct_post.jwt")) (
                    member (codes "response_uri") (text s.response_uri) (
                      member (codes "nonce") (text s.nonce) (
                        member (codes "state") (text s.state) (
                          member (codes "dcql_query") (V.query_json s.query) (
                            member (codes "client_metadata") cm
                              (member member_registration reg end)))))))))))))

  unfoldable pub full_claims : Engine V → Session V → Json → Json → ℕ → Members
  full_claims e s reg cm t =
      with_transaction_data e.enable_transaction_data s.transaction_data
        (with_verifier_info s.wrprc (base_claims e s reg cm t))

  unfoldable pub request_claims : Engine V → Session V → M V Members
  request_claims e s = do
    reg ← lift (registration_claim s)
    cm ← lift (client_metadata e s)
    t ← now
    pure (full_claims e s reg cm t)
