-- ===== src/NewSession/Link.antt =====
-- What a wallet reads from an invocation.
use go_oid4vp.Base.{◌<◌, ◌≡◌, refl, some, [], ◌∷◌, ◌++◌, arith, All}
use go_oid4vp.Base.Bytes.{Bytes, codes}
use go_oid4vp.Form.Read.{read_query, read_query-encode_values}
use go_oid4vp.Platform.{Platform}
use go_oid4vp.Session.{Session}
use go_oid4vp.Engine.{Engine}
use go_oid4vp.NewSession.{request_uri_of, link_invocation, invocation_query}

module _ {V : Platform} where
  -- If the client id and the request_uri consist of bytes, then the custom-scheme URI, which is also
  -- the QR payload, and the universal link are "openid4vp://" and the configured base with one and
  -- the same query, from which a wallet that splits and unescapes it reads exactly client_id,
  -- request_uri and request_uri_method = get.
  pub link_invocation_reads :
      (e : Engine V) (s : Session V)
      → All (λ b. b < 256) e.client_id
      → All (λ b. b < 256) (request_uri_of e s)
      → (q : Bytes) × ((link_invocation e s).scheme_uri ≡ codes "openid4vp://?" ++ q)
        × ((link_invocation e s).qr_payload ≡ (link_invocation e s).scheme_uri)
        × ((link_invocation e s).universal_link ≡ e.universal_link_base ++ codes "?" ++ q)
        × (read_query q
            ≡ some (
                (codes "client_id", e.client_id)
                ∷ (codes "request_uri", request_uri_of e s)
                ∷ (codes "request_uri_method", codes "get")
                ∷ []))
  unfolding link_invocation invocation_query
  link_invocation_reads e s c u = (
    invocation_query e.client_id (request_uri_of e s),
    refl,
    refl,
    refl,
    read_query-encode_values _ _
        ((omega arith, c), ((omega arith, u), ((omega arith, omega arith), tt))),
  )
