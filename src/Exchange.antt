-- ===== src/Exchange.antt =====
-- A whole exchange: newsession.go, the store and response.go together, with a wallet that is not
-- part of the package.
pub mod Fetches
pub mod Completes
pub mod Apart
use go_oid4vp.Base.{◌≡◌, some}
use go_oid4vp.Base.Bytes.{Bytes}
use go_oid4vp.Platform.{Platform}

-- What the package relies on of the libraries that it shares with a wallet: a JWE for a public key is
-- decrypted with its private key, and a key comes back from its PKCS#8 form. `header` is the header
-- that the wallet puts on its JWE.
pub record Wallet (V : Platform) : Type 0 where
  pub header : V.Header
  pub encrypt : V.PublicKey → Bytes → Bytes
  pub decrypts :
      (id : Bytes) (k : V.PrivateKey) (plain : Bytes)
      → V.decrypt_jwe (V.static_provider id k) id (encrypt (V.public_key k) plain)
        ≡ some (plain, header)
  pub key_kept :
      (k : V.PrivateKey) (der : Bytes)
      → V.marshal_pkcs8 k ≡ some der
      → V.parse_pkcs8 der ≡ some (some k)
