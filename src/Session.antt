-- ===== src/Session.antt =====
-- session.go: the session record and the recovery of its private key.
use go_oid4vp.Base.{ℕ, Bool, Option, none, some, List}
use go_oid4vp.Base.Bytes.{Bytes}
use go_oid4vp.Platform.{Platform}
use go_oid4vp.Fault.{Result, ok, err, sentinel, foreign, wrap, join, session_invalid}

-- `Flow` is a string type: `other` is any text but the three constants.
pub data Flow : Type 0 where
  same_device cross_device dcapi : Flow
  other : Bytes → Flow

-- Times are nanoseconds since the epoch; a nil slice is the empty list.
pub record Session (V : Platform) : Type 0 where
  pub id : Bytes
  pub flow : Flow
  pub client_id : Bytes
  pub nonce : Bytes
  pub state : Bytes
  pub response_uri : Bytes
  pub return_uri : Bytes
  pub query : V.Query
  pub registration : V.Registration
  pub wrprc : Bytes
  pub transaction_data : List Bytes
  pub expected_origins : List Bytes
  pub ephemeral_key_pkcs8 : Bytes
  pub created_at : ℕ
  pub expires_at : ℕ
  pub request_object_served : Bool
  pub wallet_metadata : Bytes
  pub consumed : Bool
  pub response_code : Bytes
  pub response_code_used : Bool

-- The type assertion on what `x509.ParsePKCS8PrivateKey` returns.
abbrev as_ec {ℓ} : {A : Type ℓ} → Option (Option A) → Result A
as_ec none = err (join (sentinel session_invalid) foreign)
as_ec (some none) = err (wrap (sentinel session_invalid) List.[])
as_ec (some (some k)) = ok k

module _ {V : Platform} where
  unfoldable pub ephemeral_private_key : Session V → Result V.PrivateKey
  ephemeral_private_key s = as_ec (V.parse_pkcs8 s.ephemeral_key_pkcs8)
