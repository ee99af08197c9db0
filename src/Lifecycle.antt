-- ===== src/Lifecycle.antt =====
-- A session from its making to its end: newsession.go makes it, and the calls of requestobject.go,
-- walletmetadata.go, response.go, dcapi.go, samedevice.go and of the store change it.
pub mod Later
pub mod Keeps
pub mod Replay
use go_oid4vp.Base.{ℕ, ◌≡◌, some}
use go_oid4vp.Base.Bytes.{Bytes}
use go_oid4vp.Platform.{Platform}
use go_oid4vp.Session.{Session}
use go_oid4vp.Engine.{Engine}
use go_oid4vp.Fault.{ok}
use go_oid4vp.Machine.{Machine}
use go_oid4vp.Store.Spec.{Sessions, spec_consume}
use go_oid4vp.Request.{request_object_jwt}
use go_oid4vp.WalletMetadata.{absorb_wallet_metadata}
use go_oid4vp.Response.Process.{process_response}
use go_oid4vp.Dcapi.Process.{process_dcapi_response}
use go_oid4vp.SameDevice.{consume_response_code}

module _ {V : Platform} (e : Engine V) where
  -- One call, accepted or refused, at any time and with any input. `consumes` is the store's
  -- `ConsumeOnce`; the calls that are not here leave the session as it is.
  pub data Step : Session V → Session V → Type 0 where
    fetches :
        {s s' : Session V} (w : Machine V)
        → w.session ≡ some s
        → (request_object_jwt e w).1.session ≡ some s'
        → Step s s'
    absorbs :
        {s s' : Session V} (raw : Bytes) → absorb_wallet_metadata (some s) raw ≡ ok s' → Step s s'
    consumes :
        {s s' : Session V} (now : ℕ) (f : Sessions V)
        → f s.id ≡ some s
        → (spec_consume now s.id f).0 ≡ ok s'
        → Step s s'
    answers :
        {s s' : Session V} (body : Bytes) (w : Machine V)
        → w.session ≡ some s
        → (process_response e body w).1.session ≡ some s'
        → Step s s'
    answers_dcapi :
        {s s' : Session V} (origin body : Bytes) (w : Machine V)
        → w.session ≡ some s
        → (process_dcapi_response e origin body w).1.session ≡ some s'
        → Step s s'
    redeems :
        {s s' : Session V} (code : Bytes) → consume_response_code (some s) code ≡ ok s' → Step s s'

  -- Any number of calls.
  pub data Reaches (s : Session V) : Session V → Type 0 where
    stays : Reaches s s
    goes : {t u : Session V} → Reaches s t → Step t u → Reaches s u
