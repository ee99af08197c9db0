-- ===== src/Examples/LifeRuns.antt =====
-- The life of a session.
use go_oid4vp.Base.{◌≡◌, refl, ap, arith, true, List, [], ◌∷◌, some}
use go_oid4vp.Base.Bytes.{Bytes, codes}
use go_oid4vp.Session.{Session}
use go_oid4vp.Fault.{Result, ok, err, sentinel, session_consumed}
use go_oid4vp.Machine.{Machine}
use go_oid4vp.Store.{mark_consumed, MemStore}
use go_oid4vp.Store.Spec.{no_sessions}
use go_oid4vp.Store.Interface.{SessionStore, mem_store}
use go_oid4vp.Store.Implements.{mem_store-Implements}
use go_oid4vp.Store.Client
use go_oid4vp.Store.Client.{assign_self}
use go_oid4vp.Lifecycle.Replay.{save_all, replay_refused}
use go_oid4vp.Examples.Stored.{codec_for}
use go_oid4vp.Response.VpToken.{Presentation}
use go_oid4vp.NewSession.{link_invocation}
use go_oid4vp.SameDevice.{consume_response_code}
use go_oid4vp.WalletMetadata.{absorb_wallet_metadata}
use go_oid4vp.Lifecycle.{Reaches, stays, goes, consumes, answers, redeems, absorbs}
use go_oid4vp.Lifecycle.Later.{IsLater, IsSound}
use go_oid4vp.Lifecycle.Keeps.{new_session-IsSound}
use go_oid4vp.Examples.Toy.{toy, toy_engine}
use go_oid4vp.Examples.Fresh.{toy_spec, source, fresh, drained, created, token}
use go_oid4vp.Examples.ExchangeRuns.{two_faced, marked_at, first_accepts}

-- Consumed, answered, redeemed, and metadata at the end.
abbrev redeemed : Session toy
redeemed = record (mark_consumed fresh) { response_code = token; response_code_used = true }

abbrev ended : Session toy
ended = record redeemed { wallet_metadata = codes "{" }

redeems_token :
    consume_response_code (some (record (mark_consumed fresh) { response_code = token })) token
    ≡ ok redeemed
unfolding consume_response_code go_oid4vp.Base.Bytes.bytes_eq
redeems_token = refl

absorbs_last : absorb_wallet_metadata (some redeemed) (codes "{") ≡ ok ended
unfolding absorb_wallet_metadata
absorbs_last = refl

life : Reaches toy_engine fresh ended
unfolding go_oid4vp.Store.Spec.spec_consume
life =
    goes
      (goes
        (goes (goes stays (consumes 200 (λ id. some fresh) refl refl)) (
          answers two_faced (marked_at fresh) refl (
            ap (λ (p : Result (List Presentation × Bytes) × Machine toy). p.1.session)
              first_accepts)))
        (redeems token redeems_token))
      (absorbs (codes "{") absorbs_last)

new_session-IsSound_example : IsLater fresh ended × IsSound ended
new_session-IsSound_example =
    new_session-IsSound toy_engine toy_spec 9 source drained fresh ended
      (link_invocation toy_engine fresh) created life

-- What the accepted response makes of the marked session.
abbrev answered_session : Session toy
answered_session = record (mark_consumed fresh) { response_code = token }

answered : Reaches toy_engine (mark_consumed fresh) answered_session
answered = goes stays (
    answers two_faced (marked_at fresh) refl
      (ap (λ (p : Result (List Presentation × Bytes) × Machine toy). p.1.session) first_accepts))

abbrev store : SessionStore toy
store = mem_store (codec_for fresh)

abbrev after_save : Result (Unit {0}) × MemStore
after_save = store.save (some fresh) store.empty

replay_refused_example :
    (store.consume_once 300 token (
      save_all store
        (mark_consumed fresh ∷ answered_session ∷ [])
        (store.consume_once 200 token after_save.1).1)).0
    ≡ err (sentinel session_consumed)
unfolding no_sessions
replay_refused_example =
    replay_refused toy_engine store (mem_store-Implements (codec_for fresh)) fresh
      (mark_consumed fresh ∷ answered_session ∷ []) after_save.1 _ 200 300
      (Client.saves store (mem_store-Implements (codec_for fresh)) fresh store.empty no_sessions
        refl refl tt (mem_store-Implements (codec_for fresh)).starts).1
      (assign_self token (some fresh) no_sessions) refl refl (omega arith)
      ((stays, refl), ((answered, refl), tt))
