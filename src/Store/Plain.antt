-- ===== src/Store/Plain.antt =====
-- A plain map from ids to sessions in which a save overwrites whatever is there: what the in-memory
-- store keeps, without its encoding.
use go_oid4vp.Base.{Option, none, some, List, [], ◌∷◌, if◌then◌else◌}
use go_oid4vp.Base.Bytes.{is_empty}
use go_oid4vp.Platform.{Platform}
use go_oid4vp.Session.{Session}
use go_oid4vp.Fault.{Result, ok, err, sentinel, session_invalid}
use go_oid4vp.Store.Spec.{
  Sessions, Call, saves, loads, consumes, Outcome, saved, loaded, consumed, assign, spec_load,
  spec_consume,
}

module _ {V : Platform} where
  unfoldable pub plain_save : Option (Session V) → Sessions V → Result (Unit {0}) × Sessions V
  unfolding assign
  plain_save none f = (err (sentinel session_invalid), f)
  plain_save (some s) f =
      if is_empty s.id then (err (sentinel session_invalid), f) else (ok tt, assign s.id (some s) f)

  unfoldable pub plain_perform : Call V → Sessions V → Outcome V × Sessions V
  unfolding plain_save spec_load spec_consume
  plain_perform (saves s) f = let (r, f') = plain_save s f in (saved r, f')
  plain_perform (loads now id) f = let (r, f') = spec_load now id f in (loaded r, f')
  plain_perform (consumes now id) f = let (r, f') = spec_consume now id f in (consumed r, f')

  unfoldable pub plain_run : List (Call V) → Sessions V → List (Outcome V)
  plain_run [] f = []
  plain_run (k ∷ ks) f = let (o, f') = plain_perform k f in o ∷ plain_run ks f'

  unfoldable pub plain_after : List (Call V) → Sessions V → Sessions V
  plain_after [] f = f
  plain_after (k ∷ ks) f = plain_after ks (plain_perform k f).1
