-- ===== src/NewSession/Secrets.antt =====
-- The secrets of a new session.
use go_oid4vp.Base.{ℕ, ◌<◌, ◌≤◌, ◌≡◌, some, All, All-take, All-drop, length, take, drop}
use go_oid4vp.Base.Bytes.{Bytes}
use go_oid4vp.Base64.{encode, decode}
use go_oid4vp.Base64.RoundTrip.{decode-encode}
use go_oid4vp.Form.{query_escape}
use go_oid4vp.Platform.{Platform}
use go_oid4vp.Session.{Session}
use go_oid4vp.Engine.{Engine, token_bytes}
use go_oid4vp.Fault.{ok}
use go_oid4vp.Machine.{Machine}
use go_oid4vp.SameDevice.Code.{length-take-le, length_token, query_escape-encode}
use go_oid4vp.NewSession.{WalletInvocation, new_session, session_of}
use go_oid4vp.NewSession.Spec.{RequestSpec}
use go_oid4vp.NewSession.Fresh.{chunk, new_session-Makes}

-- A text of 22 characters that needs no escape in a URL and stands for these 16 bytes.
pub record IsToken (t bytes : Bytes) : Type 0 where
  pub characters : length t ≡ 22
  pub sixteen : length bytes ≡ 16
  pub reads : decode t ≡ some bytes
  pub plain : query_escape t ≡ t

encode-IsToken :
    (bs : Bytes)
    → token_bytes ≤ length bs
    → All (λ b. b < 256) bs
    → IsToken (encode (take token_bytes bs)) (take token_bytes bs)
encode-IsToken bs enough bytes =
    let b = All-take _ token_bytes bs bytes in
    record {
      characters = length_token bs enough;
      sixteen = length-take-le token_bytes bs enough;
      reads = decode-encode _ b;
      plain = query_escape-encode _ b;
    }

module _ {V : Platform} where
  -- A new session's id, nonce and state are three texts of 22 characters, which stand for the first,
  -- second and third 16 bytes of the random source and need no escape in a URL, if the source yields
  -- bytes.
  pub new_session-IsToken :
      (e : Engine V) (spec : RequestSpec V) (entropy : ℕ) (w w' : Machine V) (s : Session V)
      (inv : WalletInvocation)
      → new_session e spec entropy w ≡ (ok (s, inv), w')
      → All (λ b. b < 256) w.random
      → IsToken s.id (chunk 0 w.random)
        × IsToken s.nonce (chunk 1 w.random)
        × IsToken s.state (chunk 2 w.random)
  unfolding session_of
  new_session-IsToken e spec entropy w w' s inv made bytes =
      let m = (new_session-Makes e spec entropy w w' s inv made).1 in
      let rest = drop token_bytes w.random in
      let b : All (λ b. b < 256) rest = All-drop _ token_bytes w.random bytes in
      rw m.literal (
        encode-IsToken w.random m.enough.0 bytes,
        encode-IsToken rest m.enough.1 b,
        encode-IsToken (drop token_bytes rest) m.enough.2 (All-drop _ token_bytes rest b),
      )
