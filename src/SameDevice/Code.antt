-- ===== src/SameDevice/Code.antt =====
-- The response_code from its minting to its redemption.
use go_oid4vp.Base.{
  ℕ, zero, suc, ◌≤◌, ◌<◌, ◌≡◌, ◌≢◌, ◌↔◌, ◌∙◌, sym, ap, refl, true, false, inl, inr, some, List, [],
  ◌∷◌, arith, length, take, All,
}
use go_oid4vp.Base.Bytes.{
  Bytes, bytes_eq_iff, bytes_eq_refl, bytes_eq_of_ne, is_empty-ne, is_empty_of_ne,
}
use go_oid4vp.Base64.{encode, chars, sextets, char_of}
use go_oid4vp.Base64.RoundTrip.{length-encode, sextets-lt}
use go_oid4vp.Form.{query_escape, escape_byte, is_unreserved}
use go_oid4vp.Platform.{Platform}
use go_oid4vp.Session.{Session}
use go_oid4vp.Engine.{Engine, token_bytes}
use go_oid4vp.Fault.{ok, err, sentinel, response_code_mismatch, response_code_consumed}
use go_oid4vp.Machine.{Machine}
use go_oid4vp.Response.{is_same_device}
use go_oid4vp.Response.VpToken.{Presentation}
use go_oid4vp.Response.Process.{process_response, with_code}
use go_oid4vp.Response.Process.Sound.{Minted, ticked, process_response_iff}
use go_oid4vp.SameDevice.{consume_response_code}

pub length-take-le : (n : ℕ) (bs : Bytes) → n ≤ length bs → length (take n bs) ≡ n
length-take-le zero bs h = refl
length-take-le (suc n) [] h = absurd (omega arith)
length-take-le (suc n) (b ∷ bs) h = omega (arith, length-take-le n bs (omega arith))

-- A token of 16 bytes has 22 characters.
pub length_token :
    (bs : Bytes) → token_bytes ≤ length bs → length (encode (take token_bytes bs)) ≡ 22
length_token bs h =
    omega (arith, length-encode (take token_bytes bs), length-take-le token_bytes bs h)

pub token-ne : (bs : Bytes) → token_bytes ≤ length bs → encode (take token_bytes bs) ≢ []
token-ne bs h e = omega (arith, length_token bs h, ap length e)

-- The URL alphabet of base64 needs no escape.
pub char_of-is_unreserved : (n : ℕ) → n < 64 → escape_byte (char_of n) ≡ char_of n ∷ []
unfolding escape_byte is_unreserved char_of
char_of-is_unreserved n h = ground arith

query_escape-chars : (ns : List ℕ) → All (λ n. n < 64) ns → query_escape (chars ns) ≡ chars ns
unfolding query_escape chars
query_escape-chars [] h = refl
query_escape-chars (n ∷ ns) h = rw (char_of-is_unreserved n h.0, query_escape-chars ns h.1)

pub query_escape-encode :
    (bs : Bytes) → All (λ b. b < 256) bs → query_escape (encode bs) ≡ encode bs
unfolding encode
query_escape-encode bs h = query_escape-chars (sextets bs) (sextets-lt bs h)

module _ {V : Platform} where
  -- A code is redeemed exactly if the session has one, has not used it, and it is the same; then
  -- the session is marked, and nothing else of it changes.
  pub consume_response_code_iff :
      (s s' : Session V) (code : Bytes)
      → (consume_response_code (some s) code ≡ ok s') ↔ (
          (s.response_code ≢ [])
          × (s.response_code_used ≡ false)
          × (s.response_code ≡ code)
          × (s' ≡ record s { response_code_used = true }))
  unfolding consume_response_code
  consume_response_code_iff s s' code = (
    λ h. (
      is_empty-ne s.response_code (ground arith),
      ground arith,
      (bytes_eq_iff s.response_code code).0 (ground arith),
      ground arith,
    ),
    λ h.
        rw
          (is_empty_of_ne s.response_code h.0, h.1, (bytes_eq_iff s.response_code code).1 h.2, h.3),
  )

  Minted-session :
      (w w' : Machine V) (code : Bytes) (u s : Session V)
      → u ≡ s
      → is_same_device s.flow ≡ true
      → Minted u w code w'
      → (w'.session ≡ some (with_code s code))
        × (code ≡ encode (take token_bytes w.random))
        × (code ≢ [])
  Minted-session w w' code u s e f (inl (g, room, c, m)) = (
    ap (λ (v : Machine V). v.session) m ∙ ap (λ (t : Session V). some (with_code t code)) e,
    c,
    λ z. token-ne w.random room (sym c ∙ z),
  )
  Minted-session w w' code u s e f (inr (g, c, m)) =
      cc (sym f ∙ ap (λ (t : Session V). is_same_device t.flow) (sym e) ∙ g)

  -- The session that an accepted response of a same-device session leaves behind.
  pub minted_session :
      (e : Engine V) (body : Bytes) (w w' : Machine V) (prs : List Presentation) (code : Bytes)
      (s : Session V)
      → process_response e body w ≡ (ok (prs, code), w')
      → w.session ≡ some s
      → is_same_device s.flow ≡ true
      → (w'.session ≡ some (with_code s code))
        × (code ≡ encode (take token_bytes w.random))
        × (code ≢ [])
  minted_session e body w w' prs code s h p f =
      let a = (process_response_iff e body w w' prs code).0 h in
      let same : a.s ≡ s = ground (arith, a.admits.pointed) in
      Minted-session (ticked w) w' code a.s s same f a.minted

  redeem_minted :
      (s : Session V) (code : Bytes)
      → code ≢ []
      → (consume_response_code (some (with_code s code)) code
          ≡ ok (record (with_code s code) { response_code_used = true }))
        × ((c : Bytes)
            → consume_response_code
                (some (record (with_code s code) { response_code_used = true }))
                c
              ≡ err (sentinel response_code_consumed))
        × ((c : Bytes)
            → c ≢ code
            → consume_response_code (some (with_code s code)) c
              ≡ err (sentinel response_code_mismatch))
  unfolding consume_response_code
  redeem_minted s code h = (
    rw (is_empty_of_ne code h, bytes_eq_refl code),
    λ c. rw (is_empty_of_ne code h),
    λ c d. rw (is_empty_of_ne code h, bytes_eq_of_ne code c (λ e. d (sym e))),
  )

  -- When a response of a same-device session is accepted, the code that it returns is redeemed once:
  -- a redemption with it succeeds, after that one every code is refused as used, and before it every
  -- other code is refused as not this session's.
  pub minted_code_redeems_once :
      (e : Engine V) (body : Bytes) (w w' : Machine V) (prs : List Presentation) (code : Bytes)
      (s : Session V)
      → process_response e body w ≡ (ok (prs, code), w')
      → w.session ≡ some s
      → is_same_device s.flow ≡ true
      → (s' : Session V) × (consume_response_code w'.session code ≡ ok s')
        × ((c : Bytes) → consume_response_code (some s') c ≡ err (sentinel response_code_consumed))
        × ((c : Bytes)
            → c ≢ code
            → consume_response_code w'.session c ≡ err (sentinel response_code_mismatch))
  minted_code_redeems_once e body w w' prs code s h p f =
      let m = minted_session e body w w' prs code s h p f in
      let r = redeem_minted s code m.2 in
      (record (with_code s code) { response_code_used = true }, rw m.0 r.0, r.1, rw m.0 r.2)
