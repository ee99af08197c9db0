-- ===== src/SameDevice/Redirect.antt =====
-- Where the response_code stands in the URI that the wallet opens.
use mathlib.Core.List.{append_assoc}
use go_oid4vp.Base.{
  ℕ, ◌<◌, ◌≡◌, ◌∙◌, sym, ap, refl, ◌⊎◌, Bool, true, false, inl, inr, some, List, [], ◌∷◌, ◌++◌,
  ◌==◌, arith, take, if◌then◌else◌, Bool-cases, All, All-take,
}
use go_oid4vp.Base.Bytes.{Bytes, codes, has_byte, is_empty_of_ne}
use go_oid4vp.Base64.{encode, chars, sextets, char_of}
use go_oid4vp.Base64.RoundTrip.{sextets-lt}
use go_oid4vp.Form.{query_escape}
use go_oid4vp.Form.Read.{upto, beyond}
use go_oid4vp.Platform.{Platform}
use go_oid4vp.Session.{Session}
use go_oid4vp.Engine.{Engine, token_bytes}
use go_oid4vp.Fault.{ok}
use go_oid4vp.Machine.{Machine}
use go_oid4vp.Response.{is_same_device}
use go_oid4vp.Response.VpToken.{Presentation}
use go_oid4vp.Response.Process.{process_response}
use go_oid4vp.SameDevice.{redirect_uri}
use go_oid4vp.SameDevice.Code.{minted_session, query_escape-encode}

-- The query of a URI, as a browser finds it: what stands behind the first "?" of what stands before
-- the first "#".
unfoldable pub query_of : Bytes → Bytes
query_of uri = beyond b'?' (upto b'#' uri)

upto_absent :
    (c : ℕ) (u rest : Bytes) → has_byte u c ≡ false → upto c (u ++ rest) ≡ u ++ upto c rest
unfolding upto has_byte
upto_absent c [] rest h = refl
upto_absent c (x ∷ u) rest h = elim (Bool-cases (x == c)) [
  | inl hit ↦ ground (arith, hit)
  | inr miss ↦ rw (miss, upto_absent c u rest (ground arith)) refl
]

upto_whole : (u : Bytes) → has_byte u b'#' ≡ false → upto b'#' u ≡ u
unfolding upto has_byte
upto_whole [] h = refl
upto_whole (x ∷ u) h = elim (Bool-cases (x == b'#')) [
  | inl hit ↦ ground (arith, hit)
  | inr miss ↦ rw (miss, upto_whole u (ground arith)) refl
]

upto_present : (c : ℕ) (u rest : Bytes) → has_byte u c ≡ true → upto c (u ++ rest) ≡ upto c u
unfolding upto has_byte
upto_present c [] rest h = cc
upto_present c (x ∷ u) rest h = elim (Bool-cases (x == c)) [
  | inl hit ↦ rw hit refl
  | inr miss ↦ rw (miss, upto_present c u rest (ground arith)) refl
]

beyond_absent : (c : ℕ) (u rest : Bytes) → has_byte u c ≡ false → beyond c (u ++ c ∷ rest) ≡ rest
unfolding beyond has_byte
beyond_absent c [] rest h = let e : (c == c) ≡ true = ground arith in rw e refl
beyond_absent c (x ∷ u) rest h = elim (Bool-cases (x == c)) [
  | inl hit ↦ ground (arith, hit)
  | inr miss ↦ rw miss (beyond_absent c u rest (ground arith))
]

beyond_present :
    (c : ℕ) (u rest : Bytes) → has_byte u c ≡ true → beyond c (u ++ rest) ≡ beyond c u ++ rest
unfolding beyond has_byte
beyond_present c [] rest h = cc
beyond_present c (x ∷ u) rest h = elim (Bool-cases (x == c)) [
  | inl hit ↦ rw hit refl
  | inr miss ↦ rw miss (beyond_present c u rest (ground arith))
]

char_of-ne : (n : ℕ) → n < 64 → (char_of n == b'#') ≡ false
unfolding char_of
char_of-ne n h = ground arith

upto-chars : (ns : List ℕ) → All (λ n. n < 64) ns → upto b'#' (chars ns) ≡ chars ns
unfolding upto chars
upto-chars [] h = refl
upto-chars (n ∷ ns) h = rw (char_of-ne n h.0, upto-chars ns h.1) refl

upto-encode : (bs : Bytes) → All (λ b. b < 256) bs → upto b'#' (encode bs) ≡ encode bs
unfolding encode
upto-encode bs h = upto-chars (sextets bs) (sextets-lt bs h)

-- What the redirect puts behind the return URI.
abbrev pub tail_of : Bytes → Bytes → Bytes
tail_of uri code = (if has_byte uri b'?' then b'&' else b'?') ∷ (codes "response_code=" ++ code)

written :
    (uri code : Bytes) (b : Bool)
    → uri ++ (if b then codes "&" else codes "?") ++ codes "response_code=" ++ code
      ≡ uri ++ ((if b then b'&' else b'?') ∷ (codes "response_code=" ++ code))
written uri code true =
    ap (λ (t : Bytes). t ++ code) (append_assoc uri (codes "&") (codes "response_code="))
    ∙ append_assoc uri (codes "&response_code=") code
written uri code false =
    ap (λ (t : Bytes). t ++ code) (append_assoc uri (codes "?") (codes "response_code="))
    ∙ append_assoc uri (codes "?response_code=") code

upto_tail :
    (uri code : Bytes) → upto b'#' code ≡ code → upto b'#' (tail_of uri code) ≡ tail_of uri code
unfolding upto
upto_tail uri code h = elim (Bool-cases (has_byte uri b'?')) [
  | inl more ↦ rw (more, h) refl
  | inr first ↦ rw (first, h) refl
]

-- The query with the code in it.
abbrev pub joined : Bool → Bytes → Bytes → Bytes
joined true query code = query ++ (codes "&response_code=" ++ code)
joined false query code = codes "response_code=" ++ code

beyond_tail :
    (uri code : Bytes) (b : Bool)
    → has_byte uri b'?' ≡ b
    → beyond b'?' (uri ++ ((if b then b'&' else b'?') ∷ (codes "response_code=" ++ code)))
      ≡ joined b (beyond b'?' uri) code
beyond_tail uri code true h = beyond_present b'?' uri _ h
beyond_tail uri code false h = beyond_absent b'?' uri _ h

-- Behind a URI without a fragment the code joins the query.
query_of_plain :
    (uri code : Bytes)
    → has_byte uri b'#' ≡ false
    → upto b'#' code ≡ code
    → query_of (uri ++ tail_of uri code) ≡ joined (has_byte uri b'?') (query_of uri) code
unfolding query_of
query_of_plain uri code none' h =
    ap (beyond b'?') (
      upto_absent b'#' uri (tail_of uri code) none'
      ∙ ap (λ (t : Bytes). uri ++ t) (upto_tail uri code h))
    ∙ beyond_tail uri code (has_byte uri b'?') refl
    ∙ ap (λ (t : Bytes). joined (has_byte uri b'?') (beyond b'?' t) code)
        (sym (upto_whole uri none'))

-- Behind a fragment it becomes part of that.
query_of_fragment :
    (uri code : Bytes)
    → has_byte uri b'#' ≡ true
    → query_of (uri ++ tail_of uri code) ≡ query_of uri
unfolding query_of
query_of_fragment uri code h = ap (beyond b'?') (upto_present b'#' uri (tail_of uri code) h)

module _ {V : Platform} where
  -- When a response of a same-device session is accepted, and the random source yields bytes, the
  -- redirect is the session's return URI with the returned code behind it. If the return URI has no
  -- fragment, the query of the redirect is response_code with that code, as it is, behind the query
  -- of the return URI and "&" if that has a "?". If it has a fragment, the code ends up in the
  -- fragment: the query of the redirect is the one of the return URI.
  pub redirect_carries_code :
      (e : Engine V) (body : Bytes) (w w' : Machine V) (prs : List Presentation) (code : Bytes)
      (s : Session V)
      → process_response e body w ≡ (ok (prs, code), w')
      → w.session ≡ some s
      → is_same_device s.flow ≡ true
      → All (λ b. b < 256) w.random
      → (uri : Bytes) × (redirect_uri w'.session ≡ ok uri)
        × (uri ≡ s.return_uri ++ tail_of s.return_uri code)
        × (((has_byte s.return_uri b'#' ≡ false)
              × (query_of uri ≡ joined (has_byte s.return_uri b'?') (query_of s.return_uri) code))
            ⊎ ((has_byte s.return_uri b'#' ≡ true) × (query_of uri ≡ query_of s.return_uri)))
  unfolding redirect_uri
  redirect_carries_code e body w w' prs code s h p f bytes =
      let m = minted_session e body w w' prs code s h p f in
      let b = All-take _ token_bytes w.random bytes in
      let plain : query_escape code ≡ code =
        rw m.1 (query_escape-encode (take token_bytes w.random) b) in
      let flat : upto b'#' code ≡ code = rw m.1 (upto-encode (take token_bytes w.random) b) in
      (
        s.return_uri ++ tail_of s.return_uri code,
        rw (m.0, f, is_empty_of_ne code m.2, plain)
            (ap ok (written s.return_uri code (has_byte s.return_uri b'?'))),
        refl,
        elim (Bool-cases (has_byte s.return_uri b'#')) [
          | inl fragment ↦ inr (fragment, query_of_fragment s.return_uri code fragment)
          | inr none' ↦ inl (none', query_of_plain s.return_uri code none' flat)
        ],
      )
