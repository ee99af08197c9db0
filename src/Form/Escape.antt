-- ===== src/Form/Escape.antt =====
-- Unescaping after escaping.
use go_oid4vp.Base.{
  ℕ, ◌/◌, ◌%◌, ◌<◌, ◌≡◌, ◌∙◌, ap, refl, true, false, some, [], ◌∷◌, ◌++◌, arith, All, ◌==◌,
  if◌then◌else◌, inl, inr, Bool-cases,
}
use go_oid4vp.Base.Bytes.{Bytes}
use go_oid4vp.Form.{
  is_unreserved, hex_digit, escape_byte, query_escape, unhex, push_byte, query_unescape,
}

unhex-hex_digit : (n : ℕ) → n < 16 → unhex (hex_digit n) ≡ some n
unfolding unhex hex_digit
unhex-hex_digit n h = ground arith

-- A byte that is not escaped reads as itself in front of any text.
unescape_plain :
    (a : ℕ) (cs : Bytes)
    → (a == b'%') ≡ false
    → query_unescape (a ∷ cs) ≡ push_byte (some (if a == b'+' then b' ' else a)) (query_unescape cs)
unfolding query_unescape
unescape_plain a [] h = ground arith
unescape_plain a (b ∷ []) h = ground arith
unescape_plain a (b ∷ c ∷ cs) h = rw (h, query_unescape)

is_unreserved-ne : (c : ℕ) → is_unreserved c ≡ true → ((c == b'%') ≡ false) × ((c == b'+') ≡ false)
unfolding is_unreserved
is_unreserved-ne c h = ground arith

unescape-escape_byte :
    (c : ℕ) (cs : Bytes)
    → c < 256
    → query_unescape (escape_byte c ++ cs) ≡ push_byte (some c) (query_unescape cs)
unfolding escape_byte query_unescape
unescape-escape_byte c cs h = elim (Bool-cases (c == b' ')) [
  | inl space ↦ rw space (
      unescape_plain b'+' cs refl
      ∙ ap (λ (x : ℕ). push_byte (some x) (query_unescape cs)) (ground arith))
  | inr other ↦ elim (Bool-cases (is_unreserved c)) [
    | inl plain ↦
        let ne = is_unreserved-ne c plain in rw (other, plain) (unescape_plain c cs ne.0 ∙ rw ne.1)
    | inr hex ↦
        rw (other, hex, query_unescape)
          (rw (unhex-hex_digit (c / 16) (omega arith), unhex-hex_digit (c % 16) (omega arith))
            (ap (λ (x : ℕ). push_byte (some x) (query_unescape cs)) (omega arith)))
  ]
]

-- Every string of bytes is what its escaped form reads as.
pub query_unescape-query_escape :
    (bs : Bytes) → All (λ b. b < 256) bs → query_unescape (query_escape bs) ≡ some bs
unfolding query_escape
query_unescape-query_escape [] h = unfold query_unescape in refl
query_unescape-query_escape (c ∷ cs) h =
    unescape-escape_byte c (query_escape cs) h.0 ∙ rw (query_unescape-query_escape cs h.1)
