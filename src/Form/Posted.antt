-- ===== src/Form/Posted.antt =====
-- Reading a form that was encoded.
use go_oid4vp.Base.{
  ℕ, suc, ◌≤◌, ◌<◌, ◌/◌, ◌%◌, ◌≡◌, ap, refl, true, false, ◌||◌, ◌==◌, some, List, [], ◌∷◌, ◌++◌,
  arith, All, length, ltb, Bool-cases, inl, inr,
}
use go_oid4vp.Base.Bytes.{Bytes, codes, is_empty, has_byte}
use go_oid4vp.Form.{escape_byte, hex_digit, is_unreserved, query_escape, encode_values, pair_text}
use go_oid4vp.Form.Read.{
  split, AreBytes, split-append, split-Free, pair_text-Free, read_pair-pair_text,
}
use go_oid4vp.Form.Query.{Values, append_value, parse_part, parse_parts, parse_query, max_params}

-- What a form of these pairs holds.
abbrev pub collect : List (Bytes × Bytes) → Values → Values
collect [] m = m
collect (p ∷ ps) m = collect ps (append_value p m)

has_byte-append : (c : ℕ) (xs ys : Bytes) → has_byte (xs ++ ys) c ≡ (has_byte xs c || has_byte ys c)
unfolding has_byte
has_byte-append c [] ys = refl
has_byte-append c (x ∷ xs) ys = ground (arith, has_byte-append c xs ys)

hex_digit-ne : (n : ℕ) → n < 16 → (hex_digit n == b';') ≡ false
unfolding hex_digit
hex_digit-ne n h = ground arith

is_unreserved-ne : (c : ℕ) → is_unreserved c ≡ true → (c == b';') ≡ false
unfolding is_unreserved
is_unreserved-ne c h = ground arith

escape_byte-has_byte : (c : ℕ) → c < 256 → has_byte (escape_byte c) b';' ≡ false
unfolding escape_byte has_byte
escape_byte-has_byte c h = elim (Bool-cases (c == b' ')) [
  | inl space ↦ rw space refl
  | inr other ↦ elim (Bool-cases (is_unreserved c)) [
    | inl plain ↦ rw (other, plain, is_unreserved-ne c plain) refl
    | inr hex ↦
        rw (other, hex, hex_digit-ne (c / 16) (omega arith), hex_digit-ne (c % 16) (omega arith))
          refl
  ]
]

query_escape-has_byte :
    (bs : Bytes) → All (λ b. b < 256) bs → has_byte (query_escape bs) b';' ≡ false
unfolding query_escape
query_escape-has_byte [] h = unfold has_byte in refl
query_escape-has_byte (c ∷ cs) h =
    rw
      (
        has_byte-append b';' (escape_byte c) (query_escape cs),
        escape_byte-has_byte c h.0,
        query_escape-has_byte cs h.1,
      )
      refl

pair_text-has_byte : (m : Bytes × Bytes) → AreBytes m → has_byte (pair_text m) b';' ≡ false
pair_text-has_byte (k, v) h =
    rw
      (
        has_byte-append b';' (query_escape k) (codes "=" ++ query_escape v),
        query_escape-has_byte k h.0,
      )
      (unfold has_byte in query_escape-has_byte v h.1)

append-is_empty : (c : ℕ) (xs ys : Bytes) → is_empty (xs ++ c ∷ ys) ≡ false
append-is_empty c [] ys = refl
append-is_empty c (x ∷ xs) ys = refl

pair_text-is_empty : (m : Bytes × Bytes) → is_empty (pair_text m) ≡ false
pair_text-is_empty (k, v) = append-is_empty b'=' (query_escape k) (query_escape v)

parse_part-pair_text :
    (m : Bytes × Bytes) (vals : Values)
    → AreBytes m
    → parse_part (pair_text m) vals ≡ some (append_value m vals)
unfolding parse_part
parse_part-pair_text m vals h =
    rw (pair_text-has_byte m h, pair_text-is_empty m, read_pair-pair_text m h) refl

parse_parts-split :
    (m : Bytes × Bytes) (ms : List (Bytes × Bytes)) (vals : Values)
    → All AreBytes (m ∷ ms)
    → parse_parts (split b'&' (encode_values (m ∷ ms))) vals ≡ some (collect (m ∷ ms) vals)
unfolding parse_parts encode_values
parse_parts-split m [] vals h =
    rw (split-Free b'&' (pair_text m) (pair_text-Free m h.0), parse_part-pair_text m vals h.0) refl
parse_parts-split m (n ∷ ms) vals h =
    rw
      (
        split-append b'&' (pair_text m) (encode_values (n ∷ ms)) (pair_text-Free m h.0),
        parse_part-pair_text m vals h.0,
      )
      (parse_parts-split n ms (append_value m vals) h.1)

length-split :
    (m : Bytes × Bytes) (ms : List (Bytes × Bytes))
    → All AreBytes (m ∷ ms)
    → length (split b'&' (encode_values (m ∷ ms))) ≡ length (m ∷ ms)
unfolding encode_values
length-split m [] h = rw (split-Free b'&' (pair_text m) (pair_text-Free m h.0)) refl
length-split m (n ∷ ms) h =
    rw (split-append b'&' (pair_text m) (encode_values (n ∷ ms)) (pair_text-Free m h.0))
      (ap suc (length-split n ms h.1))

-- A form of up to 10,000 pairs is read as what it was made of.
pub parse_query-encode_values :
    (m : Bytes × Bytes) (ms : List (Bytes × Bytes))
    → All AreBytes (m ∷ ms)
    → length (m ∷ ms) ≤ 10_000
    → parse_query (encode_values (m ∷ ms)) ≡ some (collect (m ∷ ms) [])
unfolding parse_query
parse_query-encode_values m ms h few =
    let within : ltb max_params (length (split b'&' (encode_values (m ∷ ms)))) ≡ false =
      ground (arith, length-split m ms h) in
    rw within (parse_parts-split m ms [] h)
