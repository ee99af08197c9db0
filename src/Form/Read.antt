-- ===== src/Form/Read.antt =====
-- How a wallet reads the query of an invocation, independently of how it was written: the text is
-- split at "&", each part is cut at its first "=", and name and value are unescaped.
use go_oid4vp.Base.{
  ℕ, ◌/◌, ◌%◌, ◌<◌, ◌≡◌, ap, refl, true, false, Option, none, some, List, [], ◌∷◌, ◌++◌, arith, All,
  All-append, ◌==◌, if◌then◌else◌, inl, inr, Bool-cases,
}
use go_oid4vp.Base.Bytes.{Bytes, codes}
use go_oid4vp.Form.{
  escape_byte, hex_digit, is_unreserved, query_escape, query_unescape, encode_values, pair_text,
}
use go_oid4vp.Form.Escape.{query_unescape-query_escape}

push_head : ℕ → List Bytes → List Bytes
push_head x [] = (x ∷ []) ∷ []
push_head x (p ∷ ps) = (x ∷ p) ∷ ps

-- `strings.Split(s, c)`.
unfoldable pub split : ℕ → Bytes → List Bytes
unfolding push_head
split c [] = [] ∷ []
split c (x ∷ xs) = let rest = split c xs in if x == c then [] ∷ rest else push_head x rest

-- What stands before the first c, and what behind it.
unfoldable pub upto : ℕ → Bytes → Bytes
upto c [] = []
upto c (x ∷ xs) = let rest = upto c xs in if x == c then [] else x ∷ rest

unfoldable pub beyond : ℕ → Bytes → Bytes
beyond c [] = []
beyond c (x ∷ xs) = let rest = beyond c xs in if x == c then xs else rest

abbrev both : Option Bytes → Option Bytes → Option (Bytes × Bytes)
both none v = none
both (some k) none = none
both (some k) (some v) = some (k, v)

unfoldable pub read_pair : Bytes → Option (Bytes × Bytes)
read_pair p = both (query_unescape (upto b'=' p)) (query_unescape (beyond b'=' p))

abbrev cons_pair :
    Option (Bytes × Bytes) → Option (List (Bytes × Bytes)) → Option (List (Bytes × Bytes))
cons_pair none r = none
cons_pair (some p) none = none
cons_pair (some p) (some ps) = some (p ∷ ps)

unfoldable pub read_pairs : List Bytes → Option (List (Bytes × Bytes))
read_pairs [] = some []
read_pairs (p ∷ ps) = cons_pair (read_pair p) (read_pairs ps)

unfoldable pub read_query : Bytes → Option (List (Bytes × Bytes))
read_query bs = read_pairs (split b'&' bs)

abbrev pub Free : ℕ → Bytes → Type 0
Free c bs = All (λ b. (b == c) ≡ false) bs

pub split-append :
    (c : ℕ) (bs rest : Bytes) → Free c bs → split c (bs ++ c ∷ rest) ≡ bs ∷ split c rest
unfolding split
split-append c [] rest h = ground arith
split-append c (b ∷ bs) rest h = rw (h.0, split-append c bs rest h.1)

pub split-Free : (c : ℕ) (bs : Bytes) → Free c bs → split c bs ≡ bs ∷ []
unfolding split
split-Free c [] h = refl
split-Free c (b ∷ bs) h = rw (h.0, split-Free c bs h.1)

upto-append : (c : ℕ) (bs rest : Bytes) → Free c bs → upto c (bs ++ c ∷ rest) ≡ bs
unfolding upto
upto-append c [] rest h = ground arith
upto-append c (b ∷ bs) rest h = rw (h.0, upto-append c bs rest h.1)

beyond-append : (c : ℕ) (bs rest : Bytes) → Free c bs → beyond c (bs ++ c ∷ rest) ≡ rest
unfolding beyond
beyond-append c [] rest h = ground arith
beyond-append c (b ∷ bs) rest h = rw (h.0, beyond-append c bs rest h.1)

hex_digit-ne : (n : ℕ) → n < 16 → ((hex_digit n == b'&') ≡ false) × ((hex_digit n == b'=') ≡ false)
unfolding hex_digit
hex_digit-ne n h = ground arith

is_unreserved-ne : (c : ℕ) → is_unreserved c ≡ true → ((c == b'&') ≡ false) × ((c == b'=') ≡ false)
unfolding is_unreserved
is_unreserved-ne c h = ground arith

-- No separator stands in an escaped text.
abbrev IsClean : Bytes → Type 0
IsClean = All (λ b. ((b == b'&') ≡ false) × ((b == b'=') ≡ false))

escape_byte-IsClean : (c : ℕ) → c < 256 → IsClean (escape_byte c)
unfolding escape_byte
escape_byte-IsClean c h = elim (Bool-cases (c == b' ')) [
  | inl space ↦ rw space ((refl, refl), tt)
  | inr other ↦ elim (Bool-cases (is_unreserved c)) [
    | inl plain ↦ rw (other, plain) (is_unreserved-ne c plain, tt)
    | inr hex ↦
        rw (other, hex)
          (
            (refl, refl),
            (hex_digit-ne (c / 16) (omega arith), (hex_digit-ne (c % 16) (omega arith), tt)),
          )
  ]
]

query_escape-IsClean : (bs : Bytes) → All (λ b. b < 256) bs → IsClean (query_escape bs)
unfolding query_escape
query_escape-IsClean [] h = tt
query_escape-IsClean (c ∷ cs) h =
    All-append _ (escape_byte c) (query_escape cs) (escape_byte-IsClean c h.0)
      (query_escape-IsClean cs h.1)

IsClean-Free_amp : (bs : Bytes) → IsClean bs → Free b'&' bs
IsClean-Free_amp [] h = tt
IsClean-Free_amp (b ∷ bs) h = (h.0.0, IsClean-Free_amp bs h.1)

IsClean-Free_eq : (bs : Bytes) → IsClean bs → Free b'=' bs
IsClean-Free_eq [] h = tt
IsClean-Free_eq (b ∷ bs) h = (h.0.1, IsClean-Free_eq bs h.1)

abbrev pub AreBytes : Bytes × Bytes → Type 0
AreBytes m = All (λ b. b < 256) m.0 × All (λ b. b < 256) m.1

pub read_pair-pair_text : (m : Bytes × Bytes) → AreBytes m → read_pair (pair_text m) ≡ some m
unfolding read_pair
read_pair-pair_text (k, v) h =
    let free = IsClean-Free_eq (query_escape k) (query_escape-IsClean k h.0) in
    rw (
      upto-append b'=' (query_escape k) (query_escape v) free,
      beyond-append b'=' (query_escape k) (query_escape v) free,
      query_unescape-query_escape k h.0,
      query_unescape-query_escape v h.1,
    )

pub pair_text-Free : (m : Bytes × Bytes) → AreBytes m → Free b'&' (pair_text m)
pair_text-Free (k, v) h =
    All-append _ (query_escape k) (codes "=" ++ query_escape v)
      (IsClean-Free_amp (query_escape k) (query_escape-IsClean k h.0))
      (refl, IsClean-Free_amp (query_escape v) (query_escape-IsClean v h.1))

-- What is encoded is read back, if all names and values are bytes.
pub read_query-encode_values :
    (m : Bytes × Bytes) (ms : List (Bytes × Bytes))
    → All AreBytes (m ∷ ms)
    → read_query (encode_values (m ∷ ms)) ≡ some (m ∷ ms)
unfolding read_query read_pairs encode_values
read_query-encode_values m [] h =
    rw (split-Free b'&' (pair_text m) (pair_text-Free m h.0), read_pair-pair_text m h.0)
read_query-encode_values m (n ∷ ms) h =
    rw
      (
        split-append b'&' (pair_text m) (encode_values (n ∷ ms)) (pair_text-Free m h.0),
        read_pair-pair_text m h.0,
      )
      (ap (cons_pair (some m)) (read_query-encode_values n ms h.1))
