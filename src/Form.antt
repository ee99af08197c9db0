-- ===== src/Form.antt =====
-- `url.QueryEscape`, `url.QueryUnescape` and `url.Values.Encode` of net/url.
pub mod Escape
pub mod Read
pub mod Query
pub mod Posted
use go_oid4vp.Base.{
  ℕ, ◌+◌, ◌-◌, ◌*◌, ◌/◌, ◌%◌, Bool, ◌&&◌, ◌||◌, Option, none, some, List, [], ◌∷◌, ◌++◌, ltb, leb,
  ◌==◌, if◌then◌else◌,
}
use go_oid4vp.Base.Bytes.{Bytes, codes}

-- The characters that stay as they are: letters, digits and - _ . ~
unfoldable pub is_unreserved : ℕ → Bool
is_unreserved c =
    leb b'a' c && leb c b'z'
    || leb b'A' c && leb c b'Z'
    || leb b'0' c && leb c b'9'
    || c == b'-'
    || c == b'_'
    || c == b'.'
    || c == b'~'

-- "0123456789ABCDEF"[n]
unfoldable pub hex_digit : ℕ → ℕ
hex_digit n = if ltb n 10 then n + b'0' else n - 10 + b'A'

unfoldable pub escape_byte : ℕ → Bytes
escape_byte c =
    if c == b' '
    then b'+' ∷ []
    else if is_unreserved c
    then c ∷ []
    else b'%' ∷ hex_digit (c / 16) ∷ hex_digit (c % 16) ∷ []

unfoldable pub query_escape : Bytes → Bytes
query_escape [] = []
query_escape (c ∷ cs) = escape_byte c ++ query_escape cs

unfoldable pub unhex : ℕ → Option ℕ
unhex c =
    if leb b'0' c && leb c b'9'
    then some (c - b'0')
    else if leb b'a' c && leb c b'f'
    then some (c - b'a' + 10)
    else if leb b'A' c && leb c b'F'
    then some (c - b'A' + 10)
    else none

abbrev pub push_byte : Option ℕ → Option Bytes → Option Bytes
push_byte none rest = none
push_byte (some c) none = none
push_byte (some c) (some cs) = some (c ∷ cs)

abbrev pub hex_pair : Option ℕ → Option ℕ → Option ℕ
hex_pair none l = none
hex_pair (some h) none = none
hex_pair (some h) (some l) = some (h * 16 + l)

abbrev plain_byte : ℕ → ℕ
plain_byte c = if c == b'+' then b' ' else c

abbrev plain_or_bad : ℕ → Option ℕ
plain_or_bad c = if c == b'%' then none else some (plain_byte c)

-- A percent sign wants two hexadecimal digits behind it.
unfoldable pub query_unescape : Bytes → Option Bytes
query_unescape [] = some []
query_unescape (a ∷ []) = push_byte (plain_or_bad a) (some [])
query_unescape (a ∷ b ∷ []) = push_byte (plain_or_bad a) (push_byte (plain_or_bad b) (some []))
query_unescape (a ∷ b ∷ c ∷ cs) = elim (a == b'%') [
  | Bool.true ↦ push_byte (hex_pair (unhex b) (unhex c)) (query_unescape cs)
  | Bool.false ↦ push_byte (some (plain_byte a)) (query_unescape (b ∷ c ∷ cs))
]

-- One parameter of a query.
abbrev pub pair_text : Bytes × Bytes → Bytes
pair_text m = query_escape m.0 ++ (codes "=" ++ query_escape m.1)

-- `Values.Encode` for keys with one value each, in ascending order of the keys.
unfoldable pub encode_values : List (Bytes × Bytes) → Bytes
encode_values [] = []
encode_values (m ∷ []) = pair_text m
encode_values (m ∷ n ∷ ms) = pair_text m ++ (codes "&" ++ encode_values (n ∷ ms))
