-- ===== src/Base64.antt =====
-- `base64.RawURLEncoding` of encoding/base64: the URL alphabet without padding. As in Go, decoding
-- skips line breaks and does not look at the unused bits of the last character.
pub mod RoundTrip
use go_oid4vp.Base.{
  ℕ, ◌+◌, ◌-◌, ◌*◌, ◌/◌, ◌%◌, Bool, ◌&&◌, ◌||◌, Option, none, some, List, [], ◌∷◌, ltb, leb, ◌==◌,
  if◌then◌else◌,
}
use go_oid4vp.Base.Bytes.{Bytes}

-- The alphabet A-Z a-z 0-9 - _.
unfoldable pub char_of : ℕ → ℕ
char_of n =
    if ltb n 26
    then n + b'A'
    else if ltb n 52
    then n - 26 + b'a'
    else if ltb n 62
    then n - 52 + b'0'
    else if n == 62
    then b'-'
    else b'_'

unfoldable pub value_of : ℕ → Option ℕ
value_of c =
    if leb b'A' c && leb c b'Z'
    then some (c - b'A')
    else if leb b'a' c && leb c b'z'
    then some (c - b'a' + 26)
    else if leb b'0' c && leb c b'9'
    then some (c - b'0' + 52)
    else if c == b'-'
    then some 62
    else if c == b'_'
    then some 63
    else none

-- The 6-bit groups of a byte string.
unfoldable pub sextets : Bytes → List ℕ
sextets [] = []
sextets (a ∷ []) = (a / 4) ∷ (a % 4 * 16) ∷ []
sextets (a ∷ b ∷ []) = (a / 4) ∷ (a % 4 * 16 + b / 16) ∷ (b % 16 * 4) ∷ []
sextets (a ∷ b ∷ c ∷ rest) =
    (a / 4) ∷ (a % 4 * 16 + b / 16) ∷ (b % 16 * 4 + c / 64) ∷ (c % 64) ∷ sextets rest

unfoldable pub chars : List ℕ → Bytes
chars [] = []
chars (n ∷ ns) = char_of n ∷ chars ns

-- `EncodeToString`.
unfoldable pub encode : Bytes → Bytes
encode bs = chars (sextets bs)

abbrev push : ℕ → Option (List ℕ) → Option (List ℕ)
push n none = none
push n (some ns) = some (n ∷ ns)

abbrev push_value : Option ℕ → Option (List ℕ) → Option (List ℕ)
push_value none rest = none
push_value (some n) rest = push n rest

-- The values of the characters, without line breaks.
unfoldable pub values : Bytes → Option (List ℕ)
values [] = some []
values (c ∷ cs) =
    let rest = values cs in if c == 10 || c == 13 then rest else push_value (value_of c) rest

-- The bytes of the groups; one character alone is an error.
unfoldable pub join_sextets : List ℕ → Option Bytes
join_sextets [] = some []
join_sextets (a ∷ []) = none
join_sextets (a ∷ b ∷ []) = some ((a * 4 + b / 16) ∷ [])
join_sextets (a ∷ b ∷ c ∷ []) = some ((a * 4 + b / 16) ∷ (b % 16 * 16 + c / 4) ∷ [])
join_sextets (a ∷ b ∷ c ∷ d ∷ rest) =
    push (a * 4 + b / 16) (push (b % 16 * 16 + c / 4) (push (c % 4 * 64 + d) (join_sextets rest)))

abbrev pub then_join : Option (List ℕ) → Option Bytes
then_join none = none
then_join (some ns) = join_sextets ns

-- `DecodeString`.
unfoldable pub decode : Bytes → Option Bytes
decode cs = then_join (values cs)
