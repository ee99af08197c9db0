-- ===== src/Form/Query.antt =====
-- `url.Values` and `url.ParseQuery` of net/url: the parts between ampersands, each cut at its first
-- "=", with its escapes read; an empty part is passed over. A semicolon, an escape that is none, or
-- more than 10,000 parts (the limit of Go's setting `urlmaxqueryparams`) is an error.
use go_oid4vp.Base.{ℕ, Option, none, some, List, [], ◌∷◌, ◌++◌, length, ltb, if◌then◌else◌}
use go_oid4vp.Base.Bytes.{Bytes, is_empty, has_byte}
use go_oid4vp.Base.Table.{Table, lookup, insert}
use go_oid4vp.Form.Read.{split, read_pair}

abbrev pub Values : Type 0
Values = Table (List Bytes)

abbrev pub max_params : ℕ
max_params = 10_000

abbrev pub first : Option (List Bytes) → Bytes
first none = []
first (some []) = []
first (some (v ∷ vs)) = v

-- `vals.Get(key)`: the first value, or "".
unfoldable pub get : Bytes → Values → Bytes
get key vals = first (lookup key vals)

abbrev pub all_of : Option (List Bytes) → List Bytes
all_of none = []
all_of (some vs) = vs

-- `m[key] = append(m[key], value)`.
unfoldable pub append_value : Bytes × Bytes → Values → Values
append_value (k, v) m = insert k (all_of (lookup k m) ++ v ∷ []) m

abbrev pub append_pair : Option (Bytes × Bytes) → Values → Option Values
append_pair none m = none
append_pair (some p) m = some (append_value p m)

-- One part.
unfoldable pub parse_part : Bytes → Values → Option Values
parse_part p m =
    if has_byte p b';' then none else if is_empty p then some m else append_pair (read_pair p) m

abbrev pub and_then : Option Values → (Values → Option Values) → Option Values
and_then none f = none
and_then (some m) f = f m

-- After an error `ParseQuery` goes on and returns the error in the end; the map is then not used.
unfoldable pub parse_parts : List Bytes → Values → Option Values
parse_parts [] m = some m
parse_parts (p ∷ ps) m = and_then (parse_part p m) (parse_parts ps)

unfoldable pub parse_query : Bytes → Option Values
parse_query query =
    let parts = split b'&' query in
    if ltb max_params (length parts) then none else parse_parts parts []
