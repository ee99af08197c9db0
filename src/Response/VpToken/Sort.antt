-- ===== src/Response/VpToken/Sort.antt =====
-- `sort.Strings`: the one ascending order, byte by byte. Any correct sorting gives the same list.
use go_oid4vp.Base.{Bool, true, false, List, [], ◌∷◌, ltb, ◌==◌, ◌&&◌, ◌||◌, if◌then◌else◌}
use go_oid4vp.Base.Bytes.{Bytes}

-- Go's `a <= b` on strings.
unfoldable pub bytes_leb : Bytes → Bytes → Bool
bytes_leb [] ys = true
bytes_leb (x ∷ xs) [] = false
bytes_leb (x ∷ xs) (y ∷ ys) = ltb x y || x == y && bytes_leb xs ys

unfoldable pub sorted_insert : Bytes → List Bytes → List Bytes
sorted_insert x [] = x ∷ []
sorted_insert x (y ∷ ys) = if bytes_leb x y then x ∷ y ∷ ys else y ∷ sorted_insert x ys

unfoldable pub sort : List Bytes → List Bytes
sort [] = []
sort (x ∷ xs) = sorted_insert x (sort xs)
