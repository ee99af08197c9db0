-- ===== src/Json.antt =====
-- The JSON values that the package builds as `map[string]any` and hands to `json.Marshal`, and the
-- functions that build them. A map is a list of members with distinct keys.
use go_oid4vp.Base.{ℕ, ◌≡◌, refl, Option, none, some, List, [], ◌∷◌, arith, ℤ, if◌then◌else◌}
use go_oid4vp.Base.Bytes.{Bytes, bytes_eq, bytes_eq_iff}

mutual
  pub data Json : Type 0 where
    null : Json
    text : Bytes → Json
    num : ℕ → Json
    int : ℤ → Json
    arr : Items → Json
    obj : Members → Json

  pub data Items : Type 0 where
    nil : Items
    item : Json → Items → Items

  pub data Members : Type 0 where
    end : Members
    member : Bytes → Json → Members → Members

-- `[]string{…}`, `[]int64{…}` as JSON arrays.
unfoldable pub texts : List Bytes → Items
texts [] = nil
texts (t ∷ ts) = item (text t) (texts ts)

unfoldable pub ints : List ℤ → Items
ints [] = nil
ints (n ∷ ns) = item (int n) (ints ns)

-- `m[key] = value`.
unfoldable pub set : Bytes → Json → Members → Members
set k v end = member k v end
set k v (member j w m) = if bytes_eq j k then member j v m else member j w (set k v m)

-- `m[key]`.
unfoldable pub get : Bytes → Members → Option Json
get k end = none
get k (member j w m) = if bytes_eq j k then some w else get k m

pub get-set :
    (k j : Bytes) (v : Json) (m : Members)
    → get j (set k v m) ≡ (if bytes_eq k j then some v else get j m)
unfolding get set
get-set k j v end = refl
get-set k j v (member i w m) =
    ground (arith, bytes_eq_iff k j, bytes_eq_iff i k, bytes_eq_iff i j, get-set k j v m)
