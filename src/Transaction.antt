-- ===== src/Transaction.antt =====
-- transactiondata.go: transaction_data in the request, and its hashes in the presentation.
pub mod Counts
pub mod Echo
use go_oid4vp.Base.{
  ℕ, suc, ◌-◌, Bool, not, ◌&&◌, Option, none, some, List, [], ◌∷◌, map, ltb, length, ◌==◌,
  if◌then◌else◌,
}
use go_oid4vp.Base.Bytes.{Bytes, bytes_eq, is_empty}
use go_oid4vp.Base.Table.{Table, lookup, insert}
use go_oid4vp.Base64.{encode}
use go_oid4vp.Json.{Items, texts}
use go_oid4vp.Platform.{Platform, Document}
use go_oid4vp.Session.{Session}
use go_oid4vp.Engine.{Engine}
use go_oid4vp.Fault.{
  Result, ok, err, sentinel, foreign, wrap, refuse_if, or_fail, ◌>>=◌, ◌>>◌, session_invalid,
  transaction_data_disabled, transaction_data_invalid, transaction_data_missing,
  transaction_data_unexpected, transaction_data_mismatch,
}

unfoldable pub transaction_data_strings : List Bytes → Items
transaction_data_strings td = texts (map encode td)

-- Not `err != nil || obj == nil`: the first value is an object; what follows it is not looked at.
abbrev pub is_object : Option Document → Bool
is_object none = Bool.false
is_object (some d) = not d.is_nil

module _ (V : Platform) where
  unfoldable pub validate_transaction_data : List Bytes → Result (Unit {0})
  validate_transaction_data [] = ok tt
  validate_transaction_data (e ∷ es) =
      let rest = validate_transaction_data es in
      if is_object (V.decode_document e)
      then rest
      else err (wrap (sentinel transaction_data_invalid) [])

  -- The body of the loop of `TransactionDataHashes`.
  unfoldable pub hash_entry : V.Hash → Bytes → Bytes
  hash_entry h e = encode (V.digest h (encode e))

  -- With the policy resolved: a nil policy stands for `crypto.ECCG()`.
  unfoldable pub transaction_data_hashes : List Bytes → Bytes → V.Policy → Result (List Bytes)
  transaction_data_hashes td alg policy = do
    h ← or_fail (V.hash_for_alg policy alg) foreign
    refuse_if (not (V.is_available h)) (wrap foreign (alg ∷ []))
    ok (map (hash_entry h) td)

-- `remaining[key]` of a `map[string]int`.
abbrev pub count_of : Option ℕ → ℕ
count_of none = 0
count_of (some n) = n

unfoldable pub remaining_of : Table ℕ → Bytes → ℕ
remaining_of m k = count_of (lookup k m)

-- `for _, w := range want { remaining[w]++ }`.
unfoldable pub count_all : List Bytes → Table ℕ → Table ℕ
count_all [] m = m
count_all (w ∷ ws) m = count_all ws (insert w (suc (remaining_of m w)) m)

-- `for _, got := range echoedHashes { … remaining[got]-- }`.
unfoldable pub match_all : List Bytes → Table ℕ → Result (Unit {0})
match_all [] m = ok tt
match_all (g ∷ gs) m =
    let rest = match_all gs (insert g (remaining_of m g - 1) m) in
    if remaining_of m g == 0 then err (sentinel transaction_data_mismatch) else rest

-- The comparison of the expected hashes with the echoed ones.
unfoldable pub compare_hashes : List Bytes → List Bytes → Result (Unit {0})
compare_hashes want echoed =
    if not (length want == length echoed)
    then err (sentinel transaction_data_mismatch)
    else match_all echoed (count_all want [])

module _ {V : Platform} where
  check_echo : Engine V → Session V → List Bytes → Bytes → Result (Unit {0})
  check_echo e s echoed alg =
      if is_empty s.transaction_data
      then refuse_if (not (is_empty echoed)) (sentinel transaction_data_unexpected)
      else (do
        refuse_if (is_empty echoed) (sentinel transaction_data_missing)
        want ← transaction_data_hashes V s.transaction_data alg e.policy
        compare_hashes want echoed)

  unfoldable pub validate_transaction_data_echo :
      Engine V → Option (Session V) → List Bytes → Bytes → Result (Unit {0})
  unfolding check_echo
  validate_transaction_data_echo e p echoed alg = do
    s ← or_fail p (sentinel session_invalid)
    refuse_if (not (is_empty s.transaction_data) && not e.enable_transaction_data)
        (sentinel transaction_data_disabled)
    check_echo e s echoed alg
