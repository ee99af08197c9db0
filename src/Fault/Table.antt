-- ===== src/Fault/Table.antt =====
-- What `ErrorResponse` answers.
use go_oid4vp.Base.{
  ℕ, ◌≡◌, ◌≢◌, ◌⊎◌, inl, inr, refl, ◌∙◌, Bool, true, false, ◌||◌, ◌&&◌, not, ◌==◌, none, some, List,
  [], ◌∷◌, arith, Bool-cases,
}
use go_oid4vp.Base.Bytes.{codes, bytes_eq, bytes_eq_iff}
use mathlib.Core.List.{Mem, mem-cons}
use mathlib.Core.Logic.Or
use go_oid4vp.Fault.{
  sentinel, Sentinel, session_invalid, session_not_found, session_expired, session_consumed,
  session_not_consumed, config, san_mismatch, unsupported_client_id_prefix, spec, no_registration,
  flow_mismatch, request_uri_consumed, wallet_metadata_invalid, body_too_large, malformed_response,
  decrypt, state_mismatch, apv_mismatch, unknown_credential_id, no_response_code,
  response_code_mismatch, response_code_consumed, origin_not_expected, transaction_data_disabled,
  transaction_data_invalid, transaction_data_missing, transaction_data_unexpected,
  transaction_data_mismatch, transcript_params, Error, is, as_wallet_error, index,
}
use go_oid4vp.Fault.Response.{
  code_text, Reply, SentinelMapping, error_table, find_row, error_response,
}

find_row-cong :
    (e f : Error)
    → ((t : Sentinel) → is e t ≡ is f t)
    → (ms : List SentinelMapping) → find_row e ms ≡ find_row f ms
unfolding find_row
find_row-cong e f same [] = refl
find_row-cong e f same (m ∷ ms) = rw (same m.target, find_row-cong e f same ms)

-- Two errors without a wallet's error that match the same sentinels get the same reply, whatever
-- texts they quote and however they are nested: nothing else of an error reaches the wallet.
pub error_response_by_sentinels :
    (e f : Error)
    → as_wallet_error e ≡ none
    → as_wallet_error f ≡ none
    → ((t : Sentinel) → is e t ≡ is f t)
    → error_response (some e) ≡ error_response (some f)
unfolding error_response
error_response_by_sentinels e f he hf same = rw (he, hf) (find_row-cong e f same error_table)

abbrev is_internal : Reply → Bool
is_internal r =
    r.status == 500
    && bytes_eq (code_text r.code) (codes "server_error")
    && bytes_eq r.description (codes "internal error")

abbrev is_client_fault : Reply → Bool
is_client_fault r =
    (r.status == 400 || r.status == 404) && not (bytes_eq (code_text r.code) (codes "server_error"))

-- All the replies of a list of rows are of one of the two kinds.
all_public : List SentinelMapping → Bool
all_public [] = true
all_public (m ∷ ms) = (is_internal m.reply || is_client_fault m.reply) && all_public ms

-- What a reply may tell: a server error is the internal error, all else is 400 or 404.
abbrev pub IsPublic : Reply → Type 0
IsPublic r =
    ((r.status ≡ 500)
      × (code_text r.code ≡ codes "server_error")
      × (r.description ≡ codes "internal error"))
    ⊎ (((r.status ≡ 400) ⊎ (r.status ≡ 404)) × (code_text r.code ≢ codes "server_error"))

read_status : (n : ℕ) → (n == 400 || n == 404) ≡ true → (n ≡ 400) ⊎ (n ≡ 404)
read_status n h = elim (Bool-cases (n == 400)) [
  | inl bad_request ↦ inl (ground arith)
  | inr other ↦ inr (ground arith)
]

read-IsPublic : (r : Reply) → (is_internal r || is_client_fault r) ≡ true → IsPublic r
read-IsPublic r h = elim (Bool-cases (is_internal r)) [
  | inl internal ↦
      inl (ground arith, (bytes_eq_iff _ _).0 (ground arith), (bytes_eq_iff _ _).0 (ground arith))
  | inr public ↦ inr (
    read_status r.status (ground arith),
    λ e.
        let same : bytes_eq (code_text r.code) (codes "server_error") ≡ true =
          (bytes_eq_iff _ _).1 e in
        ground arith,
  )
]

find_row_public :
    (e : Error) (ms : List SentinelMapping)
    → all_public ms ≡ true
    → (is_internal (find_row e ms) || is_client_fault (find_row e ms)) ≡ true
unfolding find_row all_public bytes_eq code_text
find_row_public e [] h = refl
find_row_public e (m ∷ ms) h = elim (Bool-cases (is e m.target)) [
  | inl hit ↦ rw hit (ground arith)
  | inr miss ↦ rw miss (find_row_public e ms (ground arith))
]

error_table-all_public : all_public error_table ≡ true
unfolding all_public error_table bytes_eq code_text
error_table-all_public = refl

-- Some row of the table is the sentinel's.
has_row : Sentinel → List SentinelMapping → Bool
has_row t [] = false
has_row t (m ∷ ms) = index t == index m.target || has_row t ms

-- Every sentinel has a row.
error_table-has_row : (t : Sentinel) → has_row t error_table ≡ true
unfolding has_row error_table
error_table-has_row session_invalid = refl
error_table-has_row session_not_found = refl
error_table-has_row session_expired = refl
error_table-has_row session_consumed = refl
error_table-has_row session_not_consumed = refl
error_table-has_row config = refl
error_table-has_row san_mismatch = refl
error_table-has_row unsupported_client_id_prefix = refl
error_table-has_row spec = refl
error_table-has_row no_registration = refl
error_table-has_row flow_mismatch = refl
error_table-has_row request_uri_consumed = refl
error_table-has_row wallet_metadata_invalid = refl
error_table-has_row body_too_large = refl
error_table-has_row malformed_response = refl
error_table-has_row decrypt = refl
error_table-has_row state_mismatch = refl
error_table-has_row apv_mismatch = refl
error_table-has_row unknown_credential_id = refl
error_table-has_row no_response_code = refl
error_table-has_row response_code_mismatch = refl
error_table-has_row response_code_consumed = refl
error_table-has_row origin_not_expected = refl
error_table-has_row transaction_data_disabled = refl
error_table-has_row transaction_data_invalid = refl
error_table-has_row transaction_data_missing = refl
error_table-has_row transaction_data_unexpected = refl
error_table-has_row transaction_data_mismatch = refl
error_table-has_row transcript_params = refl

find_row-Mem :
    (t : Sentinel) (ms : List SentinelMapping)
    → has_row t ms ≡ true
    → (m : SentinelMapping) × Mem m ms
      × (index t ≡ index m.target)
      × (find_row (sentinel t) ms ≡ m.reply)
unfolding find_row has_row is
find_row-Mem t [] h = cc
find_row-Mem t (m ∷ ms) h = elim (Bool-cases (index t == index m.target)) [
  | inl hit ↦ (m, mem-cons.1 (Or.inl refl), ground arith, rw hit)
  | inr miss ↦
      let (m', in_ms, same, found) = find_row-Mem t ms (rw miss at h) in
      (m', mem-cons.1 (Or.inr in_ms), same, rw miss found)
]

-- An error without a wallet's error that matches one sentinel and no other gets the reply of that
-- sentinel's row of the table, wherever in the table the row stands: every sentinel has one.
pub error_response_classified :
    (e : Error) (t : Sentinel)
    → as_wallet_error e ≡ none
    → ((x : Sentinel) → is e x ≡ is (sentinel t) x)
    → (m : SentinelMapping) × Mem m error_table
      × (index t ≡ index m.target)
      × (error_response (some e) ≡ m.reply)
unfolding error_response
error_response_classified e t no_wallet only =
    let (m, member, same, found) = find_row-Mem t error_table (error_table-has_row t) in
    (m, member, same, rw no_wallet (find_row-cong e (sentinel t) only error_table ∙ found))

-- Whatever the error, the reply without a wallet's error is either 500 server_error with the words
-- "internal error" and no others, or 400 or 404 with a code other than server_error.
pub error_response-IsPublic :
    (e : Error) → as_wallet_error e ≡ none → IsPublic (error_response (some e))
unfolding error_response
error_response-IsPublic e no_wallet =
    rw no_wallet (read-IsPublic _ (find_row_public e error_table error_table-all_public))
