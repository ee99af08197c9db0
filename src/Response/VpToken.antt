-- ===== src/Response/VpToken.antt =====
-- response.go, `presentationsFromVPToken`: the members of a vp_token as presentations that carry
-- the session's binding parameters.
pub mod Sort
pub mod Order
pub mod Bound
use go_oid4vp.Base.{
  ℕ, Bool, ◌||◌, Option, none, some, List, [], ◌∷◌, ◌++◌, map, ltb, length, take, if◌then◌else◌,
}
use go_oid4vp.Base.Bytes.{Bytes, bytes_eq, is_empty}
use go_oid4vp.Base.Table.{Table, lookup, insert}
use go_oid4vp.Base64.{decode}
use go_oid4vp.Platform.{Platform, CredentialQuery}
use go_oid4vp.Session.{Session}
use go_oid4vp.Fault.{
  Error, Result, ok, err, sentinel, wrap, refuse_if, or_fail, ◌>>=◌, ◌>>◌, malformed_response,
  unknown_credential_id,
}
use Sort.{sort}

pub record Presentation : Type 0 where
  pub query_cred_id : Bytes
  pub format : Bytes
  pub payload : Bytes
  pub nonce : Bytes
  pub client_id : Bytes
  pub response_uri : Bytes
  pub origin : Bytes
  pub jwk_thumbprint : Bytes

abbrev pub max_vp_token_key_len : ℕ
max_vp_token_key_len = 64

-- U+2026 in UTF-8.
abbrev pub ellipsis : Bytes
ellipsis = 0xe2 ∷ 0x80 ∷ 0xa6 ∷ []

unfoldable pub clip : Bytes → ℕ → Bytes
clip s n = if ltb n (length s) then take n s ++ ellipsis else s

-- The errors that quote a member's name.
abbrev pub quoting : Bytes → Error
quoting id = wrap (sentinel malformed_response) (clip id max_vp_token_key_len ∷ [])

-- The map from credential query ids to formats: a later query replaces an earlier one of its id.
unfoldable pub formats_from : List CredentialQuery → Table Bytes → Table Bytes
formats_from [] m = m
formats_from (q ∷ qs) m = formats_from qs (insert q.id q.format m)

-- `json.Unmarshal` into `[]string` failed, or gave no element.
abbrev pub some_entries : Bytes → Option (List Bytes) → Result (List Bytes)
some_entries id none = err (quoting id)
some_entries id (some []) = err (quoting id)
some_entries id (some (e ∷ es)) = ok (e ∷ es)

-- The results of the rest of a loop behind the one at hand.
abbrev pub cons_ok {ℓ} : {A : Type ℓ} → Result A → Result (List A) → Result (List A)
cons_ok r rest = do a ← r; as' ← rest; ok (a ∷ as')

abbrev pub append_ok {ℓ} : {A : Type ℓ} → Result (List A) → Result (List A) → Result (List A)
append_ok r rest = do xs ← r; ys ← rest; ok (xs ++ ys)

-- `m[k]` where the key may be missing.
abbrev pub or_empty : Option Bytes → Bytes
or_empty none = []
or_empty (some b) = b

module _ {V : Platform} where
  abbrev pub base_presentation : Session V → Bytes → Bytes → Bytes → Presentation
  base_presentation s id format entry = record {
    query_cred_id = id;
    format = format;
    payload = entry;
    nonce = s.nonce;
    client_id = s.client_id;
    response_uri = s.response_uri;
    origin = [];
    jwk_thumbprint = [];
  }

  unfoldable pub present_entry : Session V → Bytes → Bytes → Bytes → Bytes → Result Presentation
  present_entry s thumbprint id format entry = do
    refuse_if (is_empty entry) (quoting id)
    (if bytes_eq format V.format_mdoc
        then (do
          raw ← or_fail (decode entry) (quoting id)
          ok (record (base_presentation s id format entry) {
            payload = raw;
            jwk_thumbprint = thumbprint;
          }))
        else ok (base_presentation s id format entry))

  -- The inner loop.
  unfoldable pub present_entries :
      Session V → Bytes → Bytes → Bytes → List Bytes → Result (List Presentation)
  present_entries s thumbprint id format [] = ok []
  present_entries s thumbprint id format (e ∷ es) =
      cons_ok (present_entry s thumbprint id format e) (present_entries s thumbprint id format es)

  -- The body of the outer loop.
  unfoldable pub present_member :
      Session V → Bytes → Table Bytes → Bytes → Result (List Presentation)
  present_member s thumbprint vp_token id = do
    format ←
        or_fail (lookup id (formats_from (V.credentials s.query) []))
          (wrap (sentinel unknown_credential_id) (clip id max_vp_token_key_len ∷ []))
    entries ← some_entries id (V.decode_strings (or_empty (lookup id vp_token)))
    present_entries s thumbprint id format entries

  unfoldable pub present_members :
      Session V → Bytes → Table Bytes → List Bytes → Result (List Presentation)
  present_members s thumbprint vp_token [] = ok []
  present_members s thumbprint vp_token (id ∷ ids) =
      append_ok (present_member s thumbprint vp_token id)
        (present_members s thumbprint vp_token ids)

  unfoldable pub presentations_from_vp_token :
      Session V → Table Bytes → Bytes → Result (List Presentation)
  presentations_from_vp_token s vp_token thumbprint =
      present_members s thumbprint vp_token (sort (map (λ m. m.0) vp_token))
