-- ===== src/Examples/ResponseRuns.antt =====
-- Runs of the response path.
use mathlib.Core.List.Perm
use go_oid4vp.Base.{
  ◌⊎◌, true, false, Pairwise, ◌↔◌, inl, inr, Bool-cases, subst, ◌≡◌, ◌↔◌, ◌≢◌, ◌++◌, ◌<◌, ◌+◌, refl,
  arith, [], ◌∷◌, some, true, false, All, suc,
}
use go_oid4vp.Base.Bytes.{Bytes, codes, has_byte, bytes_eq_iff}
use go_oid4vp.Base64.{encode}
use go_oid4vp.Session.{Session, same_device}
use go_oid4vp.Fault.{
  ok, err, sentinel, session_not_consumed, response_code_consumed, response_code_mismatch,
}
use go_oid4vp.Machine.{Machine, session, now, assign, rand_token}
use go_oid4vp.Response.Process.{admit_response, mint_code}
use go_oid4vp.Response.{
  read_response, open_response, check_agreement_info, check_payload, parse_response_payload,
  wallet_error_from,
}
use go_oid4vp.Form.Query.{get, parse_query, parse_parts, parse_part, append_value}
use go_oid4vp.Form.Read.{split, read_pair, upto, beyond}
use go_oid4vp.Form.{query_unescape, unhex}
use go_oid4vp.Base.Table.{lookup, insert}
use go_oid4vp.Base.Bytes.{bytes_eq}
use go_oid4vp.Session.{ephemeral_private_key}
use go_oid4vp.Base64.{char_of, chars, decode, join_sextets, sextets, value_of, values}
use go_oid4vp.Response.VpToken.Sort.{bytes_leb, sort, sorted_insert}
use go_oid4vp.Response.VpToken.{
  clip, formats_from, present_entries, present_entry, present_member, present_members,
}
use go_oid4vp.Store.{mark_consumed}
use go_oid4vp.Response.VpToken.{Presentation, presentations_from_vp_token}
use go_oid4vp.Response.VpToken.Sort.{sort}
use go_oid4vp.Response.VpToken.Bound.{
  IsBound, IsMember, presentations_from_vp_token_iff, sent, presentations_from_vp_token_order,
}
use go_oid4vp.Response.Process.{process_response, with_code}
use go_oid4vp.Response.Process.Sound.{Accepts, process_response_iff, process_response_refused}
use go_oid4vp.SameDevice.{consume_response_code, redirect_uri}
use go_oid4vp.SameDevice.Code.{consume_response_code_iff, minted_code_redeems_once}
use go_oid4vp.SameDevice.Redirect.{tail_of, joined, query_of, redirect_carries_code}
use go_oid4vp.Examples.Toy.{toy, toy_engine, toy_session, toy_machine, toy_random}

abbrev body : Bytes
body = codes "response=Kst"

abbrev before : Machine toy
before = toy_machine (mark_consumed (toy_session same_device))

-- 16 bytes of the random source, encoded.
abbrev code : Bytes
code = codes "AQIDBAUGBwgJCgsMDQ4PEA"

abbrev pid : Presentation
pid = record {
  query_cred_id = codes "pid";
  format = codes "dc+sd-jwt";
  payload = codes "token";
  nonce = codes "n1";
  client_id = codes "x509_san_dns:v.example";
  origin = [];
  response_uri = codes "https://v.example/resp";
  jwk_thumbprint = [];
}

abbrev afterwards : Machine toy
afterwards = record {
  random = [];
  clock = λ n. 150 + suc n;
  session = some (with_code (mark_consumed (toy_session same_device)) code);
}

accepted : process_response toy_engine body before ≡ (ok (pid ∷ [], code), afterwards)
unfolding process_response admit_response session now read_response parse_query parse_parts
    parse_part append_value has_byte split read_pair query_unescape upto beyond get lookup bytes_eq
    open_response ephemeral_private_key check_agreement_info insert char_of chars decode encode
    join_sextets sextets value_of values unhex assign rand_token mint_code bytes_leb sort
    sorted_insert clip formats_from present_entries present_entry present_member present_members
    presentations_from_vp_token check_payload parse_response_payload wallet_error_from
accepted = refl

process_response_iff_example :
    (process_response toy_engine body before ≡ (ok (pid ∷ [], code), afterwards))
    ↔ Accepts toy_engine body before (pid ∷ []) code afterwards
process_response_iff_example =
    process_response_iff toy_engine body before afterwards (pid ∷ []) code

refused :
    (process_response toy_engine body (toy_machine (toy_session same_device))).0
    ≡ err (sentinel session_not_consumed)
unfolding process_response admit_response session
refused = refl

process_response_refused_example :
    (process_response toy_engine body (toy_machine (toy_session same_device))).1.session
    ≡ some (toy_session same_device)
process_response_refused_example =
    process_response_refused toy_engine body (toy_machine (toy_session same_device))
      (sentinel session_not_consumed) refused

presented :
    presentations_from_vp_token
      (toy_session same_device)
      ((codes "pid", codes "token") ∷ [])
      (b'K' ∷ [])
    ≡ ok (pid ∷ [])
unfolding presentations_from_vp_token sort sorted_insert bytes_leb present_entries present_entry
    present_member present_members formats_from lookup insert bytes_eq
presented = refl

presentations_from_vp_token_iff_example :
    (presentations_from_vp_token
        (toy_session same_device)
        ((codes "pid", codes "token") ∷ [])
        (b'K' ∷ [])
      ≡ ok (pid ∷ []))
    ↔ (All
          (IsMember (toy_session same_device) (b'K' ∷ []) ((codes "pid", codes "token") ∷ []))
          (sort (codes "pid" ∷ []))
        × Pairwise
            (IsBound (toy_session same_device) (b'K' ∷ []))
            (sent
              (toy_session same_device)
              (b'K' ∷ [])
              ((codes "pid", codes "token") ∷ [])
              (sort (codes "pid" ∷ [])))
            (pid ∷ []))
presentations_from_vp_token_iff_example =
    presentations_from_vp_token_iff (toy_session same_device) (b'K' ∷ [])
      ((codes "pid", codes "token") ∷ []) (pid ∷ [])

same_members :
    (k : Bytes)
    → lookup k ((codes "pid", codes "token") ∷ (codes "ehic", codes "t") ∷ [])
      ≡ lookup k ((codes "ehic", codes "t") ∷ (codes "pid", codes "token") ∷ [])
unfolding lookup
same_members k = elim (Bool-cases (bytes_eq (codes "pid") k)) [
  | inl pid_key ↦
      let e : codes "pid" ≡ k = (bytes_eq_iff (codes "pid") k).0 pid_key in
      subst
        (λ (x : Bytes).
          lookup x ((codes "pid", codes "token") ∷ (codes "ehic", codes "t") ∷ [])
          ≡ lookup x ((codes "ehic", codes "t") ∷ (codes "pid", codes "token") ∷ []))
        e (unfold bytes_eq in refl)
  | inr other ↦ rw other refl
]

presentations_from_vp_token_order_example :
    presentations_from_vp_token
      (toy_session same_device)
      ((codes "pid", codes "token") ∷ (codes "ehic", codes "t") ∷ [])
      (b'K' ∷ [])
    ≡ presentations_from_vp_token
        (toy_session same_device)
        ((codes "ehic", codes "t") ∷ (codes "pid", codes "token") ∷ [])
        (b'K' ∷ [])
presentations_from_vp_token_order_example =
    presentations_from_vp_token_order (toy_session same_device) (b'K' ∷ [])
      ((codes "pid", codes "token") ∷ (codes "ehic", codes "t") ∷ [])
      ((codes "ehic", codes "t") ∷ (codes "pid", codes "token") ∷ []) same_members
      (Perm.swap (codes "ehic") (codes "pid") [])

consume_response_code_iff_example :
    (consume_response_code (some (with_code (toy_session same_device) code)) code
      ≡ ok (record (with_code (toy_session same_device) code) { response_code_used = true }))
    ↔ ((code ≢ [])
        × (false ≡ false)
        × (code ≡ code)
        × (record (with_code (toy_session same_device) code) { response_code_used = true }
            ≡ record (with_code (toy_session same_device) code) { response_code_used = true }))
consume_response_code_iff_example =
    consume_response_code_iff (with_code (toy_session same_device) code)
      (record (with_code (toy_session same_device) code) { response_code_used = true }) code

minted_code_redeems_once_example :
    (s' : Session toy) × (consume_response_code afterwards.session code ≡ ok s')
    × ((c : Bytes) → consume_response_code (some s') c ≡ err (sentinel response_code_consumed))
    × ((c : Bytes)
        → c ≢ code
        → consume_response_code afterwards.session c ≡ err (sentinel response_code_mismatch))
minted_code_redeems_once_example =
    minted_code_redeems_once toy_engine body before afterwards (pid ∷ []) code
      (mark_consumed (toy_session same_device)) accepted refl refl

toy_random_bytes : All (λ b. b < 256) toy_random
toy_random_bytes = (
  omega arith,
  (
    omega arith,
    (
      omega arith,
      (
        omega arith,
        (
          omega arith,
          (
            omega arith,
            (
              omega arith,
              (
                omega arith,
                (
                  omega arith,
                  (
                    omega arith,
                    (
                      omega arith,
                      (omega arith, (omega arith, (omega arith, (omega arith, (omega arith, tt))))),
                    ),
                  ),
                ),
              ),
            ),
          ),
        ),
      ),
    ),
  ),
)

abbrev return_uri : Bytes
return_uri = codes "https://v.example/back?x=1"

redirect_carries_code_example :
    (uri : Bytes) × (redirect_uri afterwards.session ≡ ok uri)
    × (uri ≡ return_uri ++ tail_of return_uri code)
    × (((has_byte return_uri b'#' ≡ false)
          × (query_of uri ≡ joined (has_byte return_uri b'?') (query_of return_uri) code))
        ⊎ ((has_byte return_uri b'#' ≡ true) × (query_of uri ≡ query_of return_uri)))
redirect_carries_code_example =
    redirect_carries_code toy_engine body before afterwards (pid ∷ []) code
      (mark_consumed (toy_session same_device)) accepted refl refl toy_random_bytes
