-- ===== src/Response/Refuses.antt =====
-- Whose fault it is when a response is refused.
use go_oid4vp.Base.{
  ◌≡◌, inl, inr, not, ◌&&◌, Option, none, some, List, [], ◌∷◌, arith, Bool-cases, Option-cases,
}
use go_oid4vp.Base.Bytes.{Bytes, codes, bytes_eq, is_empty}
use go_oid4vp.Base.Table.{Table, lookup}
use go_oid4vp.Base64.{decode}
use go_oid4vp.Form.Query.{Values, get, parse_query}
use go_oid4vp.Platform.{Platform, Payload, Apv, absent, not_string, text}
use go_oid4vp.Session.{Session, ephemeral_private_key}
use go_oid4vp.Fault.{ok, or_fail, join, sentinel, foreign, session_invalid}
use go_oid4vp.Response.Refusal.{
  Refuses, ok-Refuses, err-Refuses, refuse_if-Refuses, or_fail-Refuses, >>=-Refuses, IsRefusal,
  malformed, unknown, reported, undecryptable, other_state, other_nonce, length-clip,
}
use go_oid4vp.Response.{
  single, check_agreement_info, check_apv, check_payload, parse_response_payload, open_response,
  read_response, wallet_error_from,
}
use go_oid4vp.Response.VpToken.{
  present_entry, present_entries, present_member, present_members, presentations_from_vp_token,
  some_entries, formats_from, max_vp_token_key_len, or_empty,
}

module _ {V : Platform} (s : Session V) where
  present_entry-Refuses :
      (thumbprint id format entry : Bytes) → Refuses (present_entry s thumbprint id format entry)
  unfolding present_entry
  present_entry-Refuses thumbprint id format entry =
      >>=-Refuses _ _
        (refuse_if-Refuses (is_empty entry) _
          (malformed _ (length-clip id max_vp_token_key_len, tt)))
        λ u filled. elim (Bool-cases (bytes_eq format V.format_mdoc)) [
          | inl mdoc ↦ rw mdoc (
              >>=-Refuses _ _
                (or_fail-Refuses (decode entry) _
                  (malformed _ (length-clip id max_vp_token_key_len, tt)))
                λ raw decoded. ok-Refuses _)
          | inr other ↦ rw other (ok-Refuses _)
        ]

  present_entries-Refuses :
      (thumbprint id format : Bytes) (entries : List Bytes)
      → Refuses (present_entries s thumbprint id format entries)
  unfolding present_entries
  present_entries-Refuses thumbprint id format [] = ok-Refuses []
  present_entries-Refuses thumbprint id format (x ∷ xs) =
      >>=-Refuses _ _ (present_entry-Refuses thumbprint id format x) λ p first.
        >>=-Refuses _ _ (present_entries-Refuses thumbprint id format xs) λ ps rest. ok-Refuses _

  some_entries-Refuses : (id : Bytes) (o : Option (List Bytes)) → Refuses (some_entries id o)
  some_entries-Refuses id none =
      err-Refuses _ _ (malformed _ (length-clip id max_vp_token_key_len, tt))
  some_entries-Refuses id (some []) =
      err-Refuses _ _ (malformed _ (length-clip id max_vp_token_key_len, tt))
  some_entries-Refuses id (some (x ∷ xs)) = ok-Refuses _

  present_member-Refuses :
      (thumbprint : Bytes) (m : Table Bytes) (id : Bytes)
      → Refuses (present_member s thumbprint m id)
  unfolding present_member
  present_member-Refuses thumbprint m id =
      let known =
        or_fail-Refuses (lookup id (formats_from (V.credentials s.query) [])) _
          (unknown _ (length-clip id max_vp_token_key_len)) in
      let array = some_entries-Refuses id (V.decode_strings (or_empty (lookup id m))) in
      >>=-Refuses _ _ known λ format h.
        >>=-Refuses _ _ array λ entries h'. present_entries-Refuses thumbprint id format entries

  present_members-Refuses :
      (thumbprint : Bytes) (m : Table Bytes) (ids : List Bytes)
      → Refuses (present_members s thumbprint m ids)
  unfolding present_members
  present_members-Refuses thumbprint m [] = ok-Refuses []
  present_members-Refuses thumbprint m (id ∷ ids) =
      >>=-Refuses _ _ (present_member-Refuses thumbprint m id) λ ps first.
        >>=-Refuses _ _ (present_members-Refuses thumbprint m ids) λ qs rest. ok-Refuses _

  pub presentations-Refuses :
      (m : Table Bytes) (thumbprint : Bytes) → Refuses (presentations_from_vp_token s m thumbprint)
  unfolding presentations_from_vp_token
  presentations-Refuses m thumbprint = present_members-Refuses thumbprint m _

  check_apv-Refuses : (a : Apv) → Refuses (check_apv a s)
  unfolding check_apv
  check_apv-Refuses absent = ok-Refuses tt
  check_apv-Refuses not_string = err-Refuses _ _ (malformed [] tt)
  check_apv-Refuses (text t) = elim (Option-cases (decode t)) [
    | inl bad ↦ rw bad (err-Refuses _ _ (malformed [] tt))
    | inr (raw, good) ↦ rw good (refuse_if-Refuses _ _ other_nonce)
  ]

  check_payload-Refuses : (o : Option Payload) → Refuses (check_payload o)
  unfolding check_payload
  check_payload-Refuses none = err-Refuses _ _ (malformed [] tt)
  check_payload-Refuses (some p) = elim (Bool-cases p.more) [
    | inl more ↦ rw more (err-Refuses _ _ (malformed [] tt))
    | inr ended ↦ elim (Bool-cases (is_empty p.vp_token)) [
      | inl bare ↦ rw (ended, bare) (err-Refuses _ _ (malformed [] tt))
      | inr given ↦ rw (ended, given) (ok-Refuses _)
    ]
  ]

  parse_response_payload-Refuses : (plain : Bytes) → Refuses (parse_response_payload V plain)
  unfolding parse_response_payload
  parse_response_payload-Refuses plain = check_payload-Refuses (V.decode_payload plain)

  -- The session's key parses and has a thumbprint.
  pub record HasKey : Type 0 where
    pub priv : V.PrivateKey
    pub thumbprint : Bytes
    pub parses : V.parse_pkcs8 s.ephemeral_key_pkcs8 ≡ some (some priv)
    pub has_thumbprint : V.jwk_thumbprint_bytes (V.public_key priv) ≡ some thumbprint

  key-Refuses : HasKey → Refuses (ephemeral_private_key s)
  unfolding ephemeral_private_key
  key-Refuses k = rw k.parses (ok-Refuses k.priv)

  thumbprint-Refuses :
      (k : HasKey) (priv : V.PrivateKey)
      → ephemeral_private_key s ≡ ok priv
      → Refuses (
          or_fail
            (V.jwk_thumbprint_bytes (V.public_key priv))
            (join (sentinel session_invalid) foreign))
  unfolding ephemeral_private_key
  thumbprint-Refuses k priv own =
      let same : priv ≡ k.priv = ground (arith, k.parses) in
      rw (same, k.has_thumbprint) (ok-Refuses k.thumbprint)

  pub open_response-Refuses : HasKey → (jwe : Bytes) → Refuses (open_response s jwe)
  unfolding open_response check_agreement_info
  open_response-Refuses k jwe = >>=-Refuses _ _ (key-Refuses k) λ priv own.
      >>=-Refuses _ _
        (or_fail-Refuses (V.decrypt_jwe (V.static_provider s.id priv) s.id jwe) _ undecryptable)
        λ (opened : Bytes × V.Header) decrypted.
          >>=-Refuses _ _ (check_apv-Refuses (V.apv opened.1)) λ u bound.
            >>=-Refuses _ _ (thumbprint-Refuses k priv own) λ thumbprint h.
              >>=-Refuses _ _ (parse_response_payload-Refuses opened.0) λ p read. ok-Refuses _

  wallet_error_from-IsRefusal : (vals : Values) → IsRefusal (wallet_error_from s vals)
  unfolding wallet_error_from
  wallet_error_from-IsRefusal vals =
      let st = get (codes "state") vals in
      elim (Bool-cases (not (is_empty st) && not (bytes_eq st s.state))) [
        | inl other ↦ rw other other_state
        | inr own ↦ rw own (reported _ (length-clip _ 256) (length-clip _ 256))
      ]

  single-Refuses : (o : Option (List Bytes)) → Refuses (single o)
  single-Refuses none = err-Refuses _ _ (malformed [] tt)
  single-Refuses (some []) = err-Refuses _ _ (malformed [] tt)
  single-Refuses (some (x ∷ [])) = elim (Bool-cases (is_empty x)) [
    | inl blank ↦ rw blank (err-Refuses _ _ (malformed [] tt))
    | inr filled ↦ rw filled (ok-Refuses x)
  ]
  single-Refuses (some (x ∷ y ∷ ys)) = err-Refuses _ _ (malformed [] tt)

  pub read_response-Refuses : HasKey → (body : Bytes) → Refuses (read_response s body)
  unfolding read_response
  read_response-Refuses k body =
      >>=-Refuses _ _ (or_fail-Refuses (parse_query body) _ (malformed [] tt)) λ vals form.
        let reported =
          refuse_if-Refuses (not (is_empty (get (codes "error") vals))) _
            (wallet_error_from-IsRefusal vals) in
        >>=-Refuses _ _ reported λ u clean.
          >>=-Refuses _ _ (single-Refuses (lookup (codes "response") vals)) λ jwe one.
            >>=-Refuses _ _ (open_response-Refuses k jwe) λ (opened : Payload × Bytes) h.
              >>=-Refuses _ _
                (refuse_if-Refuses (not (bytes_eq opened.0.state s.state)) _ other_state)
                λ u' state. presentations-Refuses opened.0.vp_token opened.1
