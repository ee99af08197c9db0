-- ===== src/Response/VpToken/Bound.antt =====
-- What the presentations of a response carry, and which members of a vp_token are accepted.
use mathlib.Core.List.{Perm}
use go_oid4vp.Base.{
  true, false, Pairwise, Pairwise-append, Pairwise-split, sym, ◌∙◌, inl, inr, ap, ◌↔◌, ◌≡◌, ◌≢◌,
  refl, ◌⊎◌, Option, some, none, List, [], ◌∷◌, ◌++◌, map, arith, All,
}
use go_oid4vp.Base.Bytes.{
  Bytes, bytes_eq_iff, is_empty-ne, is_empty_of_ne, bytes_eq, bytes_eq_of_ne,
}
use go_oid4vp.Base.Table.{Table, lookup}
use go_oid4vp.Base64.{decode}
use go_oid4vp.Platform.{Platform}
use go_oid4vp.Session.{Session}
use go_oid4vp.Fault.{ok, >>=-eq-ok, or_fail-eq-ok}
use go_oid4vp.Response.VpToken.{
  Presentation, formats_from, some_entries, or_empty, present_entry, present_entries,
  present_member, present_members, presentations_from_vp_token,
}
use go_oid4vp.Response.VpToken.Sort.{sort}
use go_oid4vp.Response.VpToken.Order.{sort_perm}

presentation_ext :
    (q p : Presentation)
    → p.query_cred_id ≡ q.query_cred_id
    → p.format ≡ q.format
    → p.payload ≡ q.payload
    → p.nonce ≡ q.nonce
    → p.client_id ≡ q.client_id
    → p.response_uri ≡ q.response_uri
    → p.origin ≡ q.origin
    → p.jwk_thumbprint ≡ q.jwk_thumbprint
    → q ≡ p
presentation_ext q p a b c d e f g h = sym (λ i. record {
  query_cred_id = a i;
  format = b i;
  payload = c i;
  nonce = d i;
  client_id = e i;
  response_uri = f i;
  origin = g i;
  jwk_thumbprint = h i;
})

module _ {V : Platform} (s : Session V) (thumbprint : Bytes) where
  -- The format that the session's query gives for an id.
  abbrev pub format_of : Bytes → Option Bytes
  format_of id = lookup id (formats_from (V.credentials s.query) [])

  -- An mdoc presentation is the decoded entry with the key's thumbprint; any other is the entry.
  abbrev pub IsEntry : Presentation → Bytes → Type 0
  IsEntry p entry =
      ((p.format ≡ V.format_mdoc)
        × (decode entry ≡ some p.payload)
        × (p.jwk_thumbprint ≡ thumbprint))
      ⊎ ((p.format ≢ V.format_mdoc) × (p.payload ≡ entry) × (p.jwk_thumbprint ≡ []))

  -- What the wallet sent: each entry of each member, with the member's name.
  abbrev entries_of : Option (List Bytes) → List Bytes
  entries_of none = []
  entries_of (some es) = es

  abbrev pub sent : Table Bytes → List Bytes → List (Bytes × Bytes)
  sent m [] = []
  sent m (id ∷ ids) =
      map (λ e. (id, e)) (entries_of (V.decode_strings (or_empty (lookup id m)))) ++ sent m ids

  -- The presentation of an entry that was sent under a name.
  pub record IsBound (x : Bytes × Bytes) (p : Presentation) : Type 0 where
    pub nonce : p.nonce ≡ s.nonce
    pub client_id : p.client_id ≡ s.client_id
    pub response_uri : p.response_uri ≡ s.response_uri
    pub no_origin : p.origin ≡ []
    pub named : p.query_cred_id ≡ x.0
    pub asked : format_of x.0 ≡ some p.format
    pub not_blank : x.1 ≢ []
    pub is_entry : IsEntry p x.1

  -- The member's name is a credential query's id, and its value an array with elements.
  abbrev pub IsMember : Table Bytes → Bytes → Type 0
  IsMember m id =
      (format : Bytes) × (x : Bytes) × (xs : List Bytes) × (format_of id ≡ some format)
      × (V.decode_strings (or_empty (lookup id m)) ≡ some (x ∷ xs))

  present_entry-IsBound :
      (id format entry : Bytes) (p : Presentation)
      → format_of id ≡ some format
      → present_entry s thumbprint id format entry ≡ ok p
      → IsBound (id, entry) p
  unfolding present_entry
  present_entry-IsBound id format entry p k h = record {
    nonce = ground arith;
    client_id = ground arith;
    response_uri = ground arith;
    no_origin = ground arith;
    named = ground arith;
    asked = ground arith;
    not_blank = ground (arith, is_empty-ne entry);
    is_entry = ground (arith, bytes_eq_iff format V.format_mdoc);
  }

  format-eq :
      (id format : Bytes) (entry : Bytes) (p : Presentation)
      → format_of id ≡ some format
      → IsBound (id, entry) p
      → format ≡ p.format
  format-eq id format entry p k b =
      let e : some format ≡ some p.format = sym k ∙ b.asked in ground arith

  IsBound-present_entry :
      (id format entry : Bytes) (p : Presentation)
      → format_of id ≡ some format
      → IsBound (id, entry) p
      → present_entry s thumbprint id format entry ≡ ok p
  unfolding present_entry
  IsBound-present_entry id format entry p k b = elim b.is_entry [
    | inl (mdoc, decoded, own) ↦
        let same : bytes_eq format V.format_mdoc ≡ true =
          (bytes_eq_iff _ _).1 (format-eq id format entry p k b ∙ mdoc) in
        rw (is_empty_of_ne entry b.not_blank, same, decoded)
          (ap ok (
            presentation_ext _ p b.named (sym (format-eq id format entry p k b)) refl b.nonce
              b.client_id b.response_uri b.no_origin own))
    | inr (other, whole, none') ↦
        let differs : bytes_eq format V.format_mdoc ≡ false =
          bytes_eq_of_ne _ _ (λ e. other (sym (format-eq id format entry p k b) ∙ e)) in
        rw (is_empty_of_ne entry b.not_blank, differs)
          (ap ok (
            presentation_ext _ p b.named (sym (format-eq id format entry p k b)) whole b.nonce
              b.client_id b.response_uri b.no_origin none'))
  ]

  Shown : Bytes → List Bytes → List Presentation → Type 0
  Shown id es prs = Pairwise IsBound (map (λ e. (id, e)) es) prs

  present_entries-Shown :
      (id format : Bytes) (entries : List Bytes) (prs : List Presentation)
      → format_of id ≡ some format
      → present_entries s thumbprint id format entries ≡ ok prs
      → Shown id entries prs
  unfolding present_entries Shown
  present_entries-Shown id format [] prs k h = let e : [] ≡ prs = ground arith in rw (← e) tt
  present_entries-Shown id format (x ∷ xs) prs k h =
      let (p, first, h₁) = >>=-eq-ok _ _ h in
      let (ps, rest, h₂) = >>=-eq-ok _ _ h₁ in
      let e : p ∷ ps ≡ prs = ground arith in
      rw (← e)
        (present_entry-IsBound id format x p k first, present_entries-Shown id format xs ps k rest)

  Shown-present_entries :
      (id format : Bytes) (entries : List Bytes) (prs : List Presentation)
      → format_of id ≡ some format
      → Shown id entries prs
      → present_entries s thumbprint id format entries ≡ ok prs
  unfolding present_entries Shown
  Shown-present_entries id format [] [] k h = refl
  Shown-present_entries id format [] (p ∷ ps) k h = absurd h
  Shown-present_entries id format (x ∷ xs) [] k h = absurd h
  Shown-present_entries id format (x ∷ xs) (p ∷ ps) k h =
      rw (IsBound-present_entry id format x p k h.0, Shown-present_entries id format xs ps k h.1)

  some_entries-eq-ok :
      (id : Bytes) (o : Option (List Bytes)) (es : List Bytes)
      → some_entries id o ≡ ok es
      → (x : Bytes) × (xs : List Bytes) × (o ≡ some (x ∷ xs)) × (es ≡ x ∷ xs)
  some_entries-eq-ok id none es h = cc
  some_entries-eq-ok id (some []) es h = cc
  some_entries-eq-ok id (some (x ∷ xs)) es h = (x, xs, refl, ground arith)

  present_members-Pairwise :
      (m : Table Bytes) (ids : List Bytes) (prs : List Presentation)
      → present_members s thumbprint m ids ≡ ok prs
      → All (IsMember m) ids × Pairwise IsBound (sent m ids) prs
  unfolding present_members present_member Shown
  present_members-Pairwise m [] prs h = let e : [] ≡ prs = ground arith in (tt, rw (← e) tt)
  present_members-Pairwise m (id ∷ ids) prs h =
      let (ps, first, h₁) = >>=-eq-ok _ _ h in
      let (qs, rest, h₂) = >>=-eq-ok _ _ h₁ in
      let e : ps ++ qs ≡ prs = ground arith in
      let (format, known, h₃) = >>=-eq-ok _ _ first in
      let (entries, decoded, h₄) = >>=-eq-ok _ _ h₃ in
      let k = or_fail-eq-ok (format_of id) _ known in
      let (x, xs, d, same) = some_entries-eq-ok id _ entries decoded in
      let (members, others) = present_members-Pairwise m ids qs rest in
      let here : Shown id (x ∷ xs) ps =
        present_entries-Shown id format (x ∷ xs) ps k (rw (← same) h₄) in
      (
        ((format, x, xs, k, d), members),
        rw (← e, d)
            (Pairwise-append IsBound (map (λ y. (id, y)) (x ∷ xs)) (sent m ids) ps qs here others),
      )

  Pairwise-present_members :
      (m : Table Bytes) (ids : List Bytes) (prs : List Presentation)
      → All (IsMember m) ids
      → Pairwise IsBound (sent m ids) prs
      → present_members s thumbprint m ids ≡ ok prs
  unfolding present_members present_member Shown
  Pairwise-present_members m [] [] a h = refl
  Pairwise-present_members m [] (p ∷ ps) a h = absurd h
  Pairwise-present_members m (id ∷ ids) prs ((format, x, xs, k, d), others) h =
      let (ps, qs, e, here, there) =
        Pairwise-split IsBound (map (λ e. (id, e)) (x ∷ xs)) (sent m ids) prs (rw d at h) in
      rw (
        k,
        d,
        Shown-present_entries id format (x ∷ xs) ps k here,
        Pairwise-present_members m ids qs others there,
        e,
      )

  -- A vp_token gives these presentations exactly if every member of it has the id of a credential
  -- query of the session and an array with elements, and the presentations are, one for one and in
  -- the ascending order of the members' names, those of the entries that were sent: each carries
  -- the nonce, client and response URI of the session, no origin, the member's name and its query's
  -- format, and a non-empty entry, decoded and with the key's thumbprint for an mdoc, and as it came
  -- and without a thumbprint otherwise.
  pub presentations_from_vp_token_iff :
      (m : Table Bytes) (prs : List Presentation)
      → (presentations_from_vp_token s m thumbprint ≡ ok prs) ↔ (
          All (IsMember m) (sort (map (λ e. e.0) m))
          × Pairwise IsBound (sent m (sort (map (λ e. e.0) m))) prs)
  unfolding presentations_from_vp_token
  presentations_from_vp_token_iff m prs =
      let ids = sort (map (λ (e : Bytes × Bytes). e.0) m) in
      (present_members-Pairwise m ids prs, λ (a, h). Pairwise-present_members m ids prs a h)

  present_members-same_lookups :
      (m m' : Table Bytes) (ids : List Bytes)
      → ((k : Bytes) → lookup k m ≡ lookup k m')
      → present_members s thumbprint m ids ≡ present_members s thumbprint m' ids
  unfolding present_members present_member
  present_members-same_lookups m m' [] h = refl
  present_members-same_lookups m m' (id ∷ ids) h =
      rw (h id, present_members-same_lookups m m' ids h)

  -- Go visits the members of a map in any order: two lists of the same members, with names that
  -- are permuted, give the same presentations in the same order, or the same error.
  pub presentations_from_vp_token_order :
      (m m' : Table Bytes)
      → ((k : Bytes) → lookup k m ≡ lookup k m')
      → Perm (map (λ e. e.0) m) (map (λ e. e.0) m')
      → presentations_from_vp_token s m thumbprint ≡ presentations_from_vp_token s m' thumbprint
  unfolding presentations_from_vp_token
  presentations_from_vp_token_order m m' h p =
      rw (sort_perm p) (present_members-same_lookups m m' _ h)
