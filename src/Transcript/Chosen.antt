-- ===== src/Transcript/Chosen.antt =====
-- Which transcript a presentation has.
use go_oid4vp.Base.{
  ◌≡◌, ◌↔◌, ◌≢◌, not, ◌||◌, ◌⊎◌, inl, inr, [], if◌then◌else◌, Bool-cases, not-eq-false, or-eq-false,
}
use go_oid4vp.Base.Bytes.{bytes_eq_iff, is_empty, is_empty-eq, is_empty-ne, is_empty_of_ne}
use go_oid4vp.Platform.{Platform}
use go_oid4vp.Response.VpToken.{Presentation}
use go_oid4vp.Fault.{
  Result, sentinel, transcript_params, ok, refuse_if, ◌>>◌, >>=-eq-ok, refuse_if-eq-ok,
}
use go_oid4vp.Transcript.{session_transcript_for}

module _ (V : Platform) where
  -- The transcript by the presentation's origin, and for one without an origin by its client and
  -- its response URI.
  abbrev pub Determines : Presentation → V.SessionTranscript → Type 0
  Determines p t =
      ((p.origin ≢ []) × (t ≡ V.dcapi_handover p.origin p.nonce p.jwk_thumbprint))
      ⊎ ((p.origin ≡ [])
          × (p.client_id ≢ [])
          × (p.response_uri ≢ [])
          × (t ≡ V.handover p.client_id p.nonce p.jwk_thumbprint p.response_uri))

  choose : Presentation → Result V.SessionTranscript
  choose p =
      if not (is_empty p.origin)
      then ok (V.dcapi_handover p.origin p.nonce p.jwk_thumbprint)
      else (do
        refuse_if (is_empty p.client_id || is_empty p.response_uri) (sentinel transcript_params)
        ok (V.handover p.client_id p.nonce p.jwk_thumbprint p.response_uri))

  choose-Determines :
      (p : Presentation) (t : V.SessionTranscript) → choose p ≡ ok t → Determines p t
  unfolding choose
  choose-Determines p t h = elim (Bool-cases (is_empty p.origin)) [
    | inl without ↦
        let (a, given, made) = >>=-eq-ok _ _ (rw without at h) in
        let (client, uri) = or-eq-false _ _ (refuse_if-eq-ok _ _ given) in
        inr (is_empty-eq _ without, is_empty-ne _ client, is_empty-ne _ uri, cc)
    | inr with_origin ↦ let made = rw with_origin at h in inl (is_empty-ne _ with_origin, cc)
  ]

  Determines-choose :
      (p : Presentation) (t : V.SessionTranscript) → Determines p t → choose p ≡ ok t
  unfolding choose
  Determines-choose p t (inl (origin, made)) = rw (is_empty_of_ne _ origin, made)
  Determines-choose p t (inr (origin, client, uri, made)) =
      rw (origin, is_empty_of_ne _ client, is_empty_of_ne _ uri, made)

  -- `SessionTranscriptFor` returns a transcript exactly for a presentation of the mdoc format with a
  -- nonce and an encryption key's thumbprint: over the origin, the nonce and the thumbprint where it
  -- has an origin, and else, where it has a client and a response URI, over these with the nonce
  -- and the thumbprint.
  pub session_transcript_for_iff :
      (p : Presentation) (t : V.SessionTranscript)
      → (session_transcript_for V p ≡ ok t)
        ↔ ((p.format ≡ V.format_mdoc) × (p.nonce ≢ []) × (p.jwk_thumbprint ≢ []) × Determines p t)
  unfolding session_transcript_for choose
  session_transcript_for_iff p t = (
    (λ h.
        let (a, mdoc, h₁) = >>=-eq-ok _ _ h in
        let (b, bound, chosen) = >>=-eq-ok _ _ h₁ in
        let (nonce, thumbprint) = or-eq-false _ _ (refuse_if-eq-ok _ _ bound) in
        (
          (bytes_eq_iff _ _).0 (not-eq-false _ (refuse_if-eq-ok _ _ mdoc)),
          is_empty-ne _ nonce,
          is_empty-ne _ thumbprint,
          choose-Determines p t chosen,
        )),
    (λ h. rw (
      (bytes_eq_iff _ _).1 h.0,
      is_empty_of_ne _ h.1,
      is_empty_of_ne _ h.2,
      Determines-choose p t h.3,
    )),
  )
