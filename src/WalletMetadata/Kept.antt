-- ===== src/WalletMetadata/Kept.antt =====
-- Which documents are absorbed.
use go_oid4vp.Base.{◌≤◌, ◌≡◌, ◌≢◌, ◌↔◌, false, Option, some, [], arith, length, ltb, or-eq-false}
use go_oid4vp.Base.Bytes.{Bytes, is_empty-ne, is_empty_of_ne}
use go_oid4vp.Platform.{Platform, Document}
use go_oid4vp.Session.{Session}
use go_oid4vp.Fault.{ok, >>=-eq-ok, or_fail-eq-ok, refuse_if-eq-ok}
use go_oid4vp.WalletMetadata.{absorb_wallet_metadata, max_wallet_metadata_bytes}

module _ (V : Platform) where
  -- A document of 1 to 65536 bytes that begins with a JSON object, where `dec.More` tells of nothing
  -- more: what follows is blank, or begins with a closing brace or bracket.
  abbrev pub IsMetadata : Bytes → Type 0
  IsMetadata raw =
      (raw ≢ [])
      × (length raw ≤ 65_536)
      × (doc : Document) × (V.decode_document raw ≡ some doc)
      × (doc.more ≡ false)
      × (doc.is_nil ≡ false)

  -- `AbsorbWalletMetadata` succeeds exactly on a session that is not nil and a document of 1 to
  -- 65536 bytes that decodes as a JSON object behind which `dec.More` reports no further value (which
  -- it does not report before a closing brace or bracket either); the session then has those very
  -- bytes as its wallet metadata and is otherwise as before.
  pub absorb_wallet_metadata_iff :
      (p : Option (Session V)) (raw : Bytes) (s' : Session V)
      → (absorb_wallet_metadata p raw ≡ ok s') ↔ (
          (s : Session V) × (p ≡ some s)
          × IsMetadata raw
          × (s' ≡ record s { wallet_metadata = raw }))
  unfolding absorb_wallet_metadata
  absorb_wallet_metadata_iff p raw s' = (
    (λ h.
        let (s, given, h₁) = >>=-eq-ok _ _ h in
        let (a, size, h₂) = >>=-eq-ok _ _ h₁ in
        let (doc, decoded, h₃) = >>=-eq-ok _ _ h₂ in
        let (b, whole, h₄) = >>=-eq-ok _ _ h₃ in
        let (c, object, made) = >>=-eq-ok _ _ h₄ in
        let (some_bytes, bounded) = or-eq-false _ _ (refuse_if-eq-ok _ _ size) in
        (
          s,
          or_fail-eq-ok _ _ given,
          (
            is_empty-ne _ some_bytes,
            ground arith,
            doc,
            or_fail-eq-ok _ _ decoded,
            refuse_if-eq-ok _ _ whole,
            refuse_if-eq-ok _ _ object,
          ),
          cc,
        )),
    (λ (s, given, (some_bytes, bounded, doc, decoded, whole, object), made).
        let small : ltb max_wallet_metadata_bytes (length raw) ≡ false = ground arith in
        simp (given, is_empty_of_ne raw some_bytes, small, decoded, whole, object, made)),
  )
