-- ===== src/Response/Opened.antt =====
-- What the wallet must have sent for a response to be read: everything that `ProcessResponse`
-- checks of the body, from the form to the state.
use go_oid4vp.Base.{
  ◌≡◌, ◌∙◌, ap, refl, false, not, inl, inr, Option, none, some, List, [], ◌∷◌, arith, Option-cases,
}
use go_oid4vp.Base.Bytes.{Bytes, codes, bytes_eq, bytes_eq-eq, bytes_eq_refl, is_empty}
use go_oid4vp.Base.Table.{lookup}
use go_oid4vp.Base64.{decode}
use go_oid4vp.Form.Query.{Values, get, parse_query}
use go_oid4vp.Platform.{Platform, Payload, Apv, absent, not_string, text}
use go_oid4vp.Session.{Session, ephemeral_private_key}
use go_oid4vp.Fault.{Error}
use go_oid4vp.Fault.{ok, or_fail-eq-ok, >>=-eq-ok, refuse_if}
use go_oid4vp.Response.{
  single, check_agreement_info, check_apv, check_payload, parse_response_payload, open_response,
  read_response,
}
use go_oid4vp.Response.VpToken.{Presentation, presentations_from_vp_token}

-- The header binds the nonce if it has an `apv` at all.
abbrev pub BindsNonce : Bytes → Apv → Type 0
BindsNonce nonce absent = Unit
BindsNonce nonce not_string = ⊥
BindsNonce nonce (text t) = decode t ≡ some nonce

check_payload-eq-ok :
    (o : Option Payload) (p : Payload)
    → check_payload o ≡ ok p
    → (o ≡ some p) × (p.more ≡ false) × (is_empty p.vp_token ≡ false)
unfolding check_payload
check_payload-eq-ok none p h = cc
check_payload-eq-ok (some q) p h = ground arith

check_payload_ok :
    (p : Payload) → p.more ≡ false → is_empty p.vp_token ≡ false → check_payload (some p) ≡ ok p
unfolding check_payload
check_payload_ok p h k = rw (h, k)

single-eq-ok :
    (o : Option (List Bytes)) (v : Bytes)
    → single o ≡ ok v
    → (o ≡ some (v ∷ [])) × (is_empty v ≡ false)
single-eq-ok none v h = cc
single-eq-ok (some []) v h = cc
single-eq-ok (some (x ∷ [])) v h = ground arith
single-eq-ok (some (x ∷ y ∷ ys)) v h = cc

refuse_if-is_empty :
    (b : Bytes) (e : Error) (u : Unit {0}) → refuse_if (not (is_empty b)) e ≡ ok u → b ≡ []
refuse_if-is_empty [] e u h = refl
refuse_if-is_empty (x ∷ b) e u h = cc

refuse_if-bytes_eq :
    (a b : Bytes) (e : Error) (u : Unit {0}) → refuse_if (not (bytes_eq a b)) e ≡ ok u → a ≡ b
refuse_if-bytes_eq a b e u h = ground (arith, bytes_eq-eq a b)

module _ {V : Platform} where
  -- The JWE decrypts, with the session's own key, to a payload with a vp_token.
  pub record Opens (s : Session V) (jwe : Bytes) (p : Payload) (thumbprint : Bytes) : Type 0 where
    pub priv : V.PrivateKey
    pub plain : Bytes
    pub header : V.Header
    pub own_key : V.parse_pkcs8 s.ephemeral_key_pkcs8 ≡ some (some priv)
    pub decrypts : V.decrypt_jwe (V.static_provider s.id priv) s.id jwe ≡ some (plain, header)
    pub nonce_bound : BindsNonce s.nonce (V.apv header)
    pub own_thumbprint : V.jwk_thumbprint_bytes (V.public_key priv) ≡ some thumbprint
    pub decodes : V.decode_payload plain ≡ some p
    pub nothing_after : p.more ≡ false
    pub has_token : is_empty p.vp_token ≡ false

  check_apv-BindsNonce :
      (a : Apv) (s : Session V) (u : Unit {0}) → check_apv a s ≡ ok u → BindsNonce s.nonce a
  unfolding check_apv
  check_apv-BindsNonce absent s u h = tt
  check_apv-BindsNonce not_string s u h = cc
  check_apv-BindsNonce (text t) s u h = elim (Option-cases (decode t)) [
    | inl bad ↦ cc (rw bad at h)
    | inr (raw, good) ↦ ground (arith, bytes_eq-eq raw s.nonce)
  ]

  check_apv_ok : (a : Apv) (s : Session V) → BindsNonce s.nonce a → check_apv a s ≡ ok tt
  unfolding check_apv
  check_apv_ok absent s h = refl
  check_apv_ok not_string s h = absurd h
  check_apv_ok (text t) s h = rw (h, bytes_eq_refl s.nonce)

  ephemeral_private_key-eq-ok :
      (s : Session V) (k : V.PrivateKey)
      → ephemeral_private_key s ≡ ok k
      → V.parse_pkcs8 s.ephemeral_key_pkcs8 ≡ some (some k)
  unfolding ephemeral_private_key
  ephemeral_private_key-eq-ok s k h = ground arith

  pub open_response-Opens :
      (s : Session V) (jwe : Bytes) (p : Payload) (thumbprint : Bytes)
      → open_response s jwe ≡ ok (p, thumbprint)
      → Opens s jwe p thumbprint
  unfolding open_response parse_response_payload check_agreement_info
  open_response-Opens s jwe p thumbprint h =
      let (priv, key, h₁) = >>=-eq-ok _ _ h in
      let ((plain, header), opened, h₂) = >>=-eq-ok _ _ h₁ in
      let (u, bound, h₃) = >>=-eq-ok _ _ h₂ in
      let (t, thumb, h₄) = >>=-eq-ok _ _ h₃ in
      let (q, payload, h₅) = >>=-eq-ok _ _ h₄ in
      let p-eq : q ≡ p = ground arith in
      let t-eq : t ≡ thumbprint = ground arith in
      let checked = check_payload-eq-ok (V.decode_payload plain) q payload in
      record {
        priv = priv;
        plain = plain;
        header = header;
        own_key = ephemeral_private_key-eq-ok s priv key;
        decrypts = or_fail-eq-ok _ _ opened;
        nonce_bound = check_apv-BindsNonce (V.apv header) s u bound;
        own_thumbprint = or_fail-eq-ok _ _ thumb ∙ ap some t-eq;
        decodes = checked.0 ∙ ap some p-eq;
        nothing_after = rw (← p-eq) checked.1;
        has_token = rw (← p-eq) checked.2;
      }

  pub Opens-open_response :
      (s : Session V) (jwe : Bytes) (p : Payload) (thumbprint : Bytes)
      → Opens s jwe p thumbprint
      → open_response s jwe ≡ ok (p, thumbprint)
  unfolding open_response ephemeral_private_key parse_response_payload check_agreement_info
  Opens-open_response s jwe p thumbprint o = rw (
    o.own_key,
    o.decrypts,
    check_apv_ok (V.apv o.header) s o.nonce_bound,
    o.own_thumbprint,
    o.decodes,
    check_payload_ok p o.nothing_after o.has_token,
  )

  -- The body is a form without an error, whose one response parameter opens to a payload with the
  -- session's state and with these presentations.
  pub record Carries (s : Session V) (body : Bytes) (prs : List Presentation) : Type 0 where
    pub vals : Values
    pub jwe : Bytes
    pub payload : Payload
    pub thumbprint : Bytes
    pub form : parse_query body ≡ some vals
    pub no_error : get (codes "error") vals ≡ []
    pub one_response : lookup (codes "response") vals ≡ some (jwe ∷ [])
    pub not_blank : is_empty jwe ≡ false
    pub opens : Opens s jwe payload thumbprint
    pub state_bound : payload.state ≡ s.state
    pub presented : presentations_from_vp_token s payload.vp_token thumbprint ≡ ok prs

  pub read_response-Carries :
      (s : Session V) (body : Bytes) (prs : List Presentation)
      → read_response s body ≡ ok prs
      → Carries s body prs
  unfolding read_response
  read_response-Carries s body prs h =
      let (vals, form, h₁) = >>=-eq-ok _ _ h in
      let (u, clean, h₂) = >>=-eq-ok _ _ h₁ in
      let (jwe, one, h₃) = >>=-eq-ok _ _ h₂ in
      let ((payload, thumbprint), opened, h₄) = >>=-eq-ok _ _ h₃ in
      let (u', state, h₅) = >>=-eq-ok _ _ h₄ in
      let single = single-eq-ok _ jwe one in
      record {
        vals = vals;
        jwe = jwe;
        payload = payload;
        thumbprint = thumbprint;
        form = or_fail-eq-ok _ _ form;
        no_error = refuse_if-is_empty _ _ u clean;
        one_response = single.0;
        not_blank = single.1;
        opens = open_response-Opens s jwe payload thumbprint opened;
        state_bound = refuse_if-bytes_eq payload.state s.state _ u' state;
        presented = h₅;
      }

  pub Carries-read_response :
      (s : Session V) (body : Bytes) (prs : List Presentation)
      → Carries s body prs
      → read_response s body ≡ ok prs
  unfolding read_response
  Carries-read_response s body prs c =
      rw
        (
          c.form,
          c.no_error,
          c.one_response,
          c.not_blank,
          Opens-open_response s c.jwe c.payload c.thumbprint c.opens,
          c.state_bound,
          bytes_eq_refl s.state,
        )
        c.presented
