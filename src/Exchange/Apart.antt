-- ===== src/Exchange/Apart.antt =====
-- One body, two sessions.
use go_oid4vp.Base.{ℕ, ◌<◌, ◌≡◌, ◌≢◌, ◌∙◌, subst, ap, sym, some, List, [], ◌∷◌, arith, All}
use go_oid4vp.Base.Bytes.{Bytes, codes}
use go_oid4vp.Base.Table.{lookup}
use go_oid4vp.Form.Query.{Values, parse_query}
use go_oid4vp.Base64.{encode, decode}
use go_oid4vp.Base64.RoundTrip.{decode-encode}
use go_oid4vp.Platform.{Platform, Payload}
use go_oid4vp.Session.{Session}
use go_oid4vp.Engine.{Engine}
use go_oid4vp.Fault.{ok}
use go_oid4vp.Machine.{Machine}
use go_oid4vp.Store.{mark_consumed}
use go_oid4vp.Response.Opened.{Carries}
use go_oid4vp.Response.VpToken.{Presentation}
use go_oid4vp.Response.Process.{process_response}
use go_oid4vp.Response.Process.Sound.{process_response_iff}
use go_oid4vp.NewSession.{WalletInvocation, new_session, session_of}
use go_oid4vp.NewSession.Spec.{RequestSpec}
use go_oid4vp.NewSession.Fresh.{chunk, new_session-Makes}

module _ {V : Platform} where
  -- Each session's key opens the text to a plaintext that has its own state.
  pub record OpensFor (s : Session V) (jwe : Bytes) (plain : Bytes) : Type 0 where
    pub priv : V.PrivateKey
    pub header : V.Header
    pub own_key : V.parse_pkcs8 s.ephemeral_key_pkcs8 ≡ some (some priv)
    pub decrypts : V.decrypt_jwe (V.static_provider s.id priv) s.id jwe ≡ some (plain, header)

  Carries-OpensFor :
      (s : Session V) (body : Bytes) (prs : List Presentation) (c : Carries s body prs)
      → OpensFor s c.jwe c.opens.plain
  Carries-OpensFor s body prs c = record {
    priv = c.opens.priv;
    header = c.opens.header;
    own_key = c.opens.own_key;
    decrypts = c.opens.decrypts;
  }

  -- The state that a plaintext gives.
  same_text_same_state :
      (s t : Session V) (body : Bytes) (prs qrs : List Presentation) (c : Carries s body prs)
      (d : Carries t body qrs)
      → c.opens.plain ≡ d.opens.plain
      → s.state ≡ t.state
  same_text_same_state s t body prs qrs c d same =
      let p : some c.payload ≡ some d.payload =
        sym c.opens.decodes ∙ ap V.decode_payload same ∙ d.opens.decodes in
      let q : c.payload ≡ d.payload = ground (arith, p) in
      sym c.state_bound ∙ ap (λ (x : Payload). x.state) q ∙ d.state_bound

  same_jwe :
      (s t : Session V) (body : Bytes) (prs qrs : List Presentation) (c : Carries s body prs)
      (d : Carries t body qrs)
      → c.jwe ≡ d.jwe
  same_jwe s t body prs qrs c d =
      let v : c.vals ≡ d.vals = ground (arith, sym c.form ∙ d.form) in
      let l : some (c.jwe ∷ []) ≡ some (d.jwe ∷ []) =
        sym c.one_response ∙ ap (lookup (codes "response")) v ∙ d.one_response in
      ground (arith, l)

  new_state :
      (e : Engine V) (spec : RequestSpec V) (entropy : ℕ) (w w' : Machine V) (s : Session V)
      (inv : WalletInvocation)
      → new_session e spec entropy w ≡ (ok (s, inv), w')
      → s.state ≡ encode (chunk 2 w.random)
  unfolding session_of
  new_state e spec entropy w w' s inv made =
      ap (λ (x : Session V). x.state) (new_session-Makes e spec entropy w w' s inv made).1.literal

  -- Sessions made from different bytes have different states.
  states-ne :
      (e : Engine V) (spec spec' : RequestSpec V) (n n' : ℕ) (v v' w w' : Machine V)
      (s t : Session V) (i j : WalletInvocation)
      → new_session e spec n v ≡ (ok (s, i), v')
      → new_session e spec' n' w ≡ (ok (t, j), w')
      → All (λ b. b < 256) (chunk 2 v.random)
      → All (λ b. b < 256) (chunk 2 w.random)
      → chunk 2 v.random ≢ chunk 2 w.random
      → s.state ≢ t.state
  states-ne e spec spec' n n' v v' w w' s t i j made made' bytes bytes' apart same =
      let codes_eq : encode (chunk 2 v.random) ≡ encode (chunk 2 w.random) =
        sym (new_state e spec n v v' s i made) ∙ same ∙ new_state e spec' n' w w' t j made' in
      let l : some (chunk 2 v.random) ≡ some (chunk 2 w.random) =
        sym (decode-encode (chunk 2 v.random) bytes)
        ∙ ap decode codes_eq
        ∙ decode-encode (chunk 2 w.random) bytes' in
      apart (ground (arith, l))

  accepted-Carries :
      (e : Engine V) (body : Bytes) (w w' : Machine V) (prs : List Presentation) (code : Bytes)
      (s : Session V)
      → process_response e body w ≡ (ok (prs, code), w')
      → w.session ≡ some s
      → Carries s body prs
  accepted-Carries e body w w' prs code s accepted at =
      let a = (process_response_iff e body w w' prs code).0 accepted in
      let same : a.s ≡ s = ground (arith, a.admits.pointed) in
      subst (λ (x : Session V). Carries x body prs) same a.carries

  -- One answer serves one session. Take two new sessions, marked consumed since, whose states
  -- were made from different random bytes. If `ProcessResponse` accepts one and the same body for
  -- both, then the one response parameter of that body is a JWE that the key of each session
  -- decrypts, to a different text for each: it is not a ciphertext of one answer.
  pub answer_serves_one_session :
      (e : Engine V) (spec spec' : RequestSpec V) (n n' : ℕ) (v v' w w' : Machine V)
      (s t : Session V) (i j : WalletInvocation) (body : Bytes) (x x' y y' : Machine V)
      (prs qrs : List Presentation) (code code' : Bytes)
      → new_session e spec n v ≡ (ok (s, i), v')
      → new_session e spec' n' w ≡ (ok (t, j), w')
      → All (λ b. b < 256) (chunk 2 v.random)
      → All (λ b. b < 256) (chunk 2 w.random)
      → chunk 2 v.random ≢ chunk 2 w.random
      → x.session ≡ some (mark_consumed s)
      → y.session ≡ some (mark_consumed t)
      → process_response e body x ≡ (ok (prs, code), x')
      → process_response e body y ≡ (ok (qrs, code'), y')
      → (vals : Values) × (jwe : Bytes) × (plain : Bytes) × (plain' : Bytes) × (parse_query body
          ≡ some vals)
        × (lookup (codes "response") vals ≡ some (jwe ∷ []))
        × OpensFor (mark_consumed s) jwe plain
        × OpensFor (mark_consumed t) jwe plain'
        × (plain ≢ plain')
  answer_serves_one_session e spec spec' n n' v v' w w' s t i j body x x' y y' prs qrs code code'
        made made' bytes bytes' apart at at' accepted accepted' =
      let c = accepted-Carries e body x x' prs code (mark_consumed s) accepted at in
      let d = accepted-Carries e body y y' qrs code' (mark_consumed t) accepted' at' in
      (
        c.vals,
        c.jwe,
        c.opens.plain,
        d.opens.plain,
        c.form,
        c.one_response,
        Carries-OpensFor (mark_consumed s) body prs c,
        subst (λ (z : Bytes). OpensFor (mark_consumed t) z d.opens.plain)
            (sym (same_jwe (mark_consumed s) (mark_consumed t) body prs qrs c d))
            (Carries-OpensFor (mark_consumed t) body qrs d),
        λ same.
            states-ne e spec spec' n n' v v' w w' s t i j made made' bytes bytes' apart
              (same_text_same_state (mark_consumed s) (mark_consumed t) body prs qrs c d same),
      )
