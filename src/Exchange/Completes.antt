-- ===== src/Exchange/Completes.antt =====
-- An exchange with an honest wallet.
use go_oid4vp.Base.{
  map, Pairwise, ℕ, suc, ◌≤◌, ◌<◌, ◌≡◌, ◌≢◌, ◌∙◌, refl, ap, sym, subst, Bool, true, false, inl, inr,
  Option, none, some, List, [], ◌∷◌, arith, All, length, take, drop, Bool-cases,
}
use go_oid4vp.Base.Bytes.{Bytes, codes, is_empty, is_empty_of_ne}
use go_oid4vp.Base.Table.{lookup}
use go_oid4vp.Base64.{encode}
use go_oid4vp.Form.{encode_values}
use go_oid4vp.Form.Query.{get}
use go_oid4vp.Form.Posted.{collect, parse_query-encode_values}
use go_oid4vp.Platform.{Platform, Payload}
use go_oid4vp.Session.{Session}
use go_oid4vp.Engine.{Engine, token_bytes}
use go_oid4vp.Fault.{ok}
use go_oid4vp.Machine.{Machine}
use go_oid4vp.Store.{mark_consumed}
use go_oid4vp.Store.Spec.{Sessions, assign, absent-IsKept}
use go_oid4vp.Store.Interface.{SessionStore, Implements}
use go_oid4vp.Store.Client
use go_oid4vp.Store.Client.{assign_self}
use go_oid4vp.Response.{is_dcapi, is_same_device}
use go_oid4vp.Response.Opened.{BindsNonce, Carries}
use go_oid4vp.Response.VpToken.{Presentation}
use go_oid4vp.Response.VpToken.Sort.{sort}
use go_oid4vp.Response.VpToken.Bound.{IsMember, IsBound, sent, presentations_from_vp_token_iff}
use go_oid4vp.Response.Process.{process_response, with_code}
use go_oid4vp.Response.Process.Sound.{Minted, ticked, process_response_iff}
use go_oid4vp.NewSession.{WalletInvocation, new_session, session_of}
use go_oid4vp.NewSession.Spec.{RequestSpec}
use go_oid4vp.NewSession.Fresh.{new_session-Makes}
use go_oid4vp.SameDevice.Code.{token-ne}
use go_oid4vp.Exchange.{Wallet}

module _ {V : Platform} (a : Wallet V) where
  -- The form that the wallet posts: its plaintext, encrypted to the session's key.
  abbrev pub posted : V.PrivateKey → Bytes → Bytes
  posted k plain = encode_values ((codes "response", a.encrypt (V.public_key k) plain) ∷ [])

  -- The wallet answers the session with these presentations: the plaintext is a payload with the
  -- session's state and a vp_token with a member for credential queries only, the entries of which are
  -- the presentations one for one, the header binds the nonce if it has an `apv`,
  -- and the form is within the engine's cap.
  pub record Answers (e : Engine V) (s : Session V) (k : V.PrivateKey) (plain : Bytes)
      (prs : List Presentation) : Type 0 where
    pub payload : Payload
    pub thumbprint : Bytes
    pub reads : V.decode_payload plain ≡ some payload
    pub nothing_after : payload.more ≡ false
    pub has_token : is_empty payload.vp_token ≡ false
    pub own_state : payload.state ≡ s.state
    pub own_nonce : BindsNonce s.nonce (V.apv a.header)
    pub has_thumbprint : V.jwk_thumbprint_bytes (V.public_key k) ≡ some thumbprint
    pub asked :
        All (IsMember s thumbprint payload.vp_token) (sort (map (λ e. e.0) payload.vp_token))
    pub presents :
        Pairwise
          (IsBound s thumbprint)
          (sent s thumbprint payload.vp_token (sort (map (λ e. e.0) payload.vp_token)))
          prs
    pub text : All (λ b. b < 256) (a.encrypt (V.public_key k) plain)
    pub not_blank : a.encrypt (V.public_key k) plain ≢ []
    pub fits : length (posted k plain) ≤ e.max_response_body

  Carries-answer :
      (e : Engine V) (s : Session V) (k : V.PrivateKey) (plain : Bytes) (prs : List Presentation)
      → V.parse_pkcs8 s.ephemeral_key_pkcs8 ≡ some (some k)
      → Answers e s k plain prs
      → Carries s (posted k plain) prs
  unfolding get lookup go_oid4vp.Form.Query.append_value go_oid4vp.Base.Table.insert
      go_oid4vp.Base.Bytes.bytes_eq
  Carries-answer e s k plain prs own w = record {
    vals = collect ((codes "response", a.encrypt (V.public_key k) plain) ∷ []) [];
    jwe = a.encrypt (V.public_key k) plain;
    payload = w.payload;
    thumbprint = w.thumbprint;
    form = parse_query-encode_values _ [] ((omega arith, w.text), tt) (omega arith);
    no_error = refl;
    one_response = refl;
    not_blank = is_empty_of_ne _ w.not_blank;
    opens = record {
      priv = k;
      plain = plain;
      header = a.header;
      own_key = own;
      decrypts = a.decrypts s.id k plain;
      nonce_bound = w.own_nonce;
      own_thumbprint = w.has_thumbprint;
      decodes = w.reads;
      nothing_after = w.nothing_after;
      has_token = w.has_token;
    };
    state_bound = w.own_state;
    presented =
        (presentations_from_vp_token_iff s w.thumbprint w.payload.vp_token prs).1
          (w.asked, w.presents);
  }

  mintable :
      (s : Session V) (w : Machine V)
      → token_bytes ≤ length w.random
      → (code : Bytes) × (w' : Machine V) × Minted s w code w'
  mintable s w room = elim (Bool-cases (is_same_device s.flow)) [
    | inl same ↦ (
      encode (take token_bytes w.random),
      record w {
        random = drop token_bytes w.random;
        session = some (with_code s (encode (take token_bytes w.random)));
      },
      inl (same, room, refl, refl),
    )
    | inr other ↦ ([], w, inr (other, refl, refl))
  ]

  process_answer :
      (e : Engine V) (s : Session V) (k : V.PrivateKey) (plain : Bytes) (prs : List Presentation)
      (v : Machine V)
      → V.parse_pkcs8 s.ephemeral_key_pkcs8 ≡ some (some k)
      → Answers e s k plain prs
      → is_dcapi s.flow ≡ false
      → s.consumed ≡ true
      → v.session ≡ some s
      → v.clock 0 < s.expires_at
      → token_bytes ≤ length v.random
      → (code : Bytes) × (v' : Machine V) × (process_response e (posted k plain) v
          ≡ (ok (prs, code), v'))
  process_answer e s k plain prs v own w flow used pointed fresh room =
      let (code, v', minted) = mintable s (ticked v) room in
      (
        code,
        v',
        (process_response_iff e (posted k plain) v v' prs code).1 (record {
          s = s;
          admits = record {
            pointed = pointed;
            flow = flow;
            consumed = used;
            unexpired = fresh;
            fits = w.fits;
          };
          carries = Carries-answer e s k plain prs own w;
          minted = minted;
        }),
      )

  -- An honest wallet succeeds. When a new session of a request_uri flow, which can be stored, is
  -- saved in a store that implements the interface and has nothing under its id, then at any time before it expires the store
  -- hands it out, marked consumed; and at any time before it expires `ProcessResponse` accepts
  -- for it the form of a wallet that answers it, encrypted to the key that was made for it, with
  -- exactly the presentations of the entries that the wallet sent, if the random source has bytes for a code.
  pub honest_answer_accepted :
      (e : Engine V) (spec : RequestSpec V) (entropy : ℕ) (w w' : Machine V) (s : Session V)
      (inv : WalletInvocation) (k : V.PrivateKey) (plain : Bytes) (prs : List Presentation)
      (v : Machine V) (IsStorable : Session V → Type 0) (st : SessionStore V)
      (i : Implements IsStorable st) (m : st.Store) (f : Sessions V) (t : ℕ)
      → new_session e spec entropy w ≡ (ok (s, inv), w')
      → is_dcapi s.flow ≡ false
      → V.generate_ephemeral_key e.response_encryption.curve entropy ≡ some k
      → IsStorable s
      → i.Stands m f
      → f s.id ≡ none
      → t < s.expires_at
      → Answers e (mark_consumed s) k plain prs
      → v.session ≡ some (mark_consumed s)
      → v.clock 0 < s.expires_at
      → token_bytes ≤ length v.random
      → ((st.consume_once t s.id (st.save (some s) m).1).0 ≡ ok (mark_consumed s))
        × (code : Bytes) × (v' : Machine V) × (process_response e (posted k plain) v
            ≡ (ok (prs, code), v'))
  unfolding encode session_of
  honest_answer_accepted e spec entropy w w' s inv k plain prs v IsStorable st i m f t made flow key
        storable stands free soon answers pointed fresh room =
      let makes = (new_session-Makes e spec entropy w w' s inv made).1 in
      let named : is_empty s.id ≡ false = is_empty_of_ne s.id (λ z.
        token-ne w.random makes.enough.0 (sym (ap (λ (u : Session V). u.id) makes.literal) ∙ z)) in
      let unused : s.consumed ≡ false = ap (λ (u : Session V). u.consumed) makes.literal in
      let same : makes.key ≡ k = ground (arith, makes.generated) in
      let own : V.parse_pkcs8 s.ephemeral_key_pkcs8 ≡ some (some k) =
        ap (λ (u : Session V). V.parse_pkcs8 u.ephemeral_key_pkcs8) makes.literal
        ∙ a.key_kept makes.key makes.der makes.stored
        ∙ ap (λ (x : V.PrivateKey). some (some x)) same in
      let saved = Client.saves st i s m f named storable (absent-IsKept (f s.id) s free) stands in
      let taken =
        Client.consumes_fresh st i t s.id s _ (assign s.id (some s) f) (assign_self s.id (some s) f)
          unused soon saved.1 in
      let done =
        process_answer e (mark_consumed s) k plain prs v own answers flow refl pointed fresh room in
      (taken.0, done.0, done.1, done.2)
