-- ===== src/Response/Reported.antt =====
-- What comes of an error that the wallet reports in place of a response.
use go_oid4vp.Base.{
  ℕ, zero, suc, ◌+◌, ◌≤◌, ◌<◌, ◌≡◌, refl, ◌++◌, ◌≢◌, ◌⊎◌, inl, inr, true, false, not, ◌&&◌, some,
  List, [], ◌∷◌, arith, length, ltb, take, length-append, Bool-cases,
}
use go_oid4vp.Base.Bytes.{
  Bytes, codes, bytes_eq, bytes_eq_iff, is_empty, is_empty-eq, is_empty-ne, is_empty_of_ne,
}
use go_oid4vp.Form.Query.{Values, get, parse_query}
use go_oid4vp.Platform.{Platform}
use go_oid4vp.Session.{Session}
use go_oid4vp.Fault.{WalletError, wallet, Result, err, sentinel, state_mismatch}
use go_oid4vp.Response.VpToken.{clip, ellipsis, Presentation}
use go_oid4vp.Response.{wallet_error_from, read_response}

length-take-upper : (n : ℕ) (t : Bytes) → length (take n t) ≤ n
length-take-upper zero t = omega arith
length-take-upper (suc n) [] = omega arith
length-take-upper (suc n) (c ∷ t) = omega (arith, length-take-upper n t)

-- The cut text and the three bytes of the ellipsis.
length-clip : (n : ℕ) (t : Bytes) → length (clip t n) ≤ n + 3
unfolding clip
length-clip n t = elim (Bool-cases (ltb n (length t))) [
  | inl long ↦ rw long (omega (arith, length-append (take n t) ellipsis, length-take-upper n t))
  | inr short ↦ rw short (ground arith)
]

-- A text that is kept whole up to 256 bytes, and cut there, with an ellipsis, beyond.
abbrev pub IsCut : Bytes → Bytes → Type 0
IsCut t cut =
    ((length t ≤ 256) × (cut ≡ t))
    ⊎ ((256 < length t) × (cut ≡ take 256 t ++ (0xe2 ∷ 0x80 ∷ 0xa6 ∷ [])))

clip-IsCut : (t : Bytes) → IsCut t (clip t 256)
unfolding clip
clip-IsCut t = elim (Bool-cases (ltb 256 (length t))) [
  | inl long ↦ inr (ground (arith, long), rw long refl)
  | inr short ↦ inl (ground (arith, short), rw short refl)
]

module _ {V : Platform} where
  -- A refusal for an echoed state that is not the session's, or the wallet's own words, cut.
  abbrev pub Reports : Session V → Values → Result (List Presentation) → Type 0
  Reports s vals r =
      ((get (codes "state") vals ≢ [])
        × (get (codes "state") vals ≢ s.state)
        × (r ≡ err (sentinel state_mismatch)))
      ⊎ (((get (codes "state") vals ≡ []) ⊎ (get (codes "state") vals ≡ s.state))
          × (w : WalletError) × (r ≡ err (wallet w))
          × IsCut (get (codes "error") vals) w.code
          × IsCut (get (codes "error_description") vals) w.description
          × (length w.code ≤ 259)
          × (length w.description ≤ 259))

  unclipped :
      (s : Session V) (vals : Values)
      → (not (is_empty (get (codes "state") vals))
          && not (bytes_eq (get (codes "state") vals) s.state))
        ≡ false
      → (get (codes "state") vals ≡ []) ⊎ (get (codes "state") vals ≡ s.state)
  unclipped s vals h = elim (Bool-cases (is_empty (get (codes "state") vals))) [
    | inl blank ↦ inl (is_empty-eq _ blank)
    | inr echoed ↦ inr ((bytes_eq_iff _ _).0 (ground arith))
  ]

  -- A form with an error parameter is never read as a response: it is refused for its state if it
  -- echoes one that is not the session's, and otherwise with an error whose code is the form's error and
  -- whose description is the form's error_description, each kept whole up to 256 bytes and otherwise
  -- cut there, so that it has at most 259 bytes with the ellipsis.
  pub read_response-Reports :
      (s : Session V) (body : Bytes) (vals : Values)
      → parse_query body ≡ some vals
      → get (codes "error") vals ≢ []
      → Reports s vals (read_response s body)
  unfolding read_response wallet_error_from
  read_response-Reports s body vals parsed reported =
      elim (Bool-cases (
        not (is_empty (get (codes "state") vals))
        && not (bytes_eq (get (codes "state") vals) s.state))) [
          | inl foreign_state ↦ inl (
            is_empty-ne _ (ground arith),
            (λ e.
                let same : bytes_eq (get (codes "state") vals) s.state ≡ true =
                  (bytes_eq_iff _ _).1 e in
                ground arith),
            rw (parsed, is_empty_of_ne _ reported, foreign_state),
          )
          | inr own_state ↦ inr (
            unclipped s vals own_state,
            record {
              code = clip (get (codes "error") vals) 256;
              description = clip (get (codes "error_description") vals) 256;
            },
            rw (parsed, is_empty_of_ne _ reported, own_state),
            clip-IsCut (get (codes "error") vals),
            clip-IsCut (get (codes "error_description") vals),
            length-clip 256 _,
            length-clip 256 _,
          )
        ]
