-- ===== src/Fault/Echo.antt =====
-- What a wallet gets back for an error that it reported itself.
use go_oid4vp.Base.{All, ◌≡◌, ◌≢◌, ◌⊎◌, inl, inr, refl, sym, some, List, [], ◌∷◌, Bool-cases}
use go_oid4vp.Base.Bytes.{Bytes, codes, bytes_eq, bytes_eq_iff}
use mathlib.Core.List.{Mem, mem-cons}
use mathlib.Core.Logic.Or
use go_oid4vp.Fault.{WalletError, Error, as_wallet_error}
use go_oid4vp.Fault.Response.{
  Code, code_text, echoed_codes, normalize_among, normalize_wallet_code, error_response,
  invalid_request,
}

-- The code is the text's, if the text is one of the codes, and else the default.
abbrev pub IsNormal : List Code → Bytes → Code → Type 0
IsNormal cs text c =
    (Mem c cs × (code_text c ≡ text)) ⊎ ((c ≡ invalid_request) × All (λ x. text ≢ code_text x) cs)

extend-IsNormal :
    (c x : Code) (cs : List Code) (text : Bytes)
    → text ≢ code_text c
    → IsNormal cs text x
    → IsNormal (c ∷ cs) text x
extend-IsNormal c x cs text other (inl (member, same)) = inl (mem-cons.1 (Or.inr member), same)
extend-IsNormal c x cs text other (inr (default, none_is)) = inr (default, (other, none_is))

normalize_among-IsNormal :
    (cs : List Code) (text : Bytes) → IsNormal cs text (normalize_among cs text)
unfolding normalize_among
normalize_among-IsNormal [] text = inr (refl, tt)
normalize_among-IsNormal (c ∷ cs) text = elim (Bool-cases (bytes_eq text (code_text c))) [
  | inl hit ↦ rw hit (inl (mem-cons.1 (Or.inl refl), sym ((bytes_eq_iff _ _).0 hit)))
  | inr miss ↦ rw miss (
      extend-IsNormal c _ cs text (λ e. cc (let same = (bytes_eq_iff _ _).1 e in rw same at miss))
        (normalize_among-IsNormal cs text))
]

-- For an error that carries a wallet's error, the reply is 400 with fixed words, and its code is the
-- wallet's own where that is one of the six codes that the boundary knows, and invalid_request where
-- it is none of them: no text of the wallet's comes back.
pub error_response_of_wallet :
    (e : Error) (w : WalletError)
    → as_wallet_error e ≡ some w
    → ((error_response (some e)).status ≡ 400)
      × ((error_response (some e)).description ≡ codes "wallet reported an error")
      × IsNormal echoed_codes w.code (error_response (some e)).code
unfolding error_response normalize_wallet_code
error_response_of_wallet e w h = rw h (refl, refl, normalize_among-IsNormal echoed_codes w.code)
