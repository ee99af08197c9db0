-- ===== src/Request/Published.antt =====
-- The session's public key as the Request Object publishes it.
use go_oid4vp.Base.{
  ℕ, zero, suc, ◌+◌, ◌*◌, ◌/◌, ◌<◌, ◌≤◌, ◌≡◌, ◌∙◌, sym, ap, refl, subst, true, none, some, List, [],
  ◌∷◌, ◌++◌, arith, All, length, take, drop, not, ◌==◌, take-drop, All-take, All-drop, length-take,
  length-drop,
}
use go_oid4vp.Base.Bytes.{Bytes, codes}
use go_oid4vp.Base64.{encode, decode}
use go_oid4vp.Base64.RoundTrip.{decode-encode}
use go_oid4vp.Json.{Json, text, obj, Members, get, member, end}
use go_oid4vp.Platform.{Platform}
use go_oid4vp.Fault.{ok, >>=-eq-ok, or_fail-eq-ok, refuse_if-eq-ok}
use go_oid4vp.Request.Metadata.{ephemeral_jwk}

drop-suc : (n : ℕ) (b : ℕ) (bs : Bytes) → drop (1 + n) (b ∷ bs) ≡ drop n bs
drop-suc n b bs = let e : 1 + n ≡ suc n = omega arith in ap (λ (k : ℕ). drop k (b ∷ bs)) e

three_parts :
    (n : ℕ) (p : Bytes) → 1 ≤ length p → take 1 p ++ take n (drop 1 p) ++ drop (1 + n) p ≡ p
three_parts n [] h = absurd (omega (arith, h))
three_parts n (b ∷ bs) h = ap (◌∷◌ b) (rw (drop-suc n b bs) (take-drop n bs))

-- The coordinates that a wallet reads, and the other members.
pub record Publishes (V : Platform) (k : V.PublicKey) (alg kid : Bytes) (jwk : Json) : Type 0 where
  pub members : Members
  pub tag : Bytes
  pub x : Bytes
  pub y : Bytes
  pub x_text : Bytes
  pub y_text : Bytes
  pub is_object : jwk ≡ obj members
  pub point : V.ecdh_point k ≡ some (tag ++ x ++ y)
  pub one_tag : length tag ≡ 1
  pub width_x : length x ≡ (V.curve_bits k + 7) / 8
  pub width_y : length y ≡ (V.curve_bits k + 7) / 8
  pub has_x : get (codes "x") members ≡ some (text x_text)
  pub has_y : get (codes "y") members ≡ some (text y_text)
  pub reads_x : decode x_text ≡ some x
  pub reads_y : decode y_text ≡ some y
  pub curve : get (codes "crv") members ≡ some (text (V.curve_name k))
  pub algorithm : get (codes "alg") members ≡ some (text alg)
  pub session : get (codes "kid") members ≡ some (text kid)

-- A wallet that reads the published key gets the session's public key: the member x and y decode to
-- the two coordinates of the key's point, each as long as the curve asks, which are all of the point
-- but its one tag byte; and the curve, the algorithm and the key id are the key's, the
-- configured one and the session's, when the point is a string of bytes.
pub ephemeral_jwk-Publishes :
    (V : Platform) (k : V.PublicKey) (alg kid : Bytes) (jwk : Json)
    → ((p : Bytes) → V.ecdh_point k ≡ some p → All (λ b. b < 256) p)
    → ephemeral_jwk V k alg kid ≡ ok jwk
    → Publishes V k alg kid jwk
unfolding ephemeral_jwk get go_oid4vp.Base.Bytes.bytes_eq
ephemeral_jwk-Publishes V k alg kid jwk bytes h =
    let (p, found, h₁) = >>=-eq-ok _ _ h in
    let (u, fits, h₂) = >>=-eq-ok _ _ h₁ in
    let size = (V.curve_bits k + 7) / 8 in
    let at : V.ecdh_point k ≡ some p = or_fail-eq-ok _ _ found in
    let n : length p ≡ 1 + (size + size) =
      ground (arith, refuse_if-eq-ok (not (length p == 1 + 2 * size)) _ fits) in
    let b = bytes p at in
    let rest = length-drop 1 (size + size) p n in
    let parts : take 1 p ++ take size (drop 1 p) ++ drop (1 + size) p ≡ p =
      three_parts size p (omega (arith, n)) in
    let m = member (codes "kty") (text (codes "EC")) (
      member (codes "crv") (text (V.curve_name k)) (
        member (codes "x") (text (encode (take size (drop 1 p)))) (
          member (codes "y") (text (encode (drop (1 + size) p))) (
            member (codes "use") (text (codes "enc"))
              (member (codes "alg") (text alg) (member (codes "kid") (text kid) end)))))) in
    let same : ok (obj m) ≡ ok jwk = h₂ in
    record {
      members = m;
      tag = take 1 p;
      x = take size (drop 1 p);
      y = drop (1 + size) p;
      x_text = encode (take size (drop 1 p));
      y_text = encode (drop (1 + size) p);
      is_object = ground (arith, sym same);
      point = at ∙ ap some (sym parts);
      one_tag = length-take 1 (size + size) p n;
      width_x = length-take size size (drop 1 p) rest;
      width_y = length-drop (1 + size) size p (omega (arith, n));
      has_x = refl;
      has_y = refl;
      reads_x = decode-encode _ (All-take _ size (drop 1 p) (All-drop _ 1 p b));
      reads_y = decode-encode _ (All-drop _ (1 + size) p b);
      curve = refl;
      algorithm = refl;
      session = refl;
    }
