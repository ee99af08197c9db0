-- ===== src/Base64/RoundTrip.antt =====
-- Decoding after encoding, and the length of an encoding.
use go_oid4vp.Base.{ℕ, ◌+◌, ◌*◌, ◌/◌, ◌<◌, ◌≡◌, refl, some, List, [], ◌∷◌, arith, All, length}
use go_oid4vp.Base.Bytes.{Bytes}
use go_oid4vp.Base64.{char_of, value_of, sextets, chars, encode, values, join_sextets, decode}

value_of-char_of : (n : ℕ) → n < 64 → value_of (char_of n) ≡ some n
unfolding value_of char_of
value_of-char_of n h = ground arith

char_of_printable : (n : ℕ) → n < 64 → 13 < char_of n
unfolding char_of
char_of_printable n h = ground arith

pub sextets-lt : (bs : Bytes) → All (λ b. b < 256) bs → All (λ n. n < 64) (sextets bs)
unfolding sextets
sextets-lt [] h = tt
sextets-lt (a ∷ []) h = omega arith
sextets-lt (a ∷ b ∷ []) h = omega arith
sextets-lt (a ∷ b ∷ c ∷ rest) h =
    (omega arith, (omega arith, (omega arith, (omega arith, sextets-lt rest h.1.1.1))))

values-chars : (ns : List ℕ) → All (λ n. n < 64) ns → values (chars ns) ≡ some ns
unfolding values chars
values-chars [] h = refl
values-chars (n ∷ ns) h =
    ground (arith, values-chars ns h.1, value_of-char_of n h.0, char_of_printable n h.0)

join_sextets-sextets : (bs : Bytes) → All (λ b. b < 256) bs → join_sextets (sextets bs) ≡ some bs
unfolding join_sextets sextets
join_sextets-sextets [] h = refl
join_sextets-sextets (a ∷ []) h = ground arith
join_sextets-sextets (a ∷ b ∷ []) h = ground arith
join_sextets-sextets (a ∷ b ∷ c ∷ rest) h = ground (arith, join_sextets-sextets rest h.1.1.1)

-- Every string of bytes is what its encoding decodes to.
pub decode-encode : (bs : Bytes) → All (λ b. b < 256) bs → decode (encode bs) ≡ some bs
unfolding decode encode
decode-encode bs h = rw (values-chars (sextets bs) (sextets-lt bs h)) (join_sextets-sextets bs h)

length-chars : (ns : List ℕ) → length (chars ns) ≡ length ns
unfolding chars
length-chars [] = refl
length-chars (n ∷ ns) = omega (arith, length-chars ns)

length-sextets : (bs : Bytes) → length (sextets bs) ≡ (4 * length bs + 2) / 3
unfolding sextets
length-sextets [] = refl
length-sextets (a ∷ []) = refl
length-sextets (a ∷ b ∷ []) = refl
length-sextets (a ∷ b ∷ c ∷ rest) = omega (arith, length-sextets rest)

-- An encoding of n bytes has 4n/3 characters, rounded up.
pub length-encode : (bs : Bytes) → length (encode bs) ≡ (4 * length bs + 2) / 3
unfolding encode
length-encode bs = omega (arith, length-chars (sextets bs), length-sextets bs)
