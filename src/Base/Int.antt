-- ===== src/Base/Int.antt =====
-- Signed 64-bit values (`int64`, `time.Duration`, `int`) that the package only compares with zero
-- or passes on. `negsuc n` is -(n + 1).
use Prim.Native.Nat.{ℕ, zero, suc}

pub data ℤ : Type 0 where
  pos : ℕ → ℤ
  negsuc : ℕ → ℤ

-- `if n <= 0 { n = fallback }`.
unfoldable pub or_default : ℤ → ℕ → ℕ
or_default (pos zero) fallback = fallback
or_default (pos (suc n)) fallback = suc n
or_default (negsuc n) fallback = fallback
