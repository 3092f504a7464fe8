-- ===== src/Base/Words.antt =====
-- The unsigned machine words of a 64-bit target, as native numbers; i64 as integers. A release
-- build wraps on overflow, so sums and differences keep their modulus.
use Prim.Native.Nat.{ℕ, ◌+◌, ◌-◌, ◌*◌, ◌%◌, ◌^◌, min}
use mathlib.Core.Bool.{Bool, false, true}
use warpline.Base.Tests.{leb}

abbrev pub word_mod : ℕ
word_mod = 2 ^ 64

-- `u64::MAX` and `usize::MAX`.
abbrev pub word_max : ℕ
word_max = word_mod - 1

-- `i64::MAX`.
abbrev pub i64_max : ℕ
i64_max = 2 ^ 63 - 1

abbrev pub wrapping_add : ℕ → ℕ → ℕ
wrapping_add a b = (a + b) % word_mod

abbrev pub wrapping_sub : ℕ → ℕ → ℕ
wrapping_sub a b = (a + word_mod - b) % word_mod

abbrev pub wrapping_mul : ℕ → ℕ → ℕ
wrapping_mul a b = (a * b) % word_mod

-- Subtraction on ℕ stops at 0, as `saturating_sub` does.
abbrev pub saturating_sub : ℕ → ℕ → ℕ
saturating_sub a b = a - b

abbrev pub saturating_add : ℕ → ℕ → ℕ
saturating_add a b = min (a + b) word_max

-- `negsuc n` is -(n + 1).
pub data ℤ : Type 0 where
  pos : ℕ → ℤ
  negsuc : ℕ → ℤ

-- `(lo..=hi).contains(&v)` for bounds that are not negative.
abbrev pub in_range : ℕ → ℕ → ℤ → Bool
in_range lo hi (pos n) = elim (leb lo n) [ true ↦ leb n hi | false ↦ false ]
in_range lo hi (negsuc n) = false

-- `i64::try_from(n).unwrap_or(i64::MAX)` for an unsigned word.
abbrev pub i64_or_max : ℕ → ℤ
i64_or_max n = pos (min n i64_max)
