-- ===== src/Base/Words.antt =====
-- 32-bit words. An `int` is its bit pattern, a number below 2 ^ 32, so the conversions between
-- `int` and `unsigned int` that the C code makes are the identity; from 2 ^ 31 up it is negative.
use Prim.Native.Nat.{ℕ, ◌+◌, ◌-◌, ◌%◌, ◌^◌}
use mathlib.Core.Bool.{Bool}
use bkernel.Base.Tests.{ltb, leb}

abbrev pub word_mod : ℕ
word_mod = 2 ^ 32

abbrev pub add32 : ℕ → ℕ → ℕ
add32 a b = (a + b) % word_mod

abbrev pub sub32 : ℕ → ℕ → ℕ
sub32 a b = (a + word_mod - b) % word_mod

-- The pattern of the `int` constant -n.
abbrev pub neg : ℕ → ℕ
neg n = word_mod - n

-- `a < 0` and `a < b` on `int`.
abbrev pub is_neg : ℕ → Bool
is_neg a = leb (2 ^ 31) a

abbrev pub lt_signed : ℕ → ℕ → Bool
lt_signed a b = ltb (add32 a (2 ^ 31)) (add32 b (2 ^ 31))
