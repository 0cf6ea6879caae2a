-- ===== src/Base/Int64.antt =====
-- Go's `int64` and 64-bit `int`, as bit patterns below 2 ^ 64: addition wraps, and the order is
-- that of the two's complement value.
use Prim.Native.Nat.{ℕ, ◌+◌, ◌%◌}
use mathlib.Core.Bool.{Bool}
use kelmor.Base.Tests.{ltb, leb, nat_eq}

abbrev pub word_mod : ℕ
word_mod = 18446744073709551616

abbrev pub sign_bit : ℕ
sign_bit = 9223372036854775808

abbrev pub add64 : ℕ → ℕ → ℕ
add64 a b = (a + b) % word_mod

-- a < b on two's complement values.
abbrev pub slt : ℕ → ℕ → Bool
slt a b = ltb (add64 a sign_bit) (add64 b sign_bit)

-- a <= b
abbrev pub sle : ℕ → ℕ → Bool
sle a b = leb (add64 a sign_bit) (add64 b sign_bit)

-- a == b
abbrev pub seq : ℕ → ℕ → Bool
seq a b = nat_eq (a % word_mod) (b % word_mod)
