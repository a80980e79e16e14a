-- ===== src/Base/Word.antt =====
-- Go's `int` and `int64` on a 64-bit platform: a number below 2^64 is a word in two's complement.
use Prim.Native.Nat.{ℕ, ◌+◌, ◌*◌, ◌-◌, ◌/◌, ◌%◌, ◌^◌}
use mathlib.Core.Bool.{Bool}
use v2bx_outbound.Base.Tests.{ltb, if◌then◌else◌}

abbrev pub int_mod : ℕ
int_mod = 2 ^ 64

-- The words from here on are the negative numbers.
abbrev pub int_half : ℕ
int_half = 2 ^ 63

abbrev pub add_int : ℕ → ℕ → ℕ
add_int a b = (a + b) % int_mod

abbrev pub mul_int : ℕ → ℕ → ℕ
mul_int a b = (a * b) % int_mod

-- `a / n` for a positive constant `n`: Go rounds towards zero.
abbrev pub quot_int : ℕ → ℕ → ℕ
quot_int a n = if ltb a int_half then a / n else (int_mod - (int_mod - a) / n) % int_mod

-- `a < b` on signed words.
abbrev pub slt : ℕ → ℕ → Bool
slt a b = ltb ((a + int_half) % int_mod) ((b + int_half) % int_mod)
