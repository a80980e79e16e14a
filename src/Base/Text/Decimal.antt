-- ===== src/Base/Text/Decimal.antt =====
-- strconv.Itoa on a 64-bit word.
use Prim.Native.Char.{Char, code}
use Prim.Native.Nat.{ℕ, zero, suc, ◌+◌, ◌-◌, ◌/◌, ◌%◌, ◌<◌, ◌≤◌, ◌^◌}
use Prim.Native.String.{String, count, ◌++◌}
use mathlib.Core.Path.{◌≡◌, refl, ap, sym, ◌∙◌}
use mathlib.Core.Logic.{◌≢◌}
use native.Mathlib.Omega.{arith}
use text.Mathlib.TextLemmas.{
  nil-append, cons-append, length-append, append_inj, append_cancel_left, length-cons, length-nil,
  head-eq_of_cons-eq,
}
use native.Mathlib.Decide.{dec_lt}
use native.Mathlib.Nat.{pow-suc}
use v2bx_outbound.Base.Tests.{ltb, if◌then◌else◌}
use v2bx_outbound.Base.Word.{int_mod, int_half}

digit : ℕ → Char
digit zero = "0"
digit (suc zero) = "1"
digit (suc (suc zero)) = "2"
digit (suc (suc (suc zero))) = "3"
digit (suc (suc (suc (suc zero)))) = "4"
digit (suc (suc (suc (suc (suc zero))))) = "5"
digit (suc (suc (suc (suc (suc (suc zero)))))) = "6"
digit (suc (suc (suc (suc (suc (suc (suc zero))))))) = "7"
digit (suc (suc (suc (suc (suc (suc (suc (suc zero)))))))) = "8"
digit _ = "9"

code-digit : (n : ℕ) → n < 10 → code (digit n) ≡ 48 + n
unfolding digit
code-digit zero h = refl
code-digit (suc zero) h = refl
code-digit (suc (suc zero)) h = refl
code-digit (suc (suc (suc zero))) h = refl
code-digit (suc (suc (suc (suc zero)))) h = refl
code-digit (suc (suc (suc (suc (suc zero))))) h = refl
code-digit (suc (suc (suc (suc (suc (suc zero)))))) h = refl
code-digit (suc (suc (suc (suc (suc (suc (suc zero))))))) h = refl
code-digit (suc (suc (suc (suc (suc (suc (suc (suc zero)))))))) h = refl
code-digit (suc (suc (suc (suc (suc (suc (suc (suc (suc zero))))))))) h = refl
code-digit (suc (suc (suc (suc (suc (suc (suc (suc (suc (suc n)))))))))) h = absurd (omega arith)

-- The digits of a number, with fuel for one round for each digit.
digits : ℕ → ℕ → String
digits zero n = ""
digits (suc fuel) n =
    let last = String.◌∷◌ (digit (n % 10)) "" in
    if ltb n 10 then last else digits fuel (n / 10) ++ last

-- The magnitude of a word, below 2^63 + 1, has at most nineteen digits.
pub itoa : ℕ → String
itoa n = if ltb n int_half then digits 20 n else "-" ++ digits 20 (int_mod - n)

itoa_runs : itoa (int_mod - 120) ≡ "-120"
unfolding itoa digits digit
itoa_runs = refl

abbrev last_digit : ℕ → String
last_digit n = String.◌∷◌ (digit (n % 10)) ""

count-last_digit : (n : ℕ) → count (last_digit n) ≡ 1
count-last_digit n = length-cons (digit (n % 10)) "" ∙ ap suc length-nil

last_digit-injective : (n m : ℕ) → last_digit n ≡ last_digit m → n % 10 ≡ m % 10
last_digit-injective n m e =
    omega (arith, ap code (head-eq_of_cons-eq e), code-digit (n % 10), code-digit (m % 10))

-- One round, with enough fuel.
digits_short : (fuel n : ℕ) → n < 10 → digits (suc fuel) n ≡ last_digit n
unfolding digits
digits_short fuel n h = ground arith

digits_long : (fuel n : ℕ) → 10 ≤ n → digits (suc fuel) n ≡ digits fuel (n / 10) ++ last_digit n
unfolding digits
digits_long fuel n h = ground arith

pow_ten : (fuel n : ℕ) → n < 10 ^ suc fuel → n / 10 < 10 ^ fuel
pow_ten fuel n h = omega (arith, pow-suc 10 fuel)

count-digits : (fuel n : ℕ) → 0 < n → n < 10 ^ fuel → 0 < count (digits fuel n)
count-digits zero n p h = absurd (omega arith)
count-digits (suc fuel) n p h = elim (dec_lt n 10) [
  | yes short ↦ rw (digits_short fuel n short, count-last_digit) (omega arith)
  | no long ↦ rw (digits_long fuel n (omega arith), length-append, count-last_digit) (omega arith)
]

digits_lengths_differ :
    (fuel n m : ℕ) → n < 10 → 10 ≤ m → m < 10 ^ suc fuel → digits (suc fuel) n ≢ digits (suc fuel) m
digits_lengths_differ fuel n m short long k e = omega (
  arith,
  ap count (sym (digits_short fuel n short) ∙ e ∙ digits_long fuel m long),
  length-append (digits fuel (m / 10)) (last_digit m),
  count-last_digit n,
  count-last_digit m,
  count-digits fuel (m / 10) (omega arith) (pow_ten fuel m k),
)

split_last :
    (fuel n m : ℕ)
    → digits fuel (n / 10) ++ last_digit n ≡ digits fuel (m / 10) ++ last_digit m
    → (digits fuel (n / 10) ≡ digits fuel (m / 10)) × (n % 10 ≡ m % 10)
split_last fuel n m e =
    let split = append_inj e (
      omega (
        arith,
        ap count e,
        length-append (digits fuel (n / 10)) (last_digit n),
        length-append (digits fuel (m / 10)) (last_digit m),
        count-last_digit n,
        count-last_digit m,
      )) in
    (split.0, last_digit-injective n m split.1)

digits-injective :
    (fuel n m : ℕ) → n < 10 ^ fuel → m < 10 ^ fuel → digits fuel n ≡ digits fuel m → n ≡ m
digits-injective zero n m h k e = omega arith
digits-injective (suc fuel) n m h k e = elim (dec_lt n 10) [
  | yes p ↦ elim (dec_lt m 10) [
    | yes q ↦
        omega (
          arith,
          last_digit-injective n m (sym (digits_short fuel n p) ∙ e ∙ digits_short fuel m q),
        )
    | no q ↦ absurd (digits_lengths_differ fuel n m p (omega arith) k e)
  ]
  | no p ↦ elim (dec_lt m 10) [
    | yes q ↦ absurd (digits_lengths_differ fuel m n q (omega arith) h (sym e))
    | no q ↦
        let parts =
          split_last fuel n m
            (sym (digits_long fuel n (omega arith)) ∙ e ∙ digits_long fuel m (omega arith)) in
        omega (
          arith,
          parts.1,
          digits-injective fuel (n / 10) (m / 10) (pow_ten fuel n h) (pow_ten fuel m k) parts.0,
        )
  ]
]

-- The first code of a text; digits stand at 48 to 57, and the sign at 45.
abbrev first_code : String → ℕ
first_code String.[] = 48
first_code (String.◌∷◌ c s) = code c

first_code-append :
    (s t : String) → 48 ≤ first_code s → 48 ≤ first_code t → 48 ≤ first_code (s ++ t)
first_code-append String.[] t h k = rw (nil-append t) k
first_code-append (String.◌∷◌ c s) t h k = rw (cons-append c s t) h

first_code-last_digit : (n : ℕ) → 48 ≤ first_code (last_digit n)
first_code-last_digit n = omega (arith, code-digit (n % 10))

first_code-digits : (fuel n : ℕ) → 48 ≤ first_code (digits fuel n)
unfolding digits
first_code-digits zero n = omega arith
first_code-digits (suc fuel) n = elim (dec_lt n 10) [
  | yes short ↦ rw (digits_short fuel n short) (first_code-last_digit n)
  | no long ↦ rw (digits_long fuel n (omega arith)) (
      first_code-append (digits fuel (n / 10)) (last_digit n) (first_code-digits fuel (n / 10))
        (first_code-last_digit n))
]

signs_differ : (n m : ℕ) → digits 20 n ≢ "-" ++ digits 20 m
signs_differ n m e =
    omega (arith, first_code-digits 20 n, ap first_code (e ∙ cons-append "-" "" (digits 20 m)))

-- Itoa tells words apart.
pub itoa-injective : (n m : ℕ) → n < int_mod → m < int_mod → itoa n ≡ itoa m → n ≡ m
unfolding itoa
itoa-injective n m h k e = elim (dec_lt n int_half) [
  | yes p ↦ elim (dec_lt m int_half) [
    | yes q ↦ digits-injective 20 n m (omega arith) (omega arith) (ground arith)
    | no q ↦ absurd (signs_differ n (int_mod - m) (ground arith))
  ]
  | no p ↦ elim (dec_lt m int_half) [
    | yes q ↦ absurd (signs_differ m (int_mod - n) (ground arith))
    | no q ↦
        let magnitudes =
          digits-injective 20 (int_mod - n) (int_mod - m) (omega arith) (omega arith)
            (append_cancel_left "-" _ _ (ground arith)) in
        omega (arith, magnitudes)
  ]
]
