-- ===== src/Common/Number/Decimal.antt =====
-- `Strtol` on what `%ld` prints.
use pika_panlei.Base.{
  ℕ, zero, suc, ◌+◌, ◌*◌, ◌/◌, ◌%◌, ◌^◌, ◌≤◌, ◌<◌, ℤ, pos, negsuc, ◌≡◌, refl, ap, ◌∙◌, true, false,
  ◌||◌, sym, inl, inr, Bool-cases, some, [], ◌∷◌, PString, length, ltb, ◌==◌, arith,
}
use pika_panlei.Common.Number.Print.{digits, print_nat, print_int}
use pika_panlei.Common.Number.Laws.{digits-head, width, length-print_nat}
use pika_panlei.Common.Number.Strtol.{
  skip_space, digit_value, digits_value, magnitude, in_range, strtol_signed, strtol,
}

digit_value-digit : (d : ℕ) → d < 10 → digit_value (b'0' + d) ≡ d
unfolding digit_value
digit_value-digit d h = ground arith

digits_value-cons :
    (v d : ℕ) (cs : PString)
    → d < 10
    → digits_value 10 v ((b'0' + d) ∷ cs) ≡ digits_value 10 (v * 10 + d) cs
unfolding digits_value
digits_value-cons v d cs h = rw (digit_value-digit d h) (ground arith)

digits_value-digits :
    (fuel n : ℕ) (acc : PString)
    → n < fuel
    → digits_value 10 0 (digits fuel n acc) ≡ digits_value 10 n acc
unfolding digits
digits_value-digits zero n acc h = absurd (omega arith)
digits_value-digits (suc fuel) n acc h = ground (
  arith,
  digits_value-digits fuel (n / 10) ((b'0' + n % 10) ∷ acc),
  digits_value-cons (n / 10) (n % 10) acc,
  digits_value-cons 0 n acc,
)

-- A number that is not 0 is printed with a first digit that is not 0.
leading_digit :
    (fuel n : ℕ) (acc : PString)
    → n < fuel
    → 0 < n
    → (d : ℕ) × (cs : PString) × (digits fuel n acc ≡ (b'0' + d) ∷ cs) × (0 < d) × (d < 10)
unfolding digits
leading_digit zero n acc h k = absurd (omega arith)
leading_digit (suc fuel) n acc h k = elim (Bool-cases (ltb n 10)) [
  | inl e ↦ (n, acc, rw e refl, k, ground arith)
  | inr e ↦
      let (d, cs, q, r, t) =
        leading_digit fuel (n / 10) ((b'0' + n % 10) ∷ acc) (ground arith) (ground arith) in
      (d, cs, rw e q, r, t)
]

magnitude-digits :
    (d : ℕ) (cs : PString)
    → 0 < d
    → magnitude ((b'0' + d) ∷ cs) ≡ digits_value 10 0 ((b'0' + d) ∷ cs)
unfolding magnitude
magnitude-digits d [] h = refl
magnitude-digits d (x ∷ []) h = ground arith
magnitude-digits d (x ∷ y ∷ ds) h = ground arith

digits_value-end : (n : ℕ) → digits_value 10 n [] ≡ some n
unfolding digits_value
digits_value-end n = refl

magnitude-zero : magnitude (print_nat 0) ≡ some 0
unfolding print_nat magnitude digits digits_value digit_value
magnitude-zero = refl

magnitude-print_nat : (n : ℕ) → magnitude (print_nat n) ≡ some n
unfolding print_nat
magnitude-print_nat zero = magnitude-zero
magnitude-print_nat (suc n) =
    let (d, cs, e, h, k) = leading_digit (suc (suc n)) (suc n) [] (omega arith) (omega arith) in
    ap magnitude e
    ∙ magnitude-digits d cs h
    ∙ ap (digits_value 10 0) (sym e)
    ∙ digits_value-digits (suc (suc n)) (suc n) [] (omega arith)
    ∙ digits_value-end (suc n)

abbrev pow10 : ℕ → ℕ
pow10 zero = 1
pow10 (suc k) = pow10 k * 10

width_le : (k fuel n : ℕ) → n < pow10 (suc k) → width fuel n ≤ suc k
unfolding width
width_le k zero n h = omega arith
width_le zero (suc fuel) n h = ground arith
width_le (suc k) (suc fuel) n h = ground (arith, width_le k fuel (n / 10))

pub short_number : (n : ℕ) → n ≤ 2 ^ 63 → length (print_nat n) ≤ 19
short_number n h = omega (arith, length-print_nat n, width_le 18 (suc n) n (omega arith))

-- The first byte is neither space nor a sign.
print_nat-head : (n : ℕ) → (d : ℕ) × (cs : PString) × (print_nat n ≡ (b'0' + d) ∷ cs) × (d < 10)
unfolding print_nat
print_nat-head n = digits-head (suc n) n [] (omega arith) (omega arith)

skip_space-cons : (c : ℕ) (cs : PString) → b'+' ≤ c → skip_space (c ∷ cs) ≡ c ∷ cs
unfolding skip_space
skip_space-cons c cs h = ground arith

strtol_signed-digit :
    (d : ℕ) (cs : PString)
    → strtol_signed ((b'0' + d) ∷ cs) ≡ in_range false (magnitude ((b'0' + d) ∷ cs))
unfolding strtol_signed
strtol_signed-digit d cs = ground arith

short_test : (n : ℕ) → n ≤ 19 → (suc n == 0 || ltb 20 (suc n)) ≡ false
short_test n h = ground arith

strtol-short :
    (c : ℕ) (cs : PString) → length cs ≤ 19 → b'+' ≤ c → strtol (c ∷ cs) ≡ strtol_signed (c ∷ cs)
unfolding strtol
strtol-short c cs h k = rw (skip_space-cons c cs k, short_test (length cs) h) refl

in_range-pos : (n : ℕ) → n < 2 ^ 63 → in_range false (some n) ≡ some (pos n)
unfolding in_range
in_range-pos n h = ground arith

in_range-negsuc : (n : ℕ) → n < 2 ^ 63 → in_range true (some (suc n)) ≡ some (negsuc n)
unfolding in_range
in_range-negsuc n h = ground arith

strtol_signed-minus : (cs : PString) → strtol_signed (b'-' ∷ cs) ≡ in_range true (magnitude cs)
unfolding strtol_signed
strtol_signed-minus cs = refl

-- The values of a `long`.
abbrev pub IsLong : ℤ → Type 0
IsLong (pos n) = n < 2 ^ 63
IsLong (negsuc n) = n < 2 ^ 63

-- Every 64-bit number that is printed in decimal is read back by `Strtol`.
pub strtol-print_int : (z : ℤ) → IsLong z → strtol (print_int z) ≡ some z
unfolding print_int
strtol-print_int (pos n) h =
    let (d, cs, e, k) = print_nat-head n in
    ap strtol e
    ∙ strtol-short (b'0' + d) cs (omega (arith, ap length e, short_number n (omega arith)))
        (omega arith)
    ∙ strtol_signed-digit d cs
    ∙ ap (in_range false) (ap magnitude (sym e) ∙ magnitude-print_nat n)
    ∙ in_range-pos n h
strtol-print_int (negsuc n) h =
    strtol-short b'-' (print_nat (suc n)) (short_number (suc n) (omega arith)) (omega arith)
    ∙ strtol_signed-minus (print_nat (suc n))
    ∙ ap (in_range true) (magnitude-print_nat (suc n))
    ∙ in_range-negsuc n h
