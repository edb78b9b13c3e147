-- ===== src/Dump/Number.antt =====
-- `Number2Str` of src/common.h, which writes the digits backwards, against `print_int`.
use mathlib.Core.List.{reverse, reverse-cons, reverse-append}
use pika_panlei.Base.{
  ℕ, zero, suc, ◌+◌, ◌-◌, ◌/◌, ◌%◌, ◌^◌, ◌≤◌, ◌<◌, ℤ, pos, negsuc, ◌≡◌, ◌≢◌, refl, sym, ap, ◌∙◌,
  Bool, true, false, ◌&&◌, Option, none, some, inl, inr, Bool-cases, [], ◌∷◌, ◌++◌, append_assoc,
  append-nil, PString, length, ltb, leb, ◌==◌, if◌then◌else◌, length-reverse, arith,
}
use pika_panlei.Common.Number.Print.{digits, print_nat, print_int}

-- The loop: the lowest digit first. A fuel of `val` is enough, since `val / 10 < val`.
unfoldable pub digits_up : ℕ → ℕ → PString
digits_up zero val = []
digits_up (suc fuel) val =
    let more = digits_up fuel (val / 10) in if val == 0 then [] else (val % 10 + b'0') ∷ more

-- The zero byte is written behind the text; `none` where that is behind the buffer of `n` bytes.
unfoldable pub closed : ℕ → PString → Option PString
closed n str = if ltb (length str) n then some str else none

-- With the buffer of `n` bytes. The text is empty if it does not fit.
unfoldable pub backwards : ℕ → Bool → PString → Option PString
unfolding closed
backwards n negative ds =
    if ltb n (length ds)
    then some []
    else if negative && leb n (length ds)
    then some []
    else closed n (reverse (if negative then ds ++ (b'-' ∷ []) else ds))

-- The smallest `long` is its own negation, so that the loop ends at once.
unfoldable pub written : ℕ → ℤ → Option PString
unfolding digits_up backwards
written n (pos zero) = some (b'0' ∷ [])
written n (pos (suc v)) = backwards n false (digits_up (suc v) (suc v))
written n (negsuc v) = backwards n true (if suc v == 2 ^ 63 then [] else digits_up (suc v) (suc v))

-- A buffer of less than two bytes is left alone.
unfoldable pub number2str : ℕ → ℤ → Option PString
unfolding written
number2str n z = if ltb n 2 then some [] else written n z

digits_up-zero : (fuel : ℕ) → digits_up fuel 0 ≡ []
unfolding digits_up
digits_up-zero zero = refl
digits_up-zero (suc fuel) = refl

-- `x + 48` at the end of the reversed digits.
reverse-cons_append :
    (x y : ℕ) (ds acc : PString) → x ≡ y → reverse (x ∷ ds) ++ acc ≡ reverse ds ++ (y ∷ acc)
reverse-cons_append x y ds acc e =
    ap (λ l. l ++ acc) (reverse-cons x ds)
    ∙ append_assoc (reverse ds) (x ∷ []) acc
    ∙ ap (λ c. reverse ds ++ (c ∷ acc)) e

digits-digits_up :
    (fuel more n : ℕ) (acc : PString)
    → 0 < n
    → n < fuel
    → n ≤ more
    → digits fuel n acc ≡ reverse (digits_up more n) ++ acc
unfolding digits digits_up
digits-digits_up zero more n acc h k m = absurd (omega arith)
digits-digits_up (suc fuel) zero n acc h k m = absurd (omega arith)
digits-digits_up (suc fuel) (suc more) n acc h k m = elim (Bool-cases (ltb n 10)) [
  | inl e ↦
      let z : n / 10 ≡ 0 = ground arith in
      let o : (n == 0) ≡ false = ground arith in
      let l : n % 10 + 48 ≡ 48 + n = ground arith in
      rw (e, o, z, digits_up-zero more) (sym (reverse-cons_append (n % 10 + 48) (48 + n) [] acc l))
  | inr e ↦
      let o : (n == 0) ≡ false = ground arith in
      let l : n % 10 + 48 ≡ 48 + n % 10 = omega arith in
      rw (e, o)
        (digits-digits_up fuel more (n / 10) ((48 + n % 10) ∷ acc) (ground arith) (ground arith)
            (ground arith)
          ∙ sym (reverse-cons_append (n % 10 + 48) (48 + n % 10) (digits_up more (n / 10)) acc l))
]

print_nat-digits_up : (n : ℕ) → print_nat (suc n) ≡ reverse (digits_up (suc n) (suc n))
unfolding print_nat
print_nat-digits_up n =
    digits-digits_up (suc (suc n)) (suc n) (suc n) [] (omega arith) (omega arith) (omega arith)
    ∙ append-nil _

print_nat-zero : print_nat 0 ≡ b'0' ∷ []
unfolding print_nat digits
print_nat-zero = refl

not_smallest : (v : ℕ) → negsuc v ≢ negsuc (2 ^ 63 - 1) → (suc v == 2 ^ 63) ≡ false
not_smallest v ne = elim (Bool-cases (suc v == 2 ^ 63)) [
  | inr e ↦ e
  | inl e ↦ let q : v ≡ 2 ^ 63 - 1 = ground arith in absurd (ne (ap negsuc q))
]

-- A number other than the smallest `long` whose decimal text is shorter than the buffer, which has
-- two bytes at least, is written like `%ld` prints it, and no byte behind the buffer.
pub number2str-print_int :
    (n : ℕ) (z : ℤ)
    → 2 ≤ n
    → length (print_int z) < n
    → z ≢ negsuc (2 ^ 63 - 1)
    → number2str n z ≡ some (print_int z)
unfolding number2str written backwards closed print_int
number2str-print_int n (pos zero) two h ne =
    let w : ltb n 2 ≡ false = ground arith in rw w (ap some (sym print_nat-zero))
number2str-print_int n (pos (suc v)) two h ne =
    let w : ltb n 2 ≡ false = ground arith in
    let ds = digits_up (suc v) (suc v) in
    let e = print_nat-digits_up v in
    let k : length ds < n = omega (arith, ap length e, length-reverse ds) in
    let o : ltb n (length ds) ≡ false = ground arith in
    let c : ltb (length (reverse ds)) n ≡ true = ground (arith, length-reverse ds) in
    rw (w, o, c) (ap some (sym e))
number2str-print_int n (negsuc v) two h ne =
    let w : ltb n 2 ≡ false = ground arith in
    let ds = digits_up (suc v) (suc v) in
    let e = print_nat-digits_up v in
    let k : suc (length ds) < n = omega (arith, ap length e, length-reverse ds) in
    let o : ltb n (length ds) ≡ false = ground arith in
    let u : leb n (length ds) ≡ false = ground arith in
    let t : (suc v == 2 ^ 63) ≡ false = not_smallest v ne in
    let r : reverse (ds ++ (b'-' ∷ [])) ≡ print_int (negsuc v) =
      reverse-append ds (b'-' ∷ []) ∙ ap (◌∷◌ b'-') (sym e) in
    let c : ltb (length (print_int (negsuc v))) n ≡ true = ground arith in
    rw (w, t, o, u, r, c) refl
