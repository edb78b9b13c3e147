-- ===== src/Common/Number/Laws.antt =====
-- What the readers of decimal text do with printed numbers.
use pika_panlei.Base.{
  ℕ, zero, suc, ◌+◌, ◌-◌, ◌*◌, ◌/◌, ◌%◌, ◌^◌, ◌≤◌, ◌<◌, ℤ, pos, Bool, true, false, ◌≡◌, refl, ◌∙◌,
  ◌++◌, [], ◌∷◌, PString, crlf, length, ltb, if◌then◌else◌, arith, length-append, Bool-cases, sym,
  le→ltb, inl, inr, All, ap,
}
use pika_panlei.Common.Number.{IntScan, int_digits, int_signed, is_digit, get_int_until_crlf}
use pika_panlei.Common.Number.Print.{digits, print_nat}

-- How many digits `digits` prints.
unfoldable pub width : ℕ → ℕ → ℕ
width zero n = 0
width (suc fuel) n = if ltb n 10 then 1 else width fuel (n / 10) + 1

pub length-digits :
    (fuel n : ℕ) (acc : PString) → length (digits fuel n acc) ≡ width fuel n + length acc
unfolding digits width
length-digits zero n acc = omega arith
length-digits (suc fuel) n acc = ground (arith, length-digits fuel (n / 10) ((b'0' + n % 10) ∷ acc))

pub width-pos : (fuel n : ℕ) → 0 < fuel → 0 < width fuel n
unfolding width
width-pos zero n h = absurd (omega arith)
width-pos (suc fuel) n h = ground arith

-- One digit is read.
int_digits-cons :
    (neg : Bool) (v i d : ℕ) (cs : PString)
    → d < 10
    → v * 10 + d < 2 ^ 31
    → int_digits neg v i ((b'0' + d) ∷ cs) ≡ int_digits neg (v * 10 + d) (i + 1) cs
unfolding int_digits
int_digits-cons neg v i d cs hd hv =
    let e : (v * 10 + (b'0' + d - b'0')) % 2 ^ 32 ≡ v * 10 + d = omega arith in rw e (ground arith)

-- The loop reads the digits that were printed, up to what stands behind them.
pub int_digits-digits :
    (neg : Bool) (fuel n i : ℕ) (acc : PString)
    → n < fuel
    → n < 2 ^ 31
    → int_digits neg 0 i (digits fuel n acc) ≡ int_digits neg n (i + width fuel n) acc
unfolding digits width
int_digits-digits neg zero n i acc h b = absurd (omega arith)
int_digits-digits neg (suc fuel) n i acc h b = ground (
  arith,
  int_digits-digits neg fuel (n / 10) i ((b'0' + n % 10) ∷ acc),
  int_digits-cons neg (n / 10) (i + width fuel (n / 10)) (n % 10) acc,
  int_digits-cons neg 0 i n acc,
)

pub digits-append :
    (fuel n : ℕ) (acc rest : PString) → digits fuel n acc ++ rest ≡ digits fuel n (acc ++ rest)
unfolding digits
digits-append zero n acc rest = refl
digits-append (suc fuel) n acc rest =
    ground (arith, digits-append fuel (n / 10) ((b'0' + n % 10) ∷ acc) rest)

-- A printed number begins with a digit.
pub digits-head :
    (fuel n : ℕ) (acc : PString)
    → 0 < fuel
    → n < fuel
    → (d : ℕ) × (cs : PString) × (digits fuel n acc ≡ (b'0' + d) ∷ cs) × (d < 10)
unfolding digits
digits-head zero n acc h k = absurd (omega arith)
digits-head (suc fuel) n acc h k = elim (Bool-cases (ltb n 10)) [
  | inl e ↦ (n, acc, rw e refl, ground arith)
  | inr e ↦ rw e (digits-head fuel (n / 10) ((b'0' + n % 10) ∷ acc) (ground arith) (ground arith))
]

int_signed-not_sign :
    (c : ℕ) (cs : PString) → is_digit c ≡ true → int_signed (c ∷ cs) ≡ int_digits false 0 0 (c ∷ cs)
unfolding int_signed
int_signed-not_sign c cs h = ground arith

int_signed-digit :
    (d : ℕ) (cs : PString)
    → d < 10
    → int_signed ((b'0' + d) ∷ cs) ≡ int_digits false 0 0 ((b'0' + d) ∷ cs)
unfolding int_signed
int_signed-digit d cs h = ground arith

int_digits-crlf :
    (n i : ℕ) (rest : PString)
    → n < 2 ^ 31
    → int_digits false n i (crlf ++ rest) ≡ IntScan.ok (i + 2) (pos n)
unfolding int_digits
int_digits-crlf n i rest h = ground arith

int_signed-digits :
    (fuel n : ℕ) (rest : PString)
    → n < fuel
    → n < 2 ^ 31
    → int_signed (digits fuel n (crlf ++ rest)) ≡ IntScan.ok (width fuel n + 2) (pos n)
int_signed-digits fuel n rest h b =
    let (d, cs, e, k) = digits-head fuel n (crlf ++ rest) (omega arith) h in
    (rw e (int_signed-digit d cs k))
    ∙ ap (int_digits false 0 0) (sym e)
    ∙ int_digits-digits false fuel n 0 (crlf ++ rest) h b
    ∙ int_digits-crlf n (0 + width fuel n) rest b
    ∙ ap (λ w. IntScan.ok (w + 2) (pos n)) (omega arith)

pub length-print_nat : (n : ℕ) → length (print_nat n) ≡ width (suc n) n
unfolding print_nat
length-print_nat n = omega (arith, length-digits (suc n) n [])

print_nat-append : (n : ℕ) (rest : PString) → print_nat n ++ rest ≡ digits (suc n) n rest
unfolding print_nat
print_nat-append n rest = digits-append (suc n) n [] rest

-- A number below 2^31 printed in decimal and closed by CRLF is read back by `GetIntUntilCRLF`,
-- which then stands right behind the CRLF.
pub get_int_until_crlf-print_nat :
    (n : ℕ) (rest : PString)
    → n < 2 ^ 31
    → get_int_until_crlf (print_nat n ++ (crlf ++ rest))
      ≡ IntScan.ok (length (print_nat n) + 2) (pos n)
unfolding get_int_until_crlf
get_int_until_crlf-print_nat n rest h =
    let w = width-pos (suc n) n (omega arith) in
    let long : ltb (length (print_nat n ++ (crlf ++ rest))) 3 ≡ false =
      le→ltb _ _ (omega (arith, length-print_nat n, length-append (print_nat n) (crlf ++ rest))) in
    rw (long, length-print_nat n, print_nat-append n (crlf ++ rest))
      (int_signed-digits (suc n) n rest (omega arith) h)

-- Where the bytes end behind the digits, the loop ends too.
int_digits_end :
    (neg : Bool) (v i : ℕ) (ds : PString)
    → All (λ c. is_digit c ≡ true) ds
    → (z : ℤ) × (int_digits neg v i ds ≡ IntScan.ok (i + length ds + 2) z)
unfolding int_digits
int_digits_end neg v i [] h = (_, ap (λ k. IntScan.ok (k + 2) _) (omega arith))
int_digits_end neg v i (c ∷ cs) h =
    let (z, e) = int_digits_end neg ((v * 10 + (c - b'0')) % 2 ^ 32) (i + 1) cs h.1 in
    (z, rw h.0 (e ∙ ap (λ k. IntScan.ok (k + 2) z) (omega arith)))

-- Three or more digits at the end of the bytes, with no CRLF behind them, are accepted by
-- `GetIntUntilCRLF`, and the pointer moves two bytes beyond the end.
pub get_int_until_crlf-overrun :
    (ds : PString)
    → All (λ c. is_digit c ≡ true) ds
    → 3 ≤ length ds
    → (value : ℤ) × (get_int_until_crlf ds ≡ IntScan.ok (length ds + 2) value)
unfolding get_int_until_crlf
get_int_until_crlf-overrun [] h l = absurd (omega arith)
get_int_until_crlf-overrun (c ∷ cs) h l =
    let (z, e) = int_digits_end false 0 0 (c ∷ cs) h in
    (
      z,
      rw (le→ltb (length (c ∷ cs)) 3 l)
          (int_signed-not_sign c cs h.0 ∙ e ∙ ap (λ k. IntScan.ok (k + 2) z) (omega arith)),
    )
