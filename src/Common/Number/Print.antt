-- ===== src/Common/Number/Print.antt =====
-- `snprintf` with `%lu` and `%ld`: the digits of a number, the most significant first.
use pika_panlei.Base.{
  ℕ, zero, suc, ◌+◌, ◌/◌, ◌%◌, ℤ, pos, negsuc, [], ◌∷◌, PString, ltb, if◌then◌else◌,
}

-- The digits of `n` in front of `acc`. A fuel of `n + 1` is enough, since `n / 10 < n` for `0 < n`.
unfoldable pub digits : ℕ → ℕ → PString → PString
digits zero n acc = acc
digits (suc fuel) n acc =
    let more = digits fuel (n / 10) ((b'0' + n % 10) ∷ acc) in
    if ltb n 10 then (b'0' + n) ∷ acc else more

unfoldable pub print_nat : ℕ → PString
unfolding digits
print_nat n = digits (suc n) n []

unfoldable pub print_int : ℤ → PString
unfolding print_nat
print_int (pos n) = print_nat n
print_int (negsuc n) = b'-' ∷ print_nat (suc n)
