-- ===== src/Common/Number/Strtol.antt =====
-- `Strtol` of src/common.cc over `strtol` with base 0, and `atoi`.
use pika_panlei.Base.{
  ℕ, ◌+◌, ◌-◌, ◌*◌, ◌%◌, ◌^◌, ℤ, pos, negsuc, neg_ℕ, Bool, true, false, ◌&&◌, ◌||◌, Option, none,
  some, [], ◌∷◌, PString, length, ltb, leb, ◌==◌, if◌then◌else◌,
}
use pika_panlei.Common.Number.{is_digit, to_int32}

-- `isspace`
is_space : ℕ → Bool
is_space c = c == 32 || (leb 9 c && leb c 13)

unfoldable pub skip_space : PString → PString
unfolding is_space
skip_space [] = []
skip_space (c ∷ cs) = let rest = skip_space cs in if is_space c then rest else c ∷ cs

-- The value of a digit or letter; 36 for any other byte.
unfoldable pub digit_value : ℕ → ℕ
digit_value c =
    if leb b'0' c && leb c b'9'
    then c - b'0'
    else if leb b'a' c && leb c b'z'
    then c - b'a' + 10
    else if leb b'A' c && leb c b'Z'
    then c - b'A' + 10
    else 36

-- All the bytes are digits to the base.
unfoldable pub digits_value : ℕ → ℕ → PString → Option ℕ
unfolding digit_value
digits_value base val [] = some val
digits_value base val (c ∷ cs) =
    let rest = digits_value base (val * base + digit_value c) cs in
    if ltb (digit_value c) base then rest else none

unfoldable pub magnitude : PString → Option ℕ
unfolding digits_value
magnitude [] = none
magnitude (c ∷ []) = digits_value 10 0 (c ∷ [])
magnitude (c ∷ x ∷ []) =
    if c == b'0' then digits_value 8 0 (x ∷ []) else digits_value 10 0 (c ∷ x ∷ [])
magnitude (c ∷ x ∷ y ∷ ds) =
    if c == b'0' && (x == b'x' || x == b'X')
    then digits_value 16 0 (y ∷ ds)
    else if c == b'0'
    then digits_value 8 0 (x ∷ y ∷ ds)
    else digits_value 10 0 (c ∷ x ∷ y ∷ ds)

-- `ERANGE` outside the range of `long`.
unfoldable pub in_range : Bool → Option ℕ → Option ℤ
in_range negative none = none
in_range true (some n) = if leb n (2 ^ 63) then some (neg_ℕ n) else none
in_range false (some n) = if ltb n (2 ^ 63) then some (pos n) else none

unfoldable pub strtol_signed : PString → Option ℤ
unfolding magnitude in_range
strtol_signed [] = none
strtol_signed (c ∷ cs) =
    if c == b'-'
    then in_range true (magnitude cs)
    else if c == b'+'
    then in_range false (magnitude cs)
    else in_range false (magnitude (c ∷ cs))

-- The number, if `Strtol` returns true.
unfoldable pub strtol : PString → Option ℤ
unfolding skip_space strtol_signed
strtol s = if length s == 0 || ltb 20 (length s) then none else strtol_signed (skip_space s)

unfoldable pub after_sign : PString → PString
after_sign [] = []
after_sign (c ∷ cs) = if c == b'-' || c == b'+' then cs else c ∷ cs

-- The base of a number with base 0.
unfoldable pub number_base : PString → ℕ
number_base [] = 10
number_base (c ∷ []) = if c == b'0' then 8 else 10
number_base (c ∷ x ∷ ds) =
    if c == b'0' && (x == b'x' || x == b'X') then 16 else if c == b'0' then 8 else 10

-- Behind a 0, an `x` and a digit to base 16.
unfoldable pub hex_follows : PString → PString → Bool
unfolding digit_value
hex_follows (z ∷ []) (x ∷ d ∷ _) = z == b'0' && (x == b'x' || x == b'X') && ltb (digit_value d) 16
hex_follows number behind = false

-- The number of a text goes on in the bytes behind it.
unfoldable pub goes_on : PString → PString → Bool
unfolding skip_space after_sign number_base digit_value hex_follows
goes_on text [] = false
goes_on text (c ∷ behind) =
    let number = after_sign (skip_space text) in
    ltb (digit_value c) (number_base number) || hex_follows number (c ∷ behind)

-- `Strtol` of a text in front of other bytes: `strtol` does not stop where the text ends, and the
-- number has to end there.
unfoldable pub strtol_before : PString → PString → Option ℤ
unfolding goes_on strtol
strtol_before text behind = if goes_on text behind then none else strtol text

-- The decimal digits at the start.
unfoldable pub leading : ℕ → PString → ℕ
unfolding is_digit
leading val [] = val
leading val (c ∷ cs) =
    let rest = leading (val * 10 + (c - b'0')) cs in if is_digit c then rest else val

-- The `long` that `strtol` returns, cut to 32 bits.
unfoldable pub atoi_signed : PString → ℤ
unfolding leading
atoi_signed [] = pos 0
atoi_signed (c ∷ cs) =
    let up = Prim.Native.Nat.min (leading 0 cs) (2 ^ 63 - 1) in
    let down = Prim.Native.Nat.min (leading 0 cs) (2 ^ 63) in
    if c == b'-'
    then to_int32 ((2 ^ 64 - down) % 2 ^ 32)
    else if c == b'+'
    then to_int32 (up % 2 ^ 32)
    else to_int32 (Prim.Native.Nat.min (leading 0 (c ∷ cs)) (2 ^ 63 - 1) % 2 ^ 32)

unfoldable pub atoi : PString → ℤ
unfolding skip_space atoi_signed
atoi s = atoi_signed (skip_space s)

-- The 64 bits of a number.
abbrev pub long_bits : ℤ → ℕ
long_bits (pos n) = n % 2 ^ 64
long_bits (negsuc n) = 2 ^ 64 - 1 - n % 2 ^ 64

-- A `long` sum as it wraps.
unfoldable pub wrap_long : ℤ → ℤ
wrap_long z =
    let bits = long_bits z in if ltb bits (2 ^ 63) then pos bits else negsuc (2 ^ 64 - 1 - bits)
