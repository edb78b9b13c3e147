-- ===== src/Common/Number.antt =====
-- Decimal text: what `snprintf` prints for `%ld` and `%lu`, and the readers of src/common.cc.
pub mod Print
pub mod Laws
pub mod Strtol
pub mod Decimal
use pika_panlei.Base.{
  ℕ, zero, suc, ◌+◌, ◌-◌, ◌*◌, ◌/◌, ◌%◌, ◌^◌, ℤ, pos, negsuc, neg_ℕ, Bool, true, false, ◌&&◌, ◌||◌,
  not, Option, none, some, List, [], ◌∷◌, ◌++◌, PString, crlf, length, ltb, leb, ◌==◌,
  if◌then◌else◌,
}

-- `isdigit`
unfoldable pub is_digit : ℕ → Bool
is_digit c = leb b'0' c && leb c b'9'

-- `GetIntUntilCRLF` moved the pointer by `consumed` and stored a value, or it touched neither.
pub data IntScan : Type 0 where
  ok : (consumed : ℕ) (value : ℤ) → IntScan
  wait error : IntScan

-- An `int` by its 32 bits.
abbrev pub to_int32 : ℕ → ℤ
to_int32 v = if ltb v (2 ^ 31) then pos v else negsuc (2 ^ 32 - 1 - v)

unfoldable pub int_found : Bool → ℕ → ℕ → IntScan
int_found negtive value i =
    IntScan.ok (i + 2) (to_int32 (if negtive then (2 ^ 32 - value) % 2 ^ 32 else value))

-- The byte after the digits, with what follows it.
unfoldable pub int_stop : Bool → ℕ → ℕ → ℕ → PString → IntScan
int_stop negtive value i c [] = if c == 13 then IntScan.wait else IntScan.error
int_stop negtive value i c (d ∷ _) =
    if c == 13 && d == 10 then int_found negtive value i else IntScan.error

-- The loop. It also ends where the bytes do. `int` arithmetic is written as it wraps.
unfoldable pub int_digits : Bool → ℕ → ℕ → PString → IntScan
unfolding int_found int_stop is_digit
int_digits negtive value i [] = int_found negtive value i
int_digits negtive value i (c ∷ cs) =
    let rest = int_digits negtive ((value * 10 + (c - b'0')) % 2 ^ 32) (i + 1) cs in
    if is_digit c then rest else int_stop negtive value i c cs

-- The sign.
unfoldable pub int_signed : PString → IntScan
unfolding int_digits
int_signed [] = IntScan.wait
int_signed (c ∷ cs) =
    if c == b'-'
    then int_digits true 0 1 cs
    else if c == b'+'
    then int_digits false 0 1 cs
    else int_digits false 0 0 (c ∷ cs)

unfoldable pub get_int_until_crlf : PString → IntScan
unfolding int_signed
get_int_until_crlf s = if ltb (length s) 3 then IntScan.wait else int_signed s

-- `TryStr2Long` may also run into signed overflow, which has no defined result.
pub data LongScan : Type 0 where
  ok : ℤ → LongScan
  failed overflow : LongScan

abbrev pub long_max : ℕ
long_max = 2 ^ 63 - 1

-- The value after the last digit, `val *= -1` included.
unfoldable pub long_found : Bool → ℕ → LongScan
long_found negtive val = LongScan.ok (if negtive then neg_ℕ val else pos val)

unfoldable pub long_digits : Bool → ℕ → PString → LongScan
unfolding is_digit long_found
long_digits negtive val [] = long_found negtive val
long_digits negtive val (c ∷ cs) =
    let d = c - b'0' in
    let rest = long_digits negtive (val * 10 + d) cs in
    if not (is_digit c)
    then long_found negtive val
    else if ltb (long_max / 10) val
    then LongScan.failed
    else if not negtive && ltb (long_max - d) (val * 10)
    then LongScan.failed
    else if negtive && ltb (long_max - d + 1) (val * 10)
    then LongScan.failed
    else if ltb long_max (val * 10 + d)
    then LongScan.overflow
    else rest

starts_with_digit : PString → Bool
unfolding is_digit
starts_with_digit [] = false
starts_with_digit (c ∷ _) = is_digit c

unfoldable pub try_str2long : PString → LongScan
unfolding long_digits starts_with_digit
try_str2long [] = LongScan.ok (pos 0)
try_str2long (c ∷ cs) =
    if c == b'-' || c == b'+'
    then (if starts_with_digit cs then long_digits (c == b'-') 0 cs else LongScan.failed)
    else long_digits false 0 (c ∷ cs)
