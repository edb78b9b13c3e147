-- ===== src/Dump/Words.antt =====
-- Words and lengths are read as they were written.
use pika_panlei.Base.{
  ℕ, zero, suc, ◌+◌, ◌*◌, ◌/◌, ◌%◌, ◌^◌, ◌<◌, ◌≡◌, refl, sym, ap, ◌∙◌, true, false, some, [], ◌∷◌,
  PString, ltb, ◌==◌, if◌then◌else◌, arith,
}
use pika_panlei.Dump.Input.{Reads, Reads-last, read_byte, read_word, word, pure}
use Prim.Native.Nat.{bit_and, bit_and-bitwise, digits}
use pika_panlei.Dump.Save.{high_mask, save_length}
use pika_panlei.Dump.Load.{ntohl, length_of, load_length}

abbrev pub bound : ℕ → ℕ
bound zero = 1
bound (suc n) = 256 * bound n

pub read_word-word : (n v : ℕ) → v < bound n → Reads (read_word n) (word n v) v
unfolding read_word word read_byte
read_word-word zero v h rest = let e : v ≡ 0 = omega arith in rw e refl
read_word-word (suc n) v h rest =
    let e : v % 256 + 256 * (v / 256) ≡ v = omega arith in
    Reads-last (read_word n) (λ high. pure (v % 256 + 256 * high)) (word n (v / 256)) (v / 256) v
      (read_word-word n (v / 256) (omega arith)) (λ rest'. ap (λ x. some (x, rest')) e) rest

ntohl-bytes :
    (len : ℕ)
    → len < 2 ^ 32
    → ntohl (
        len / 2 ^ 24 % 256
        + 256 * (len / 2 ^ 16 % 256 + 256 * (len / 256 % 256 + 256 * (len % 256 + 0))))
      ≡ len
unfolding ntohl
ntohl-bytes len h = omega arith

-- No bit is left by a mask of none.
digits-none : (n a : ℕ) → digits (λ b. zero) Prim.Native.Nat.min n a 0 ≡ 0
digits-none zero a = refl
digits-none (suc n) zero = refl
digits-none (suc n) (suc a) = omega (arith, digits-none n (suc a / 2))

-- The assertion of `SaveLength` holds for every length.
pub no_high_bits : (len : ℕ) → (bit_and len high_mask == 0) ≡ true
no_high_bits len = ap (λ n. n == 0) (bit_and-bitwise len high_mask ∙ digits-none len len)

-- The bytes of a length.
unfoldable pub length_bytes : ℕ → PString
length_bytes len =
    if ltb len (2 ^ 6)
    then len ∷ []
    else if ltb len (2 ^ 14)
    then (64 + len / 256) ∷ (len % 256) ∷ []
    else 128 ∷ (len / 2 ^ 24 % 256) ∷ (len / 2 ^ 16 % 256) ∷ (len / 256 % 256) ∷ (len % 256) ∷ []

pub save_length-bytes : (len : ℕ) → save_length len ≡ some (length_bytes len)
unfolding save_length length_bytes
save_length-bytes len = rw (no_high_bits len) (ground arith)

-- A length below 2^32 that `SaveLength` writes is read back by `LoadLength`, as a length that is
-- not special, and the bytes behind it are left.
pub load_length-save_length :
    (len : ℕ) (bs : PString)
    → len < 2 ^ 32
    → save_length len ≡ some bs
    → Reads load_length bs (false, len)
unfolding load_length length_of read_byte read_word length_bytes
load_length-save_length len bs h e rest =
    let e' = sym (save_length-bytes len) ∙ e in ground (arith, e', ntohl-bytes len)
