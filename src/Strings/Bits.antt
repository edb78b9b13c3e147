-- ===== src/Strings/Bits.antt =====
-- The bits of a text: `BitCount` of src/helper.cc, and the loops of src/pstring.cc.
use pika_panlei.Base.{
  ℕ, zero, suc, ◌+◌, ◌-◌, ◌*◌, ◌/◌, ◌%◌, ◌^◌, Bool, true, false, [], ◌∷◌, ◌++◌, PString, length,
  get_or, set, replicate, map,
}
use Prim.Native.Nat.{bit_and, bit_or, bit_xor}

-- The table `bitsinbyte`.
abbrev pub bits_table : PString
bits_table =
    0 ∷ 1 ∷ 1 ∷ 2 ∷ 1 ∷ 2 ∷ 2 ∷ 3 ∷ 1 ∷ 2 ∷ 2 ∷ 3 ∷ 2 ∷ 3 ∷ 3 ∷ 4 ∷ 1 ∷ 2 ∷ 2 ∷ 3 ∷ 2 ∷ 3 ∷ 3 ∷ 4
    ∷ 2 ∷ 3 ∷ 3 ∷ 4 ∷ 3 ∷ 4 ∷ 4 ∷ 5 ∷ 1 ∷ 2 ∷ 2 ∷ 3 ∷ 2 ∷ 3 ∷ 3 ∷ 4 ∷ 2 ∷ 3 ∷ 3 ∷ 4 ∷ 3 ∷ 4 ∷ 4 ∷ 5
    ∷ 2 ∷ 3 ∷ 3 ∷ 4 ∷ 3 ∷ 4 ∷ 4 ∷ 5 ∷ 3 ∷ 4 ∷ 4 ∷ 5 ∷ 4 ∷ 5 ∷ 5 ∷ 6 ∷ 1 ∷ 2 ∷ 2 ∷ 3 ∷ 2 ∷ 3 ∷ 3 ∷ 4
    ∷ 2 ∷ 3 ∷ 3 ∷ 4 ∷ 3 ∷ 4 ∷ 4 ∷ 5 ∷ 2 ∷ 3 ∷ 3 ∷ 4 ∷ 3 ∷ 4 ∷ 4 ∷ 5 ∷ 3 ∷ 4 ∷ 4 ∷ 5 ∷ 4 ∷ 5 ∷ 5 ∷ 6
    ∷ 2 ∷ 3 ∷ 3 ∷ 4 ∷ 3 ∷ 4 ∷ 4 ∷ 5 ∷ 3 ∷ 4 ∷ 4 ∷ 5 ∷ 4 ∷ 5 ∷ 5 ∷ 6 ∷ 3 ∷ 4 ∷ 4 ∷ 5 ∷ 4 ∷ 5 ∷ 5 ∷ 6
    ∷ 4 ∷ 5 ∷ 5 ∷ 6 ∷ 5 ∷ 6 ∷ 6 ∷ 7 ∷ 1 ∷ 2 ∷ 2 ∷ 3 ∷ 2 ∷ 3 ∷ 3 ∷ 4 ∷ 2 ∷ 3 ∷ 3 ∷ 4 ∷ 3 ∷ 4 ∷ 4 ∷ 5
    ∷ 2 ∷ 3 ∷ 3 ∷ 4 ∷ 3 ∷ 4 ∷ 4 ∷ 5 ∷ 3 ∷ 4 ∷ 4 ∷ 5 ∷ 4 ∷ 5 ∷ 5 ∷ 6 ∷ 2 ∷ 3 ∷ 3 ∷ 4 ∷ 3 ∷ 4 ∷ 4 ∷ 5
    ∷ 3 ∷ 4 ∷ 4 ∷ 5 ∷ 4 ∷ 5 ∷ 5 ∷ 6 ∷ 3 ∷ 4 ∷ 4 ∷ 5 ∷ 4 ∷ 5 ∷ 5 ∷ 6 ∷ 4 ∷ 5 ∷ 5 ∷ 6 ∷ 5 ∷ 6 ∷ 6 ∷ 7
    ∷ 2 ∷ 3 ∷ 3 ∷ 4 ∷ 3 ∷ 4 ∷ 4 ∷ 5 ∷ 3 ∷ 4 ∷ 4 ∷ 5 ∷ 4 ∷ 5 ∷ 5 ∷ 6 ∷ 3 ∷ 4 ∷ 4 ∷ 5 ∷ 4 ∷ 5 ∷ 5 ∷ 6
    ∷ 4 ∷ 5 ∷ 5 ∷ 6 ∷ 5 ∷ 6 ∷ 6 ∷ 7 ∷ 3 ∷ 4 ∷ 4 ∷ 5 ∷ 4 ∷ 5 ∷ 5 ∷ 6 ∷ 4 ∷ 5 ∷ 5 ∷ 6 ∷ 5 ∷ 6 ∷ 6 ∷ 7
    ∷ 4 ∷ 5 ∷ 5 ∷ 6 ∷ 5 ∷ 6 ∷ 6 ∷ 7 ∷ 5 ∷ 6 ∷ 6 ∷ 7 ∷ 6 ∷ 7 ∷ 7 ∷ 8 ∷ []

unfoldable pub bits_in_byte : ℕ → ℕ
bits_in_byte c = get_or bits_table c 0

-- The first loop, from the round `i` on, and the second, from the index `i` on.
unfoldable pub count_rounds : ℕ → ℕ → PString → ℕ
unfolding bits_in_byte
count_rounds zero i buf = 0
count_rounds (suc k) i buf =
    bits_in_byte (get_or buf (4 * i) 0)
    + bits_in_byte (get_or buf (4 * i + 1) 0)
    + bits_in_byte (get_or buf (4 * i + 2) 0)
    + bits_in_byte (get_or buf (4 * i + 3) 0)
    + count_rounds k (i + 1) buf

unfoldable pub count_bytes : ℕ → ℕ → PString → ℕ
unfolding bits_in_byte
count_bytes zero i buf = 0
count_bytes (suc k) i buf = bits_in_byte (get_or buf i 0) + count_bytes k (i + 1) buf

-- Four bytes a round, and then the remaining ones.
unfoldable pub bit_count : PString → ℕ
unfolding count_rounds count_bytes
bit_count buf =
    let loop = length buf / 4 in
    let remain = length buf % 4 in count_rounds loop 0 buf + count_bytes remain (4 * loop) buf

-- `byte & (0x1 << bits)`
unfoldable pub bit_at : ℕ → ℕ → ℕ
bit_at byte bits = byte / 2 ^ bits % 2

-- `byte |= (0x1 << bits)` and `byte &= ~(0x1 << bits)`
unfoldable pub with_bit : ℕ → ℕ → Bool → ℕ
unfolding bit_at
with_bit byte bits true = byte + (1 - bit_at byte bits) * 2 ^ bits
with_bit byte bits false = byte - bit_at byte bits * 2 ^ bits

-- The bit of `getbit`, whose offset is in the text.
unfoldable pub text_bit : ℕ → PString → ℕ
unfolding bit_at
text_bit offset s = bit_at (get_or s (offset / 8) 0) (offset % 8)

-- The text of `setbit`.
unfoldable pub set_text_bit : ℕ → Bool → PString → PString
unfolding with_bit
set_text_bit offset on s =
    let bytes = offset / 8 in
    let s' = s ++ replicate (bytes + 1 - length s) 0 in
    set s' bytes (with_bit (get_or s' bytes 0) (offset % 8) on)

pub data BitOp : Type 0 where
  and or not xor : BitOp

unfoldable pub bit_op_byte : BitOp → ℕ → ℕ → ℕ
bit_op_byte BitOp.and a b = bit_and a b
bit_op_byte BitOp.or a b = bit_or a b
bit_op_byte BitOp.xor a b = bit_xor a b
bit_op_byte BitOp.not a b = 255 - b

-- The inner loop of `StringBitOp`: the bytes of `res` behind `str` stay.
unfoldable pub bit_op_loop : BitOp → PString → PString → PString
unfolding bit_op_byte
bit_op_loop op [] [] = []
bit_op_loop op [] (b ∷ str) = bit_op_byte op 0 b ∷ bit_op_loop op [] str
bit_op_loop op (a ∷ res) [] = a ∷ res
bit_op_loop op (a ∷ res) (b ∷ str) = bit_op_byte op a b ∷ bit_op_loop op res str

-- A round of `StringBitOp` with one more text.
unfoldable pub bit_op_round : BitOp → PString → PString → PString
unfolding bit_op_loop
bit_op_round op [] str = str
bit_op_round op (a ∷ res) str = bit_op_loop op (a ∷ res) str

unfoldable pub bit_op_not : PString → PString
unfolding bit_op_byte
bit_op_not str = map (bit_op_byte BitOp.not 0) str
