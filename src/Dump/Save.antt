-- ===== src/Dump/Save.antt =====
-- `PDBSaver`: the bytes that each operation writes, `none` where an assertion fails or a buffer is
-- overrun.
use pika_panlei.Base.{
  ℕ, ◌+◌, ◌-◌, ◌/◌, ◌%◌, ◌^◌, ℤ, pos, not, Option, none, some, List, [], ◌∷◌, ◌++◌, PString, length,
  take, ltb, leb, ◌==◌, if◌then◌else◌,
}
use Prim.Native.Nat.{bit_and}
use pika_panlei.Base.Dict.{Dict}
use pika_panlei.Common.Number.Strtol.{strtol, long_bits}
use pika_panlei.Store.{Value, is_empty}
use pika_panlei.Strings.{decoded}
use pika_panlei.SortedSet.{SortedSet}
use pika_panlei.Dump.{Codecs}
use pika_panlei.Dump.Input.{word}
use pika_panlei.Dump.Number.{number2str}

-- Writes one after the other; an assertion that fails ends them all.
infixr 60 ◌then◌
abbrev pub ◌then◌ : Option PString → Option PString → Option PString
some a then some b = some (a ++ b)
_ then _ = none

-- `~0xFFFFFFFF`, which has 32 bits, so that the assertion holds for every length.
abbrev pub high_mask : ℕ
high_mask = 2 ^ 32 - 1 - 4294967295

-- Big endian; `htonl` takes the low 32 bits.
unfoldable pub save_length : ℕ → Option PString
save_length len =
    if not (bit_and len high_mask == 0)
    then none
    else if ltb len (2 ^ 6)
    then some (len ∷ [])
    else if ltb len (2 ^ 14)
    then some ((64 + len / 256) ∷ (len % 256) ∷ [])
    else some
        (128 ∷ (len / 2 ^ 24 % 256) ∷ (len / 2 ^ 16 % 256) ∷ (len / 256 % 256) ∷ (len % 256) ∷ [])

-- The length and the bytes.
unfoldable pub save_plain : PString → Option PString
unfolding save_length
save_plain str = save_length (length str) then some str

-- `SaveString` of a number.
unfoldable pub save_int : ℤ → Option PString
unfolding number2str
save_int z =
    let bits = long_bits z in
    if leb bits 127
    then some (192 ∷ word 1 bits)
    else if leb bits 32767
    then some (193 ∷ word 2 bits)
    else if leb bits 2147483647
    then some (194 ∷ word 4 bits)
    else elim (number2str 64 z) [ none ↦ none | some buf ↦ save_plain buf ]

module _ {S : Type 0} (c : Codecs S) where
  -- `none` within if it returns false. The two sizes are cut to an `unsigned`.
  unfoldable pub save_lzf_string : PString → Option (Option PString)
  unfolding save_length
  save_lzf_string str =
      let packed = c.compress (take (length str % 2 ^ 32) str) ((length str - 4) % 2 ^ 32) in
      if ltb (length str) 20
      then none
      else if is_empty packed
      then none
      else some (
          some (195 ∷ [])
          then save_length (length packed)
          then save_length (length str)
          then some packed)

  unfoldable pub save_text : PString → Option PString
  unfolding save_lzf_string save_plain
  save_text str = elim (save_lzf_string str) [ none ↦ save_plain str | some written ↦ written ]

  -- `SaveString` of a string, and `SaveKey`.
  unfoldable pub save_string : PString → Option PString
  unfolding save_text save_int
  save_string str = elim (if ltb (length str) 10 then strtol str else none) [
    | some val ↦ save_int val
    | none ↦ save_text str
  ]

  unfoldable pub save_double_value : S → PString
  save_double_value val =
      let len = length (c.print val) % 256 in
      if c.is_nan val
      then 253 ∷ []
      else if not (c.is_finite val)
      then (if c.doubles.below val (c.doubles.of_long (pos 0)) then 255 ∷ [] else 254 ∷ [])
      else len ∷ take len (c.print val)

  unfoldable pub save_strings : List PString → Option PString
  unfolding save_string
  save_strings [] = some []
  save_strings (x ∷ xs) = save_string x then save_strings xs

  unfoldable pub save_fields : Dict PString → Option PString
  unfolding save_string
  save_fields [] = some []
  save_fields ((k, v) ∷ h) = save_string k then save_string v then save_fields h

  unfoldable pub save_scores : Dict S → Option PString
  unfolding save_string save_double_value
  save_scores [] = some []
  save_scores ((m, score) ∷ z) =
      save_string m then some (save_double_value score) then save_scores z

  -- `saveList`, `saveset`, `saveHash` and `saveZSet` are the last four cases.
  unfoldable pub save_object : Value (SortedSet S) → Option PString
  unfolding save_string save_strings save_fields save_scores save_length
  save_object (Value.list l) = save_length (length l) then save_strings l
  save_object (Value.set s) = save_length (length s) then save_strings s
  save_object (Value.hash h) = save_length (length h) then save_fields h
  save_object (Value.zset z) = save_length (length z.members) then save_scores z.members
  save_object v = save_string (decoded v)

-- `SaveType`
unfoldable pub type_byte : {Z : Type 0} → Value Z → ℕ
type_byte (Value.raw v) = 0
type_byte (Value.int v) = 0
type_byte (Value.list v) = 1
type_byte (Value.set v) = 2
type_byte (Value.zset v) = 3
type_byte (Value.hash v) = 4
