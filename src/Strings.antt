-- ===== src/Strings.antt =====
-- The string commands of src/pstring.cc, but for the float one. `none` stands for a run that goes
-- wrong. A byte is a number below 256.
pub mod Bits
pub mod Commands
pub mod Numbers
pub mod BitCommands
pub mod Laws
pub mod Ranges
use pika_panlei.Base.{
  ℕ, zero, suc, ◌+◌, ◌-◌, ◌*◌, ◌/◌, ◌%◌, ◌^◌, ℤ, pos, negsuc, Bool, true, false, Option, none, some,
  List, [], ◌∷◌, ◌++◌, PString, length, take, drop, replicate, ltb, if◌then◌else◌,
}
use pika_panlei.Common.{PType, PError}
use pika_panlei.Common.Number.Print.{print_int}
use pika_panlei.Common.Number.Strtol.{strtol}
use pika_panlei.Store.{
  Value, Env, Store, Fetched, found, failed, clear_expire, set_value, get_value_by_type,
}

module _ {Z : Type 0} where
  -- `CreateString`
  unfoldable pub create_string : PString → Value Z
  create_string value = elim (strtol value) [ some val ↦ Value.int val | none ↦ Value.raw value ]

  -- `GetDecodedString`, on an object whose type has been tested.
  unfoldable pub decoded : Value Z → PString
  decoded (Value.raw s) = s
  decoded (Value.int val) = print_int val
  decoded _ = []

-- `resize` to a size that is not smaller.
unfoldable pub resized : ℕ → PString → PString
resized n s = s ++ replicate (n - length s) 0

-- The new text of `setrange`.
unfoldable pub replace_range : ℕ → PString → PString → PString
unfolding resized
replace_range offset text s =
    let new_size = offset + length text in
    let s' = if ltb (length s) new_size then resized new_size s else s in
    take offset s' ++ (text ++ drop (offset + length text) s')

-- The bytes from `start` to `end`.
unfoldable pub range_text : ℕ → ℕ → PString → PString
range_text start end s = take (end - start + 1) (drop start s)

-- The keys of the pairs, which `mset` appends to `g_dirtyKeys`.
unfoldable pub pair_keys : List PString → List PString
pair_keys (key ∷ value ∷ rest) = key ∷ pair_keys rest
pair_keys _ = []

module _ {Z : Type 0} where
  -- The static `SetValue`, not exclusive: it drops the old expiry time.
  unfoldable pub store_text : PString → PString → Store Z → Store Z
  unfolding create_string
  store_text key value s = set_value key (create_string value) (clear_expire key s).1

  -- The loop of `mset`, two parameters a round.
  unfoldable pub store_texts : List PString → Store Z → Store Z
  unfolding store_text
  store_texts (key ∷ value ∷ rest) s = store_texts rest (store_text key value s)
  store_texts _ s = s

module _ {Z : Type 0} (env : Env Z) where
  -- `SetValue` with `exclusive`.
  unfoldable pub store_new_text : PString → PString → Store Z → Bool × Store Z
  unfolding store_text
  store_new_text key value s =
      let (r, s') = get_value_by_type env key PType.invalid true s in
      elim r [ found o ↦ (false, s') | failed e ↦ (true, store_text key value s') ]

  -- The first loop of `msetnx`: whether one of the keys is there.
  unfoldable pub any_exists : List PString → Store Z → Bool × Store Z
  any_exists (key ∷ value ∷ rest) s =
      let (r, s') = get_value_by_type env key PType.invalid true s in
      elim r [ found o ↦ (true, s') | failed e ↦ any_exists rest s' ]
  any_exists _ s = (false, s)
