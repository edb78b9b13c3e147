-- ===== src/Lists.antt =====
-- The list commands of src/list.cc that do not wait: all but the pushes, which serve waiting
-- clients, and the blocking commands. `none` stands for a run that goes wrong: a failed assertion
-- or undefined behaviour.
pub mod Commands
pub mod Slices
pub mod Position
pub mod Laws
pub mod Elements
use pika_panlei.Base.{
  ℕ, zero, suc, ◌+◌, ◌-◌, ◌*◌, ◌^◌, ℤ, pos, negsuc, ◌+ℤ◌, ltb_ℤ, leb_ℤ, pos_part, neg_part, Bool,
  true, false, ◌&&◌, ◌||◌, not, Option, none, some, List, [], ◌∷◌, ◌++◌, PString, str_eq, codes,
  length, get_elem?, set, take, drop, ltb, ◌==◌, if◌then◌else◌,
}
use mathlib.Core.List.{reverse}
use pika_panlei.Common.{PType, PError}
use pika_panlei.Common.Index.{adjust_index}
use pika_panlei.Common.Number.{LongScan, try_str2long}
use pika_panlei.Common.Number.Strtol.{strtol}
use pika_panlei.Common.Reply.{
  format_int, format_bulk, format_null, format_ok, format_0, pre_format_multi_bulk, reply_error,
}
use pika_panlei.Store.{
  Value, Object, Env, Store, Fetched, found, failed, is_empty, get_value_by_type, set_value,
  write_value, delete_key,
}
use pika_panlei.Command.{Response, param, respond, refuse, cast_list, with_value}

pub data ListPosition : Type 0 where
  head tail : ListPosition

unfoldable pub last_or : PString → List PString → PString
last_or d [] = d
last_or d (x ∷ rest) = last_or x rest

unfoldable pub all_but_last : List PString → List PString
all_but_last [] = []
all_but_last (x ∷ []) = []
all_but_last (x ∷ y ∷ rest) = x ∷ all_but_last (y ∷ rest)

-- `front` and `pop_front`, or `back` and `pop_back`; `none` for an empty list.
unfoldable pub pop_end : ListPosition → List PString → Option (PString × List PString)
unfolding last_or all_but_last
pop_end position [] = none
pop_end ListPosition.head (x ∷ rest) = some (x, rest)
pop_end ListPosition.tail (x ∷ rest) = some (last_or x rest, all_but_last (x ∷ rest))

-- The index from the front, if it is in the list.
unfoldable pub normal_index : ℤ → ℕ → Option ℕ
normal_index idx size =
    let idx' = if ltb_ℤ idx (pos 0) then idx +ℤ pos size else idx in
    if ltb_ℤ idx' (pos 0) || leb_ℤ (pos size) idx' then none else some (pos_part idx')

-- The element at an index: from the nearer end.
unfoldable pub at_index : ℕ → List PString → Option PString
at_index idx l =
    if ltb (2 * idx) (length l) then get_elem? l idx else get_elem? (reverse l) (length l - 1 - idx)

-- The list with a new text at an index, which is found from the nearer end.
unfoldable pub set_index : ℕ → PString → List PString → List PString
set_index idx text l =
    if ltb (2 * idx) (length l)
    then set l idx text
    else reverse (set (reverse l) (length l - 1 - idx) text)

-- Iterators are positions; `size` is `end()`. `Index2Iterator` walks to a position from the front,
-- or back from the end.
unfoldable pub index2iterator : ℕ → ℕ → ℕ
index2iterator n size = if ltb (n * 2) size then n else size - (size - n)

-- `GetRange`: the length and the positions of the first and the last element. The bounds are those
-- that `AdjustIndex` left.
pub record Range : Type 0 where
  pub len : ℕ
  pub begin_it : ℕ
  pub end_it : ℕ

unfoldable pub get_range : ℤ → ℤ → ℕ → Range
unfolding index2iterator
get_range start end size =
    if ltb_ℤ end start
    then record { len = 0; begin_it = size; end_it = size }
    else if not (pos_part start == 0) || not (pos_part end + 1 == size)
    then record {
      len = pos_part end - pos_part start + 1;
      begin_it = index2iterator (pos_part start) size;
      end_it = index2iterator (pos_part end) size;
    }
    else record { len = size; begin_it = 0; end_it = size - 1 }

-- `AdjustIndex` and `GetRange`, as `ltrim` and `lrange` call them.
unfoldable pub range_of : ℤ → ℤ → ℕ → Range
unfolding get_range
range_of start end size =
    let (start', end') = adjust_index start end size in get_range start' end' size

-- The two calls of `erase`.
unfoldable pub trim : ℤ → ℤ → List PString → List PString
trim start end l =
    let r = range_of start end (length l) in
    if r.begin_it == length l then l else drop r.begin_it (take (r.end_it + 1) l)

-- The elements that the loop of `lrange` visits.
unfoldable pub visit : Range → List PString → List PString
visit r l = take r.len (drop r.begin_it l)

unfoldable pub format_bulks : List PString → PString
format_bulks [] = []
format_bulks (x ∷ rest) = format_bulk x ++ format_bulks rest

-- `list->insert` at the first element that is equal to `pivot`.
unfoldable pub insert_at : Bool → PString → PString → List PString → Option (List PString)
insert_at before pivot text [] = none
insert_at before pivot text (x ∷ rest) =
    let later = insert_at before pivot text rest in
    if str_eq x pivot
    then some (if before then text ∷ x ∷ rest else x ∷ text ∷ rest)
    else elim later [ none ↦ none | some l ↦ some (x ∷ l) ]

-- The loop of `lrem` from the head: how many were erased, and the list.
unfoldable pub remove_first : ℕ → PString → List PString → ℕ × List PString
remove_first zero text l = (0, l)
remove_first (suc count) text [] = (0, [])
remove_first (suc count) text (x ∷ rest) =
    let (n, l) = remove_first count text rest in
    let (n', l') = remove_first (suc count) text rest in
    if str_eq x text then (suc n, l) else (n', x ∷ l')

unfoldable pub includes : PString → List PString → Bool
includes text [] = false
includes text (x ∷ rest) = str_eq x text || includes text rest

-- The loop of `lrem` from the tail. It goes on with a reverse iterator to the node that it has just
-- erased, so it is defined only if nothing is erased.
unfoldable pub remove_last : ℕ → PString → List PString → Option (ℕ × List PString)
unfolding includes
remove_last count text l = if includes text l && not (count == 0) then none else some (0, l)

-- The loops by the sign of `count`. The negation of the least `long` overflows.
unfoldable pub remove_by : ℤ → PString → List PString → Option (ℕ × List PString)
unfolding remove_first remove_last
remove_by (pos zero) text l = some (remove_first (length l) text l)
remove_by (pos (suc count)) text l = some (remove_first (suc count) text l)
remove_by (negsuc n) text l = if n + 1 == 2 ^ 63 then none else remove_last (suc n) text l
