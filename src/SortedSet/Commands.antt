-- ===== src/SortedSet/Commands.antt =====
-- The command functions of src/sorted_set.cc. `none` stands for a failed assertion.
use pika_panlei.Base.{
  ℕ, ◌+◌, ◌*◌, ◌%◌, ℤ, pos, negsuc, Bool, true, false, not, ◌&&◌, Option, none, some, List, [], ◌∷◌,
  ◌++◌, PString, codes, length, take, drop, leb, ◌==◌, if◌then◌else◌,
}
use mathlib.Core.List.{reverse}
use pika_panlei.Base.Dict
use pika_panlei.Common.{PType, PError}
use pika_panlei.Common.Case.{is_word}
use pika_panlei.Common.Index.{adjust_index}
use pika_panlei.Common.Number.Strtol.{strtol}
use pika_panlei.Common.Reply.{
  format_int, format_bulk, format_null, format_null_array, format_0, pre_format_multi_bulk,
}
use pika_panlei.Store.{Value, Env, Store, is_empty, write_value, set_value, delete_key}
use pika_panlei.Command.{Response, param, respond, refuse, with_value}
use pika_panlei.SortedSet.{
  Doubles, SortedSet, empty_set, size, add_member, update_member, rank_of, rev_rank, del_member,
  range_by_rank, range_by_score,
}

-- `CastSortedSet`, on an object whose type has been tested.
unfoldable pub cast_zset : {S : Type 0} → Value (SortedSet S) → SortedSet S
cast_zset (Value.zset z) = z
cast_zset _ = record { scores = []; members = [] }

-- The loop of `zadd`: whether every score was a number, how many members are new, and the set.
unfoldable pub add_pairs :
    {S : Type 0} → Doubles S → List PString → ℕ → SortedSet S → Option (Bool × ℕ × SortedSet S)
add_pairs d (score ∷ m ∷ rest) n z = elim (d.strtod score) [
  | none ↦ some (false, n, z)
  | some x ↦ elim (Dict.lookup m z.members) [
    | some old ↦ add_pairs d rest n z
    | none ↦ elim (add_member d m x z) [ none ↦ none | some z' ↦ add_pairs d rest (n + 1) z' ]
  ]
]
add_pairs d _ n z = some (true, n, z)

-- A loop of `DelMember`: how many members were there.
unfoldable pub del_members :
    {S : Type 0} → Doubles S → List PString → ℕ → SortedSet S → Option (ℕ × SortedSet S)
unfolding del_member
del_members d [] n z = some (n, z)
del_members d (m ∷ rest) n z = elim (del_member d m z) [
  | none ↦ none
  | some (there, z') ↦ del_members d rest (if there then n + 1 else n) z'
]

-- The members of a range, with their scores or without.
unfoldable pub format_range : {S : Type 0} → Doubles S → Bool → List (PString × S) → PString
format_range d with_scores [] = []
format_range d with_scores ((m, score) ∷ rest) =
    format_bulk m
    ++ (if with_scores then format_bulk (d.double2str score) else [])
    ++ format_range d with_scores rest

unfoldable pub reply_range : {S : Type 0} → Doubles S → Bool → Bool → List (PString × S) → PString
unfolding format_range
reply_range d with_scores backwards res =
    pre_format_multi_bulk (if with_scores then length res * 2 else length res)
    ++ format_range d with_scores (if backwards then reverse res else res)

-- Whether the scores are asked for, or a syntax error. Ten bytes of the word are compared.
unfoldable pub with_scores_of : List PString → Option Bool
with_scores_of params =
    if length params == 5 && is_word (take 10 (param 4 params)) (codes "withscores")
    then some true
    else if leb 5 (length params)
    then none
    else some false

module _ {S : Type 0} (d : Doubles S) (env : Env (SortedSet S)) where
  -- `GET_SORTEDSET`
  unfoldable pub get_sorted_set :
      PString
      → Store (SortedSet S)
      → (SortedSet S → Store (SortedSet S) → Option (Response (SortedSet S)))
      → Option (Response (SortedSet S))
  unfolding cast_zset
  get_sorted_set name s k =
      with_value env name PType.sorted_set s (λ e s'. some (refuse e s')) (λ v. k (cast_zset v))

  unfoldable pub or_fresh_set :
      PString
      → (SortedSet S → Store (SortedSet S) → Option (Response (SortedSet S)))
      → PError
      → Store (SortedSet S)
      → Option (Response (SortedSet S))
  or_fresh_set name k PError.not_exist s = k empty_set (set_value name (Value.zset empty_set) s)
  or_fresh_set name k e s = some (refuse e s)

  -- `GET_OR_SET_SORTEDSET`
  unfoldable pub get_or_set_sorted_set :
      PString
      → Store (SortedSet S)
      → (SortedSet S → Store (SortedSet S) → Option (Response (SortedSet S)))
      → Option (Response (SortedSet S))
  unfolding cast_zset or_fresh_set
  get_or_set_sorted_set name s k =
      with_value env name PType.sorted_set s (or_fresh_set name k) (λ v. k (cast_zset v))

  unfoldable pub zadd : List PString → Store (SortedSet S) → Option (Response (SortedSet S))
  unfolding get_or_set_sorted_set add_pairs
  zadd params s =
      if not (length params % 2 == 0)
      then some (refuse PError.syntax s)
      else get_or_set_sorted_set (param 1 params) s λ z s'. elim (add_pairs d (drop 2 params) 0 z) [
        | none ↦ none
        | some (numbers, n, z') ↦
            let t = write_value (param 1 params) (Value.zset z') s' in
            some (if numbers then respond PError.ok (format_int (pos n)) t else refuse PError.nan t)
      ]

  unfoldable pub zcard : List PString → Store (SortedSet S) → Option (Response (SortedSet S))
  unfolding get_sorted_set
  zcard params s =
      get_sorted_set (param 1 params) s
        λ z s'. some (respond PError.ok (format_int (pos (size z))) s')

  -- The reply of `zrank` and `zrevrank`.
  unfoldable pub reply_rank : Option ℤ → Store (SortedSet S) → Option (Response (SortedSet S))
  reply_rank none s = none
  reply_rank (some (negsuc n)) s = some (respond PError.ok format_null s)
  reply_rank (some (pos rank)) s = some (respond PError.ok (format_int (pos rank)) s)

  unfoldable pub zrank : List PString → Store (SortedSet S) → Option (Response (SortedSet S))
  unfolding get_sorted_set reply_rank
  zrank params s = get_sorted_set (param 1 params) s λ z. reply_rank (rank_of d (param 2 params) z)

  unfoldable pub zrevrank : List PString → Store (SortedSet S) → Option (Response (SortedSet S))
  unfolding get_sorted_set reply_rank
  zrevrank params s =
      get_sorted_set (param 1 params) s λ z. reply_rank (rev_rank d (param 2 params) z)

  unfoldable pub zrem : List PString → Store (SortedSet S) → Option (Response (SortedSet S))
  unfolding get_sorted_set del_members
  zrem params s = get_sorted_set (param 1 params) s λ z s'.
      elim (del_members d (drop 2 params) 0 z) [
        | none ↦ none
        | some (n, z') ↦ some (
            respond PError.ok (format_int (pos n))
              (write_value (param 1 params) (Value.zset z') s'))
      ]

  unfoldable pub zincrby : List PString → Store (SortedSet S) → Option (Response (SortedSet S))
  unfolding get_or_set_sorted_set
  zincrby params s = get_or_set_sorted_set (param 1 params) s λ z s'.
      elim (d.strtod (param 2 params)) [
        | none ↦ some (refuse PError.nan s')
        | some delta ↦ elim (Dict.lookup (param 3 params) z.members) [
          | none ↦ elim (add_member d (param 3 params) delta z) [
            | none ↦ none
            | some z' ↦ some (
                respond PError.ok (format_int (d.to_long delta))
                  (write_value (param 1 params) (Value.zset z') s'))
          ]
          | some old ↦ elim (update_member d (param 3 params) old delta z) [
            | none ↦ none
            | some (new, z') ↦ some (
                respond PError.ok (format_int (d.to_long new))
                  (write_value (param 1 params) (Value.zset z') s'))
          ]
        ]
      ]

  unfoldable pub zscore : List PString → Store (SortedSet S) → Option (Response (SortedSet S))
  unfolding get_sorted_set
  zscore params s = get_sorted_set (param 1 params) s λ z s'. some (
      respond PError.ok
        (elim (Dict.lookup (param 2 params) z.members) [
          | none ↦ format_null
          | some score ↦ format_int (d.to_long score)
        ])
        s')

  unfoldable pub generic_range :
      Bool → List PString → Store (SortedSet S) → Option (Response (SortedSet S))
  unfolding get_sorted_set with_scores_of reply_range
  generic_range backwards params s = get_sorted_set (param 1 params) s λ z s'.
      elim (with_scores_of params) [
        | none ↦ some (refuse PError.syntax s')
        | some with_scores ↦ elim (strtol (param 2 params)) [
          | none ↦ some (refuse PError.param s')
          | some start ↦ elim (strtol (param 3 params)) [
            | none ↦ some (refuse PError.param s')
            | some end ↦
                let res = range_by_rank d start end z in
                some (
                  respond PError.ok
                    (if is_empty res
                      then format_null_array
                      else reply_range d with_scores backwards res)
                    s')
          ]
        ]
      ]

  unfoldable pub generic_score_range :
      Bool → List PString → Store (SortedSet S) → Option (Response (SortedSet S))
  unfolding get_sorted_set with_scores_of reply_range
  generic_score_range backwards params s = get_sorted_set (param 1 params) s λ z s'.
      elim (with_scores_of params) [
        | none ↦ some (refuse PError.syntax s')
        | some with_scores ↦ elim (strtol (param 2 params)) [
          | none ↦ some (refuse PError.nan s')
          | some low ↦ elim (strtol (param 3 params)) [
            | none ↦ some (refuse PError.nan s')
            | some high ↦
                let res = range_by_score d (d.of_long low) (d.of_long high) z in
                some (
                  respond PError.ok
                    (if is_empty res then format_null else reply_range d with_scores backwards res)
                    s')
          ]
        ]
      ]

  -- The members that `GenericRemRange` removes. The indices of a range by rank are adjusted twice.
  unfoldable pub removed_range : Bool → S → S → SortedSet S → List (PString × S)
  removed_range true start end z =
      let (first, last) = adjust_index (d.to_long start) (d.to_long end) (size z) in
      range_by_rank d first last z
  removed_range false start end z = range_by_score d start end z

  -- The last part of `GenericRemRange`, for the names of the members.
  unfoldable pub remove_range :
      PString
      → List (PString × S)
      → SortedSet S
      → Store (SortedSet S)
      → Option (Response (SortedSet S))
  unfolding del_members
  remove_range name [] z s = some (respond PError.ok format_0 s)
  remove_range name (p ∷ res) z s = elim (del_members d (names (p ∷ res)) 0 z) [
    | none ↦ none
    | some (n, z') ↦
        let s' = write_value name (Value.zset z') s in
        if not (n == length (p ∷ res))
        then none
        else some (
            respond PError.ok (format_int (pos (length (p ∷ res))))
              (if size z' == 0 then (delete_key name s').1 else s'))
  ]
    where
      names : List (PString × S) → List PString
      names [] = []
      names ((m, score) ∷ rest) = m ∷ names rest

  unfoldable pub generic_rem_range :
      Bool → List PString → Store (SortedSet S) → Option (Response (SortedSet S))
  unfolding get_sorted_set remove_range removed_range
  generic_rem_range use_rank params s = get_sorted_set (param 1 params) s λ z s'.
      elim (d.strtod (param 2 params)) [
        | none ↦ some (refuse PError.nan s')
        | some start ↦ elim (d.strtod (param 3 params)) [
          | none ↦ some (refuse PError.nan s')
          | some end ↦ remove_range (param 1 params) (removed_range use_rank start end z) z s'
        ]
      ]
