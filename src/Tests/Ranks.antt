-- ===== src/Tests/Ranks.antt =====
-- Sorted sets, with whole numbers as scores.
use pika_panlei.Base.{
  ℕ, ◌+◌, ◌<◌, ◌≡◌, refl, pos, Bool, none, some, [], ◌∷◌, codes, ltb, str_eq, pos_part, arith,
}
use pika_panlei.Base.Dict
use pika_panlei.Base.Dict.{is_some}
use pika_panlei.Common.Number.Strtol.{strtol}
use pika_panlei.Common.Number.Print.{print_nat}
use pika_panlei.SortedSet.{
  Doubles, SortedSet, same, find_score, empty_set, size, rank_of, del_member, get_member_by_rank,
}
use pika_panlei.SortedSet.Commands.{add_pairs}
use pika_panlei.SortedSet.Order.{IsOrder, bucket}
use pika_panlei.SortedSet.Rank.{ranked}
use pika_panlei.Base.Members
use pika_panlei.SortedSet.Invariant.{IsIndexed, rank_of-get_member_by_rank}
use pika_panlei.SortedSet.Removal.{IsDistinct, del_member-IsIndexed}
use pika_panlei.SortedSet.Additions.{empty_set-IsIndexed, add_pairs-IsIndexed}

abbrev pub numbers : Doubles ℕ
numbers = record {
  below = ltb;
  add = λ a b. a + b;
  of_long = pos_part;
  to_long = pos;
  strtod = λ text. elim (strtol text) [ none ↦ none | some z ↦ some (pos_part z) ];
  double2str = print_nat;
}

ordered : IsOrder numbers
unfolding same
ordered = record {
  trans = λ a b c h k. ground arith;
  asym = λ a b h. ground arith;
  same_below = λ a b c h. ground arith;
  same_above = λ a b c h. ground arith;
}

abbrev pub one_member : SortedSet ℕ
one_member = record { scores = (7, codes "a" ∷ []) ∷ []; members = (codes "a", 7) ∷ [] }

one_member-IsIndexed : IsIndexed numbers one_member
unfolding ranked bucket find_score same Dict.lookup Members.contains
one_member-IsIndexed = record {
  sorted = (_, _);
  full = refl;
  found = λ m s h. ground arith;
  back = λ m s h. (7, ground arith, ground arith);
}

add_pairs-IsIndexed_example :
    (all_numbers : Bool) × (n : ℕ) × (z : SortedSet ℕ) × (add_pairs numbers
        (codes "3" ∷ codes "a" ∷ codes "1" ∷ codes "b" ∷ [])
        0
        empty_set
      ≡ some (all_numbers, n, z))
    × IsIndexed numbers z
add_pairs-IsIndexed_example =
    add_pairs-IsIndexed numbers ordered (codes "3" ∷ codes "a" ∷ codes "1" ∷ codes "b" ∷ []) 0
      empty_set (empty_set-IsIndexed numbers)

rank_of-get_member_by_rank_example :
    (r : ℕ) × (rank_of numbers (codes "a") one_member ≡ some (pos r))
    × (r < size one_member)
    × ((get_member_by_rank numbers r one_member).0 ≡ codes "a")
unfolding Dict.lookup str_eq
rank_of-get_member_by_rank_example =
    rank_of-get_member_by_rank numbers one_member (codes "a") 7 one_member-IsIndexed refl

one_member-IsDistinct : IsDistinct one_member
unfolding Members.contains Dict.lookup
one_member-IsDistinct = record { buckets = ((refl, _), _); members = (refl, _) }

del_member-IsIndexed_example :
    (there : Bool) × (z' : SortedSet ℕ) × (del_member numbers (codes "a") one_member
      ≡ some (there, z'))
    × (there ≡ is_some (Dict.lookup (codes "a") one_member.members))
    × (Dict.lookup (codes "a") z'.members ≡ none)
    × IsIndexed numbers z'
    × IsDistinct z'
del_member-IsIndexed_example =
    del_member-IsIndexed numbers ordered (codes "a") one_member one_member-IsIndexed
      one_member-IsDistinct
