-- ===== src/SortedSet.antt =====
-- `PSortedSet` of src/sorted_set.h and src/sorted_set.cc. The scores are `double`s, whose order,
-- sum, conversions and texts are a record of operations; no score is NaN. `std::map` and `std::set`
-- are lists in the order of their keys.
pub mod Commands
pub mod Rank
pub mod Order
pub mod Invariant
pub mod Additions
pub mod Removal
use pika_panlei.Base.{
  ℕ, zero, suc, ◌+◌, ◌-◌, ◌%◌, ◌^◌, ℤ, pos, negsuc, leb_ℤ, ltb_ℤ, pos_part, Bool, true, false, not,
  ◌&&◌, Option, none, some, List, [], ◌∷◌, ◌++◌, PString, str_eq, length, get_or, ltb, leb,
  if◌then◌else◌,
}
use pika_panlei.Base.Dict
use pika_panlei.Base.Dict.{Dict}
use pika_panlei.Base.Members
use pika_panlei.Common.Index.{adjust_index}

-- `below` is `<`, `to_long` is the conversion to `long`.
pub record Doubles (S : Type 0) : Type 0 where
  pub below : S → S → Bool
  pub add : S → S → S
  pub of_long : ℤ → S
  pub to_long : S → ℤ
  pub strtod : PString → Option S
  pub double2str : S → PString

-- The order of `std::string`.
unfoldable pub str_below : PString → PString → Bool
str_below s [] = false
str_below [] (b ∷ t) = true
str_below (a ∷ s) (b ∷ t) =
    let rest = str_below s t in if ltb a b then true else if ltb b a then false else rest

-- `insert` into a `std::set`.
unfoldable pub insert : PString → List PString → List PString
unfolding str_below
insert m [] = m ∷ []
insert m (a ∷ l) =
    let rest = insert m l in
    if str_below m a then m ∷ a ∷ l else if str_below a m then a ∷ rest else a ∷ l

abbrev pub Scores : Type 0 → Type 0
Scores S = List (S × List PString)

pub record SortedSet (S : Type 0) : Type 0 where
  pub scores : Scores S
  pub members : Dict S

unfoldable pub index_of : PString → List PString → Option ℕ
index_of m [] = none
index_of m (a ∷ l) =
    let rest = index_of m l in
    if str_eq a m then some 0 else elim rest [ none ↦ none | some i ↦ some (suc i) ]

module _ {S : Type 0} where
  unfoldable pub empty_set : SortedSet S
  empty_set = record { scores = []; members = [] }

  abbrev pub size : SortedSet S → ℕ
  size z = length z.members

  -- The loop of `GetMemberByRank`.
  unfoldable pub member_at : ℕ → ℕ → Scores S → Option (PString × S)
  member_at rank iter_rank [] = none
  member_at rank iter_rank ((s, ms) ∷ rest) =
      let behind = member_at rank (iter_rank + length ms) rest in
      if ltb rank (iter_rank + length ms) then some (get_or ms (rank - iter_rank) [], s) else behind

module _ {S : Type 0} (d : Doubles S) where
  -- `==`
  unfoldable pub same : S → S → Bool
  same a b = not (d.below a b) && not (d.below b a)

  -- `scores_[score].insert(member)`
  unfoldable pub insert_score : S → PString → Scores S → Scores S
  unfolding insert
  insert_score score m [] = (score, m ∷ []) ∷ []
  insert_score score m ((s, ms) ∷ rest) =
      let behind = insert_score score m rest in
      if d.below score s
      then (score, m ∷ []) ∷ (s, ms) ∷ rest
      else if d.below s score
      then (s, ms) ∷ behind
      else (s, insert m ms) ∷ rest

  -- `scores_.find(score)`
  unfoldable pub find_score : S → Scores S → Option (List PString)
  unfolding same
  find_score score [] = none
  find_score score ((s, ms) ∷ rest) =
      let behind = find_score score rest in if same s score then some ms else behind

  -- `scores_.find(score)->second.erase(member)`. The set stays, also when it gets empty.
  unfoldable pub erase_score : S → PString → Scores S → Scores S
  unfolding same
  erase_score score m [] = []
  erase_score score m ((s, ms) ∷ rest) =
      let behind = erase_score score m rest in
      if same s score then (s, Members.erase m ms) ∷ rest else (s, ms) ∷ behind

  -- Whether the assertions on `scores_.find(score)` hold for a member.
  unfoldable pub has_score : S → PString → Scores S → Bool
  unfolding find_score
  has_score score m scores = elim (find_score score scores) [
    | none ↦ false
    | some ms ↦ Members.contains m ms
  ]

  unfoldable pub add_member : PString → S → SortedSet S → Option (SortedSet S)
  unfolding insert_score
  add_member m score z = elim (Dict.lookup m z.members) [
    | some old ↦ none
    | none ↦
        some (record {
          scores = insert_score score m z.scores;
          members = Dict.insert m score z.members;
        })
  ]

  -- `UpdateMember` of a member with its old score.
  unfoldable pub update_member : PString → S → S → SortedSet S → Option (S × SortedSet S)
  unfolding has_score erase_score insert_score
  update_member m old delta z =
      let new = d.add old delta in
      let scores = erase_score old m z.scores in
      if not (has_score old m z.scores)
      then none
      else if has_score new m scores
      then none
      else some (
        new,
        record { scores = insert_score new m scores; members = Dict.insert m new z.members },
      )

  -- The loop of `Rank`.
  unfoldable pub rank_from : S → PString → Scores S → ℕ → Option ℕ
  unfolding same index_of
  rank_from score m [] rank = none
  rank_from score m ((s, ms) ∷ rest) rank =
      let behind = rank_from score m rest (rank + length ms) in
      if same s score
      then elim (index_of m ms) [ none ↦ none | some i ↦ some (rank + i) ]
      else behind

  unfoldable pub rank_of : PString → SortedSet S → Option ℤ
  unfolding rank_from
  rank_of m z = elim (Dict.lookup m z.members) [
    | none ↦ some (negsuc 0)
    | some score ↦ elim (rank_from score m z.scores 0) [ none ↦ none | some rank ↦ some (pos rank) ]
  ]

  unfoldable pub rev_rank : PString → SortedSet S → Option ℤ
  unfolding rank_of
  rev_rank m z = elim (rank_of m z) [
    | none ↦ none
    | some (negsuc n) ↦ some (negsuc n)
    | some (pos rank) ↦ some (pos (size z - (rank + 1)))
  ]

  unfoldable pub del_member : PString → SortedSet S → Option (Bool × SortedSet S)
  unfolding has_score erase_score
  del_member m z = elim (Dict.lookup m z.members) [
    | none ↦ some (false, z)
    | some score ↦
        if has_score score m z.scores
        then some (
          true,
          record { scores = erase_score score m z.scores; members = Dict.erase m z.members },
        )
        else none
  ]

  -- What `GetMemberByRank` returns behind its loop.
  unfoldable pub or_nobody : Option (PString × S) → PString × S
  or_nobody none = ([], d.of_long (pos 0))
  or_nobody (some p) = p

  unfoldable pub get_member_by_rank : ℕ → SortedSet S → PString × S
  unfolding member_at or_nobody
  get_member_by_rank rank z =
      let rank' = if leb (size z) rank then (size z + (2 ^ 64 - 1)) % 2 ^ 64 else rank in
      or_nobody (member_at rank' 0 z.scores)

  -- The loop of `RangeByRank`, from a rank on.
  unfoldable pub members_from : ℕ → ℕ → SortedSet S → List (PString × S)
  unfolding get_member_by_rank
  members_from rank zero z = []
  members_from rank (suc n) z = get_member_by_rank rank z ∷ members_from (suc rank) n z

  unfoldable pub range_by_rank : ℤ → ℤ → SortedSet S → List (PString × S)
  unfolding members_from
  range_by_rank start end z =
      let (first, last) = adjust_index start end (size z) in
      if ltb_ℤ last first
      then []
      else members_from (pos_part first) (pos_part last + 1 - pos_part first) z

  -- The entries from `lower_bound` to `upper_bound`.
  unfoldable pub between : S → S → Scores S → List (PString × S)
  between low high [] = []
  between low high ((s, ms) ∷ rest) =
      let behind = between low high rest in
      if d.below s low then behind else if d.below high s then [] else with_score s ms ++ behind
    where
      with_score : S → List PString → List (PString × S)
      with_score s [] = []
      with_score s (m ∷ ms) = (m, s) ∷ with_score s ms

  unfoldable pub range_by_score : S → S → SortedSet S → List (PString × S)
  unfolding between
  range_by_score low high z = if d.below high low then [] else between low high z.scores
