-- ===== src/Set/Algebra.antt =====
-- The loops of the set commands as operations on sets.
use pika_panlei.Base.{
  ℕ, ◌+◌, ◌≡◌, ap, ◌∙◌, Bool, true, ◌&&◌, ◌||◌, not, List, [], ◌∷◌, PString, length, if◌then◌else◌,
  arith, str_eq, str_eq_iff,
}
use pika_panlei.Base.Members
use pika_panlei.Base.Members.{Members, contains}
use pika_panlei.Set.{
  add_members, rem_members, set_diff, set_inter, insert_all, SetOperation, combine,
}

-- Equal strings are in the same sets.
contains_congr : (s : Members) (j k : PString) → str_eq j k ≡ true → contains j s ≡ contains k s
contains_congr s j k e = ap (λ x. contains x s) ((str_eq_iff j k).0 e)

pub contains-set_diff :
    (j : PString) (l r result : Members)
    → contains j (set_diff l r result) ≡ (contains j result || (contains j l && not (contains j r)))
unfolding set_diff contains
contains-set_diff j [] r result = ground arith
contains-set_diff j (le ∷ l) r result = ground (
  arith,
  contains-set_diff j l r result,
  contains-set_diff j l r (Members.insert le result),
  Members.contains-insert le j result,
  contains_congr r le j,
)

pub contains-set_inter :
    (j : PString) (l r result : Members)
    → contains j (set_inter l r result) ≡ (contains j result || (contains j l && contains j r))
unfolding set_inter contains
contains-set_inter j [] r result = ground arith
contains-set_inter j (le ∷ l) r result = ground (
  arith,
  contains-set_inter j l r result,
  contains-set_inter j l r (Members.insert le result),
  Members.contains-insert le j result,
  contains_congr r le j,
)

pub contains-insert_all :
    (j : PString) (l result : Members)
    → contains j (insert_all l result) ≡ (contains j result || contains j l)
unfolding insert_all contains
contains-insert_all j [] result = ground arith
contains-insert_all j (e ∷ l) result =
    ground
      (arith, contains-insert_all j l (Members.insert e result), Members.contains-insert e j result)

-- Membership after each of the three operations.
abbrev pub member_by : SetOperation → Bool → Bool → Bool
member_by SetOperation.diff a b = a && not b
member_by SetOperation.inter a b = a && b
member_by SetOperation.union a b = a || b

-- A round of `_set_operation` holds a member exactly if the difference, intersection or union that
-- it is named after does.
pub contains-combine :
    (oper : SetOperation) (j : PString) (l r : Members)
    → contains j (combine oper l r) ≡ member_by oper (contains j l) (contains j r)
unfolding combine contains
contains-combine SetOperation.diff j l r = contains-set_diff j l r []
contains-combine SetOperation.inter j l r = contains-set_inter j l r []
contains-combine SetOperation.union j l r =
    ground (arith, contains-insert_all j l (insert_all r []), contains-insert_all j r [])

set_diff-IsUnique :
    (l r result : Members) → Members.IsUnique result → Members.IsUnique (set_diff l r result)
unfolding set_diff
set_diff-IsUnique [] r result u = u
set_diff-IsUnique (le ∷ l) r result u =
    set_diff-IsUnique l r _ (ground (arith, Members.insert-IsUnique le result u))

set_inter-IsUnique :
    (l r result : Members) → Members.IsUnique result → Members.IsUnique (set_inter l r result)
unfolding set_inter
set_inter-IsUnique [] r result u = u
set_inter-IsUnique (le ∷ l) r result u =
    set_inter-IsUnique l r _ (ground (arith, Members.insert-IsUnique le result u))

insert_all-IsUnique :
    (l result : Members) → Members.IsUnique result → Members.IsUnique (insert_all l result)
unfolding insert_all
insert_all-IsUnique [] result u = u
insert_all-IsUnique (e ∷ l) result u =
    insert_all-IsUnique l (Members.insert e result) (Members.insert-IsUnique e result u)

-- The result of a round holds no member twice.
pub combine-IsUnique : (oper : SetOperation) (l r : Members) → Members.IsUnique (combine oper l r)
unfolding combine
combine-IsUnique SetOperation.diff l r = set_diff-IsUnique l r [] tt
combine-IsUnique SetOperation.inter l r = set_inter-IsUnique l r [] tt
combine-IsUnique SetOperation.union l r =
    insert_all-IsUnique l (insert_all r []) (insert_all-IsUnique r [] tt)

pub contains-add_members :
    (j : PString) (ms : List PString) (n : ℕ) (s : Members)
    → contains j (add_members ms n s).1 ≡ (contains j s || contains j ms)
unfolding add_members contains
contains-add_members j [] n s = ground arith
contains-add_members j (m ∷ rest) n s =
    contains-add_members j rest _ (Members.insert m s)
    ∙ ground (arith, Members.contains-insert m j s)

pub count-add_members :
    (ms : List PString) (n : ℕ) (s : Members)
    → length (add_members ms n s).1 + n ≡ (add_members ms n s).0 + length s
unfolding add_members
count-add_members [] n s = omega arith
count-add_members (m ∷ rest) n s = ground (
  arith,
  count-add_members rest (if contains m s then n else n + 1) (Members.insert m s),
  Members.length-insert m s,
)

pub add_members-IsUnique :
    (ms : List PString) (n : ℕ) (s : Members)
    → Members.IsUnique s
    → Members.IsUnique (add_members ms n s).1
unfolding add_members
add_members-IsUnique [] n s u = u
add_members-IsUnique (m ∷ rest) n s u =
    add_members-IsUnique rest _ (Members.insert m s) (Members.insert-IsUnique m s u)

pub contains-rem_members :
    (j : PString) (ms : List PString) (n : ℕ) (s : Members)
    → contains j (rem_members ms n s).1 ≡ (contains j s && not (contains j ms))
unfolding rem_members contains
contains-rem_members j [] n s = ground arith
contains-rem_members j (m ∷ rest) n s =
    contains-rem_members j rest _ (Members.erase m s) ∙ ground (arith, Members.contains-erase m j s)

pub count-rem_members :
    (ms : List PString) (n : ℕ) (s : Members)
    → Members.IsUnique s
    → length (rem_members ms n s).1 + (rem_members ms n s).0 ≡ n + length s
unfolding rem_members
count-rem_members [] n s u = omega arith
count-rem_members (m ∷ rest) n s u = ground (
  arith,
  count-rem_members rest (if contains m s then n + 1 else n) (Members.erase m s),
  Members.length-erase m s u,
  Members.erase-IsUnique m s u,
)
