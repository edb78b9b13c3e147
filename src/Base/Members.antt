-- ===== src/Base/Members.antt =====
-- `std::unordered_set<PString>` as a list; the order of the list stands for the iteration order,
-- which the C++ library leaves open.
use mathlib.Core.Path.{◌≡◌, refl}
use pika_panlei.Base.Lists.{length}
use pika_panlei.Base.Tests.{if◌then◌else◌}
use pika_panlei.Base.Text.{PString, str_eq, str_eq_iff}
use Prim.Native.Nat.{suc}
use mathlib.Core.Bool.{Bool, false, ◌||◌}
use mathlib.Core.List.{List, [], ◌∷◌}
use native.Mathlib.Omega.{arith}

abbrev pub Members : Type 0
Members = List PString

-- `count`
unfoldable pub contains : PString → Members → Bool
contains k [] = false
contains k (x ∷ xs) = str_eq x k || contains k xs

unfoldable pub insert : PString → Members → Members
insert k [] = k ∷ []
insert k (x ∷ xs) = if str_eq x k then x ∷ xs else x ∷ insert k xs

unfoldable pub erase : PString → Members → Members
erase k [] = []
erase k (x ∷ xs) = let rest = erase k xs in if str_eq x k then rest else x ∷ rest

abbrev pub IsUnique : Members → Type 0
IsUnique [] = Unit
IsUnique (x ∷ xs) = (contains x xs ≡ false) × IsUnique xs

pub contains-insert :
    (k j : PString) (s : Members) → contains j (insert k s) ≡ str_eq k j || contains j s
unfolding contains insert
contains-insert k j [] = refl
contains-insert k j (x ∷ s) =
    ground (arith, contains-insert k j s, str_eq_iff x k, str_eq_iff x j, str_eq_iff k j)

pub contains-erase :
    (k j : PString) (s : Members)
    → contains j (erase k s) ≡ (if str_eq k j then false else contains j s)
unfolding contains erase
contains-erase k j [] = ground arith
contains-erase k j (x ∷ s) =
    ground (arith, contains-erase k j s, str_eq_iff x k, str_eq_iff x j, str_eq_iff k j)

pub length-insert :
    (k : PString) (s : Members)
    → length (insert k s) ≡ (if contains k s then length s else suc (length s))
unfolding contains insert
length-insert k [] = refl
length-insert k (x ∷ s) = ground (arith, length-insert k s)

erase-absent : (k : PString) (s : Members) → contains k s ≡ false → erase k s ≡ s
unfolding contains erase
erase-absent k [] h = refl
erase-absent k (x ∷ s) h = ground (arith, erase-absent k s)

pub length-erase :
    (k : PString) (s : Members)
    → IsUnique s
    → (if contains k s then suc (length (erase k s)) else length (erase k s)) ≡ length s
unfolding contains erase
length-erase k [] u = refl
length-erase k (x ∷ s) u = ground (arith, length-erase k s, str_eq_iff x k, erase-absent k s)

pub insert-IsUnique : (k : PString) (s : Members) → IsUnique s → IsUnique (insert k s)
unfolding insert contains
insert-IsUnique k [] u = ground arith
insert-IsUnique k (x ∷ s) u =
    ground (arith, insert-IsUnique k s, contains-insert k x s, str_eq_iff k x, str_eq_iff x k)

pub erase-IsUnique : (k : PString) (s : Members) → IsUnique s → IsUnique (erase k s)
unfolding erase contains
erase-IsUnique k [] u = ground arith
erase-IsUnique k (x ∷ s) u = ground (arith, erase-IsUnique k s, contains-erase k x s)
