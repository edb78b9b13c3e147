-- ===== src/Base/Dict.antt =====
-- `std::unordered_map<PString, V>` as an association list. The order of the entries stands for the
-- iteration order, which the C++ library leaves open.
use mathlib.Core.Path.{◌≡◌, refl}
use pika_panlei.Base.Lists.{length}
use pika_panlei.Base.Tests.{if◌then◌else◌}
use pika_panlei.Base.Text.{PString, str_eq, str_eq_iff}
use Prim.Native.Nat.{suc}
use mathlib.Core.Bool.{Bool, true, false}
use mathlib.Core.Option.{Option, none, some}
use mathlib.Core.List.{List, [], ◌∷◌}
use native.Mathlib.Omega.{arith}

abbrev pub Dict {ℓ} : Type ℓ → Type ℓ
Dict V = List (PString × V)

abbrev pub is_some {ℓ} : {A : Type ℓ} → Option A → Bool
is_some none = false
is_some (some a) = true

module _ {ℓ} {V : Type ℓ} where
  unfoldable pub lookup : PString → Dict V → Option V
  lookup k [] = none
  lookup k ((j, v) ∷ m) = if str_eq j k then some v else lookup k m

  -- `m[k] = v`
  unfoldable pub insert : PString → V → Dict V → Dict V
  insert k v [] = (k, v) ∷ []
  insert k v ((j, w) ∷ m) = if str_eq j k then (j, v) ∷ m else (j, w) ∷ insert k v m

  unfoldable pub erase : PString → Dict V → Dict V
  erase k [] = []
  erase k ((j, v) ∷ m) = let rest = erase k m in if str_eq j k then rest else (j, v) ∷ rest

  -- No key stands twice.
  abbrev pub IsUnique : Dict V → Type 0
  IsUnique [] = Unit
  IsUnique ((j, v) ∷ m) = (is_some (lookup j m) ≡ false) × IsUnique m

  pub lookup-insert :
      (k j : PString) (v : V) (m : Dict V)
      → lookup j (insert k v m) ≡ (if str_eq k j then some v else lookup j m)
  unfolding lookup insert
  lookup-insert k j v [] = refl
  lookup-insert k j v ((i, w) ∷ m) =
      ground (arith, str_eq_iff k j, str_eq_iff i k, str_eq_iff i j, lookup-insert k j v m)

  pub lookup-erase :
      (k j : PString) (m : Dict V)
      → lookup j (erase k m) ≡ (if str_eq k j then none else lookup j m)
  unfolding lookup erase
  lookup-erase k j [] = ground arith
  lookup-erase k j ((i, w) ∷ m) =
      ground (arith, str_eq_iff k j, str_eq_iff i k, str_eq_iff i j, lookup-erase k j m)

  pub length-insert :
      (k : PString) (v : V) (m : Dict V)
      → length (insert k v m) ≡ (if is_some (lookup k m) then length m else suc (length m))
  unfolding lookup insert
  length-insert k v [] = refl
  length-insert k v ((i, w) ∷ m) = ground (arith, length-insert k v m)

  erase-absent : (k : PString) (m : Dict V) → is_some (lookup k m) ≡ false → erase k m ≡ m
  unfolding lookup erase
  erase-absent k [] h = refl
  erase-absent k ((i, w) ∷ m) h = ground (arith, erase-absent k m)

  pub length-erase :
      (k : PString) (m : Dict V)
      → IsUnique m
      → (if is_some (lookup k m) then suc (length (erase k m)) else length (erase k m)) ≡ length m
  unfolding lookup erase
  length-erase k [] u = refl
  length-erase k ((i, w) ∷ m) u = ground (arith, length-erase k m, str_eq_iff i k, erase-absent k m)

  pub insert-IsUnique : (k : PString) (v : V) (m : Dict V) → IsUnique m → IsUnique (insert k v m)
  unfolding insert lookup
  insert-IsUnique k v [] u = ground arith
  insert-IsUnique k v ((i, w) ∷ m) u =
      ground (arith, insert-IsUnique k v m, lookup-insert k i v m, str_eq_iff k i, str_eq_iff i k)

  pub erase-IsUnique : (k : PString) (m : Dict V) → IsUnique m → IsUnique (erase k m)
  unfolding erase lookup
  erase-IsUnique k [] u = ground arith
  erase-IsUnique k ((i, w) ∷ m) u = ground (arith, erase-IsUnique k m, lookup-erase k i m)
