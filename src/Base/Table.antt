-- ===== src/Base/Table.antt =====
-- `std::map<int, V>` as an association list. It also stands for the heap of clients by their numbers.
use mathlib.Core.Path.{◌≡◌, refl}
use mathlib.Core.Option.{Option, none, some}
use mathlib.Core.List.{List, [], ◌∷◌}
use pika_panlei.Base.Tests.{◌==◌, if◌then◌else◌}
use Prim.Native.Nat.{ℕ}
use native.Mathlib.Omega.{arith}

abbrev pub Table {ℓ} : Type ℓ → Type ℓ
Table V = List (ℕ × V)

module _ {ℓ} {V : Type ℓ} where
  unfoldable pub find : ℕ → Table V → Option V
  find n [] = none
  find n ((i, v) ∷ t) = if i == n then some v else find n t

  -- `t[n] = v`
  unfoldable pub put : ℕ → V → Table V → Table V
  put n v [] = (n, v) ∷ []
  put n v ((i, w) ∷ t) = if i == n then (n, v) ∷ t else (i, w) ∷ put n v t

  pub find-put :
      (n i : ℕ) (v : V) (t : Table V) → find i (put n v t) ≡ (if n == i then some v else find i t)
  unfolding find put
  find-put n i v [] = refl
  find-put n i v ((j, w) ∷ t) = ground (arith, find-put n i v t)
