-- ===== src/SortedSet/Additions.antt =====
-- The loop of `zadd` on a sorted set whose maps agree.
use pika_panlei.Base.{
  ℕ, ◌+◌, ◌≡◌, refl, inl, inr, Bool, true, false, Option, none, some, List, [], ◌∷◌, PString,
  Option-cases, if◌then◌else◌, arith,
}
use pika_panlei.Base.Dict
use pika_panlei.SortedSet.{Doubles, SortedSet, empty_set, add_member}
use pika_panlei.SortedSet.Commands.{add_pairs}
use pika_panlei.SortedSet.Order.{IsOrder}
use pika_panlei.SortedSet.Invariant.{IsIndexed, add_member-IsIndexed}

module _ {S : Type 0} (d : Doubles S) where
  pub empty_set-IsIndexed : IsIndexed d empty_set
  unfolding empty_set pika_panlei.SortedSet.Rank.ranked pika_panlei.SortedSet.Order.bucket
      pika_panlei.SortedSet.find_score Dict.lookup pika_panlei.Base.Members.contains
  empty_set-IsIndexed = record {
    sorted = _;
    full = refl;
    found = λ m s h. absurd (ground arith);
    back = λ m s h. absurd (ground arith);
  }

  -- For scores that are ordered like numbers, the loop of `zadd` on a sorted set whose two maps
  -- hold the same members does not fail the assertion of `AddMember`, and leaves such a set, also
  -- where it stops at a score that is not a number.
  pub add_pairs-IsIndexed :
      IsOrder d
      → (pairs : List PString) (n : ℕ) (z : SortedSet S) → IsIndexed d z
      → (numbers : Bool) × (n' : ℕ) × (z' : SortedSet S) × (add_pairs d pairs n z
          ≡ some (numbers, n', z'))
        × IsIndexed d z'
  unfolding add_pairs
  add_pairs-IsIndexed o [] n z i = (true, n, z, refl, i)
  add_pairs-IsIndexed o (score ∷ []) n z i = (true, n, z, refl, i)
  add_pairs-IsIndexed o (score ∷ m ∷ rest) n z i = elim (Option-cases (d.strtod score)) [
    | inl e ↦ (false, n, z, rw (e, add_pairs) refl, i)
    | inr (x, e) ↦ elim (Option-cases (Dict.lookup m z.members)) [
      | inr (old, e') ↦
          let (b, n', z', p, i') = add_pairs-IsIndexed o rest n z i in
          (b, n', z', rw (e, add_pairs) (rw e' p), i')
      | inl e' ↦
          let (z₁, q, i₁) = add_member-IsIndexed d o m x z i e' in
          let (b, n', z', p, i') = add_pairs-IsIndexed o rest (n + 1) z₁ i₁ in
          (b, n', z', rw (e, add_pairs) (rw e' (rw q p)), i')
    ]
  ]
