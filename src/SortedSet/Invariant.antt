-- ===== src/SortedSet/Invariant.antt =====
-- Both maps of a sorted set hold the same members.
use pika_panlei.Base.{
  ℕ, suc, ◌+◌, ◌<◌, ◌≡◌, refl, sym, ap, ◌∙◌, inl, inr, pos, true, false, ◌&&◌, ◌||◌, none, some,
  List, [], ◌∷◌, PString, str_eq, str_eq_iff, length, Bool-cases, if◌then◌else◌, arith,
}
use pika_panlei.Base.Dict
use pika_panlei.Base.Dict.{is_some}
use pika_panlei.Base.Members
use pika_panlei.SortedSet.{
  Doubles, Scores, SortedSet, size, same, index_of, insert, insert_score, find_score, add_member,
  rank_from, rank_of, get_member_by_rank,
}
use pika_panlei.SortedSet.Rank.{ranked, rank_from-ranked, get_member_by_rank-rank_of}
use pika_panlei.SortedSet.Order.{
  IsOrder, IsSorted, bucket, contains-insert, find_score-insert_score, insert_score-IsSorted,
  ranked-insert_score,
}

pub record IsIndexed {S : Type 0} (d : Doubles S) (z : SortedSet S) : Type 0 where
  pub sorted : IsSorted d z.scores
  pub full : length (ranked z.scores) ≡ size z
  pub found :
      (m : PString) (s : S)
      → Dict.lookup m z.members ≡ some s
      → Members.contains m (bucket d s z.scores) ≡ true
  pub back :
      (m : PString) (s : S)
      → Members.contains m (bucket d s z.scores) ≡ true
      → (old : S) × (Dict.lookup m z.members ≡ some old) × (same d old s ≡ true)

contains-index_of :
    (m : PString) (ms : List PString)
    → Members.contains m ms ≡ true
    → (i : ℕ) × (index_of m ms ≡ some i)
unfolding Members.contains index_of
contains-index_of m [] h = absurd (ground arith)
contains-index_of m (a ∷ ms) h = elim (Bool-cases (str_eq a m)) [
  | inl e ↦ (0, rw e refl)
  | inr e ↦ let (i, p) = contains-index_of m ms (ground arith) in (suc i, rw (e, p) refl)
]

module _ {S : Type 0} (d : Doubles S) where
  rank_from-found :
      (score : S) (m : PString) (scores : Scores S) (k : ℕ)
      → Members.contains m (bucket d score scores) ≡ true
      → (r : ℕ) × (rank_from d score m scores k ≡ some r)
  unfolding bucket find_score rank_from Members.contains
  rank_from-found score m [] k h = absurd (ground arith)
  rank_from-found score m ((s, ms) ∷ rest) k h = elim (Bool-cases (same d s score)) [
    | inl e ↦ let (i, p) = contains-index_of m ms (ground arith) in (k + i, rw (e, p) refl)
    | inr e ↦
        let (r, p) = rank_from-found score m rest (k + length ms) (ground arith) in
        (r, rw (e, p) refl)
  ]

  -- In a sorted set whose two maps hold the same members, `Rank` of a member does not fail an
  -- assertion, answers a rank below the size, and `GetMemberByRank` of that rank answers the
  -- member.
  pub rank_of-get_member_by_rank :
      (z : SortedSet S) (m : PString) (score : S)
      → IsIndexed d z
      → Dict.lookup m z.members ≡ some score
      → (r : ℕ) × (rank_of d m z ≡ some (pos r)) × (r < size z) × ((get_member_by_rank d r z).0 ≡ m)
  unfolding rank_of
  rank_of-get_member_by_rank z m score i h =
      let (r, p) = rank_from-found score m z.scores 0 (i.found m score h) in
      let e : rank_of d m z ≡ some (pos r) = rw (h, rank_of) (rw p refl) in
      let (a, b, g) = rank_from-ranked d score m z.scores 0 r p in
      (r, e, omega (arith, i.full), get_member_by_rank-rank_of d m r z i.full e)

  module _ (o : IsOrder d) where
    pub same_refl : (a : S) → same d a a ≡ true
    unfolding same
    same_refl a = ground (arith, o.asym a a)

    pub bucket_same :
        (t x : S) (scores : Scores S) → same d t x ≡ true → bucket d t scores ≡ bucket d x scores
    unfolding bucket find_score same
    bucket_same t x [] h = refl
    bucket_same t x ((s, ms) ∷ rest) h =
        let a = o.same_above t x s h in
        let b = o.same_below t x s h in let rest' = bucket_same t x rest h in ground arith

    bucket-insert_score :
        (x t : S) (n : PString) (scores : Scores S)
        → IsSorted d scores
        → bucket d x (insert_score d t n scores)
          ≡ (if same d t x then insert n (bucket d t scores) else bucket d x scores)
    unfolding bucket
    bucket-insert_score x t n scores i =
        let f = find_score-insert_score d o x t n scores i in
        elim (Bool-cases (same d t x)) [
          | inl e ↦
              let g : find_score d x (insert_score d t n scores)
                  ≡ some (insert n (bucket d t scores)) =
                ground arith in
              rw (g, bucket) (rw e refl)
          | inr e ↦
              let g : find_score d x (insert_score d t n scores) ≡ find_score d x scores =
                ground arith in
              rw (g, bucket) (rw e refl)
        ]

    contains-bucket :
        (x t : S) (k n : PString) (scores : Scores S)
        → IsSorted d scores
        → Members.contains k (bucket d x (insert_score d t n scores))
          ≡ (same d t x && str_eq n k || Members.contains k (bucket d x scores))
    contains-bucket x t k n scores i = elim (Bool-cases (same d t x)) [
      | inl e ↦
          ap (Members.contains k) (bucket-insert_score x t n scores i)
          ∙ rw e (contains-insert n k (bucket d t scores) ∙ rw (bucket_same t x scores e) refl)
      | inr e ↦ ap (Members.contains k) (bucket-insert_score x t n scores i) ∙ rw e refl
    ]

    pub add_member-IsIndexed :
        (m : PString) (score : S) (z : SortedSet S)
        → IsIndexed d z
        → Dict.lookup m z.members ≡ none
        → (z' : SortedSet S) × (add_member d m score z ≡ some z') × IsIndexed d z'
    unfolding add_member
    add_member-IsIndexed m score z i h =
        let new : Members.contains m (bucket d score z.scores) ≡ false =
          elim (Bool-cases (Members.contains m (bucket d score z.scores))) [
            | inl e ↦ let (old, p, q) = i.back m score e in absurd (ground arith)
            | inr e ↦ e
          ] in
        let count : length (Dict.insert m score z.members) ≡ suc (size z) =
          Dict.length-insert m score z.members ∙ ground arith in
        (
          record {
            scores = insert_score d score m z.scores;
            members = Dict.insert m score z.members;
          },
          rw (h, add_member) refl,
          record {
            sorted = insert_score-IsSorted d o score m z.scores i.sorted;
            full =
                omega (arith, ranked-insert_score d o score m z.scores i.sorted new, i.full, count);
            found = λ k s e.
                contains-bucket s score k m z.scores i.sorted ∙ elim (Bool-cases (str_eq m k)) [
                  | inl f ↦
                      let q : score ≡ s = ground (arith, Dict.lookup-insert m k score z.members) in
                      let r : same d score s ≡ true = ap (same d score) (sym q) ∙ same_refl score in
                      rw (r, f) refl
                  | inr f ↦
                      let old : Dict.lookup k z.members ≡ some s =
                        ground (arith, Dict.lookup-insert m k score z.members) in
                      let r = i.found k s old in ground arith
                ];
            back = λ k s e. elim (Bool-cases (str_eq m k)) [
              | inl f ↦ (
                score,
                ground (arith, Dict.lookup-insert m k score z.members),
                elim (Bool-cases (same d score s)) [
                  | inl g ↦ g
                  | inr g ↦
                      let c : Members.contains k (bucket d s z.scores) ≡ true =
                        ground (arith, contains-bucket s score k m z.scores i.sorted) in
                      let (old, p, q) = i.back k s c in
                      let w : m ≡ k = (str_eq_iff m k).0 f in
                      let h' : Dict.lookup k z.members ≡ none =
                        ap (λ n. Dict.lookup n z.members) (sym w) ∙ h in
                      absurd (ground arith)
                ],
              )
              | inr f ↦
                  let c : Members.contains k (bucket d s z.scores) ≡ true =
                    ground (arith, contains-bucket s score k m z.scores i.sorted) in
                  let (old, p, q) = i.back k s c in
                  (old, ground (arith, Dict.lookup-insert m k score z.members), q)
            ];
          },
        )
