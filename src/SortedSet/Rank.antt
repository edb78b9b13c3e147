-- ===== src/SortedSet/Rank.antt =====
-- Ranks in a sorted set, against the list of its members in the order of their scores.
use pika_panlei.Base.{
  ℕ, zero, suc, ◌+◌, ◌-◌, ◌%◌, ◌^◌, ◌<◌, ◌≤◌, ◌≡◌, refl, sym, ap, ◌∙◌, inl, inr, pos, some, List,
  [], ◌∷◌, ◌++◌, PString, str_eq_iff, length, length-append, get_or, ltb, leb, Bool-cases,
  Option-cases, if◌then◌else◌, arith,
}
use pika_panlei.Base.Dict
use pika_panlei.SortedSet.{
  Doubles, Scores, SortedSet, size, index_of, member_at, same, rank_from, rank_of, or_nobody,
  get_member_by_rank,
}

-- The members in the order of their scores.
unfoldable pub ranked : {S : Type 0} → Scores S → List PString
ranked [] = []
ranked ((s, ms) ∷ rest) = ms ++ ranked rest

get_or-front :
    (xs ys : List PString) (i : ℕ) → i < length xs → get_or (xs ++ ys) i [] ≡ get_or xs i []
get_or-front [] ys i h = absurd (omega arith)
get_or-front (x ∷ xs) ys zero h = refl
get_or-front (x ∷ xs) ys (suc i) h = get_or-front xs ys i (omega arith)

get_or-back : (xs ys : List PString) (i : ℕ) → get_or (xs ++ ys) (length xs + i) [] ≡ get_or ys i []
get_or-back [] ys i = ap (λ n. get_or ys n []) (omega arith)
get_or-back (x ∷ xs) ys i =
    let e : length (x ∷ xs) + i ≡ suc (length xs + i) = omega arith in rw e (get_or-back xs ys i)

index_of-get_or :
    (m : PString) (ms : List PString) (i : ℕ)
    → index_of m ms ≡ some i
    → (i < length ms) × (get_or ms i [] ≡ m)
unfolding index_of
index_of-get_or m [] i h = absurd (ground arith)
index_of-get_or m (a ∷ ms) zero h = ground (arith, str_eq_iff a m)
index_of-get_or m (a ∷ ms) (suc i) h = ground (arith, index_of-get_or m ms i)

module _ {S : Type 0} where
  member_at-ranked :
      (rank k : ℕ) (scores : Scores S)
      → k ≤ rank
      → rank < k + length (ranked scores)
      → (s : S) × (member_at rank k scores ≡ some (get_or (ranked scores) (rank - k) [], s))
  unfolding member_at ranked
  member_at-ranked rank k [] l h = absurd (omega arith)
  member_at-ranked rank k ((s, ms) ∷ rest) l h = elim (Bool-cases (ltb rank (k + length ms))) [
    | inl e ↦ (
      s,
      rw e (ap (λ m. some (m, s)) (sym (get_or-front ms (ranked rest) (rank - k) (ground arith)))),
    )
    | inr e ↦
        let k' = k + length ms in
        let behind : k' ≤ rank = ground arith in
        let (t, p) =
          member_at-ranked rank k' rest behind (omega (arith, length-append ms (ranked rest))) in
        let shift : length ms + (rank - k') ≡ rank - k = omega arith in
        (
          t,
          rw e (
              p
              ∙ ap (λ m. some (m, t))
                  (sym (get_or-back ms (ranked rest) (rank - k'))
                    ∙ ap (λ i. get_or (ms ++ ranked rest) i []) shift)),
        )
  ]

  pub rank_from-ranked :
      (d : Doubles S) (score : S) (m : PString) (scores : Scores S) (k r : ℕ)
      → rank_from d score m scores k ≡ some r
      → (k ≤ r) × (r < k + length (ranked scores)) × (get_or (ranked scores) (r - k) [] ≡ m)
  unfolding rank_from ranked
  rank_from-ranked d score m [] k r h = absurd (ground arith)
  rank_from-ranked d score m ((s, ms) ∷ rest) k r h = elim (Bool-cases (same d s score)) [
    | inl e ↦ elim (Option-cases (index_of m ms)) [
      | inl n ↦ absurd (ground arith)
      | inr (i, n) ↦
          let q : k + i ≡ r = ground arith in
          let (l, g) = index_of-get_or m ms i n in
          let shift : r - k ≡ i = omega arith in
          (
            omega arith,
            omega (arith, length-append ms (ranked rest)),
            ap (λ j. get_or (ms ++ ranked rest) j []) shift ∙ get_or-front ms (ranked rest) i l ∙ g,
          )
    ]
    | inr e ↦
        let h' : rank_from d score m rest (k + length ms) ≡ some r = ground arith in
        let (a, b, g) = rank_from-ranked d score m rest (k + length ms) r h' in
        let shift : r - k ≡ length ms + (r - (k + length ms)) = omega arith in
        (
          omega arith,
          omega (arith, length-append ms (ranked rest)),
          ap (λ j. get_or (ms ++ ranked rest) j []) shift
              ∙ get_or-back ms (ranked rest) (r - (k + length ms))
              ∙ g,
        )
  ]

  -- The member of a rank.
  pub get_member_by_rank-rank_of :
      (d : Doubles S) (m : PString) (r : ℕ) (z : SortedSet S)
      → length (ranked z.scores) ≡ size z
      → rank_of d m z ≡ some (pos r)
      → (get_member_by_rank d r z).0 ≡ m
  unfolding rank_of get_member_by_rank or_nobody
  get_member_by_rank-rank_of d m r z full h = elim (Option-cases (Dict.lookup m z.members)) [
    | inl n ↦ absurd (ground arith)
    | inr (score, n) ↦ elim (Option-cases (rank_from d score m z.scores 0)) [
      | inl n' ↦ absurd (ground arith)
      | inr (q, n') ↦
          let e : q ≡ r = ground arith in
          let (a, b, g) = rank_from-ranked d score m z.scores 0 q n' in
          let (s, p) = member_at-ranked r 0 z.scores (omega arith) (omega arith) in
          let rank' = if leb (size z) r then (size z + (2 ^ 64 - 1)) % 2 ^ 64 else r in
          let inside : rank' ≡ r = ground arith in
          ap (λ n. (or_nobody d (member_at n 0 z.scores)).0) inside
          ∙ rw (p, or_nobody) (ap (λ i. get_or (ranked z.scores) (i - 0) []) (sym e) ∙ g)
    ]
  ]
