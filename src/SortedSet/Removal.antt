-- ===== src/SortedSet/Removal.antt =====
-- `DelMember` on a sorted set whose maps agree.
use pika_panlei.Base.{
  suc, ◌≡◌, refl, sym, ap, ◌∙◌, inl, inr, Bool, true, false, not, ◌&&◌, none, some, List, [], ◌∷◌,
  PString, All, str_eq, str_eq_iff, length, length-append, Bool-cases, Option-cases, if◌then◌else◌,
  arith,
}
use pika_panlei.Base.Dict
use pika_panlei.Base.Dict.{is_some}
use pika_panlei.Base.Members
use pika_panlei.SortedSet.{
  Doubles, Scores, SortedSet, same, find_score, has_score, erase_score, del_member,
}
use pika_panlei.SortedSet.Rank.{ranked}
use pika_panlei.SortedSet.Order.{IsOrder, IsSorted, bucket}
use pika_panlei.SortedSet.Invariant.{IsIndexed}

-- No member stands twice.
pub record IsDistinct {S : Type 0} (z : SortedSet S) : Type 0 where
  pub buckets : All (λ (p : S × List PString). Members.IsUnique p.1) z.scores
  pub members : Dict.IsUnique z.members

module _ {S : Type 0} (d : Doubles S) where
  has_score-bucket :
      (s : S) (m : PString) (scores : Scores S)
      → has_score d s m scores ≡ Members.contains m (bucket d s scores)
  unfolding has_score bucket Members.contains
  has_score-bucket s m scores = ground arith

  erase_score-All :
      (x t : S) (n : PString) (scores : Scores S)
      → All (λ (p : S × List PString). d.below x p.0 ≡ true) scores
      → All (λ (p : S × List PString). d.below x p.0 ≡ true) (erase_score d t n scores)
  unfolding erase_score
  erase_score-All x t n [] a = a
  erase_score-All x t n ((s, ms) ∷ rest) a = elim (Bool-cases (same d s t)) [
    | inl e ↦ rw e a
    | inr e ↦ rw e (a.0, erase_score-All x t n rest a.1)
  ]

  erase_score-IsSorted :
      (t : S) (n : PString) (scores : Scores S)
      → IsSorted d scores
      → IsSorted d (erase_score d t n scores)
  unfolding erase_score
  erase_score-IsSorted t n [] i = i
  erase_score-IsSorted t n ((s, ms) ∷ rest) i = elim (Bool-cases (same d s t)) [
    | inl e ↦ rw e i
    | inr e ↦ rw e (erase_score-All s t n rest i.0, erase_score-IsSorted t n rest i.1)
  ]

  erase_score-IsUnique :
      (t : S) (n : PString) (scores : Scores S)
      → All (λ (p : S × List PString). Members.IsUnique p.1) scores
      → All (λ (p : S × List PString). Members.IsUnique p.1) (erase_score d t n scores)
  unfolding erase_score
  erase_score-IsUnique t n [] u = u
  erase_score-IsUnique t n ((s, ms) ∷ rest) u = elim (Bool-cases (same d s t)) [
    | inl e ↦ rw e (Members.erase-IsUnique n ms u.0, u.1)
    | inr e ↦ rw e (u.0, erase_score-IsUnique t n rest u.1)
  ]

  ranked-erase_score :
      (t : S) (n : PString) (scores : Scores S)
      → All (λ (p : S × List PString). Members.IsUnique p.1) scores
      → Members.contains n (bucket d t scores) ≡ true
      → suc (length (ranked (erase_score d t n scores))) ≡ length (ranked scores)
  unfolding erase_score ranked bucket find_score Members.contains
  ranked-erase_score t n [] u h = absurd (ground arith)
  ranked-erase_score t n ((s, ms) ∷ rest) u h = elim (Bool-cases (same d s t)) [
    | inl e ↦
        let h' : Members.contains n ms ≡ true = ground arith in
        let one : suc (length (Members.erase n ms)) ≡ length ms =
          ground (arith, Members.length-erase n ms u.0) in
        rw e (
          omega (
            arith,
            one,
            length-append (Members.erase n ms) (ranked rest),
            length-append ms (ranked rest),
          ))
    | inr e ↦
        let h' : Members.contains n (bucket d t rest) ≡ true = ground arith in
        rw e (
          omega (
            arith,
            length-append ms (ranked (erase_score d t n rest)),
            length-append ms (ranked rest),
            ranked-erase_score t n rest u.1 h',
          ))
  ]

  bucket_cons :
      (x s : S) (ms : List PString) (rest : Scores S)
      → bucket d x ((s, ms) ∷ rest) ≡ (if same d s x then ms else bucket d x rest)
  unfolding bucket find_score
  bucket_cons x s ms rest = ground arith

  erase-nothing :
      (b : Bool) (x : S) (n : PString)
      → bucket d x [] ≡ (if b then Members.erase n (bucket d x []) else bucket d x [])
  unfolding bucket find_score Members.erase
  erase-nothing true x n = refl
  erase-nothing false x n = refl

  module _ (o : IsOrder d) where
    same_cong : (a b c : S) → same d a b ≡ true → same d a c ≡ same d b c
    unfolding same
    same_cong a b c h = let l = o.same_below a b c h in let r = o.same_above a b c h in ground arith

    same_sym : (a b : S) → same d a b ≡ same d b a
    unfolding same
    same_sym a b = ground arith

    bucket-erase_score :
        (x t : S) (n : PString) (scores : Scores S)
        → bucket d x (erase_score d t n scores)
          ≡ (if same d t x then Members.erase n (bucket d x scores) else bucket d x scores)
    unfolding erase_score
    bucket-erase_score x t n [] = erase-nothing (same d t x) x n
    bucket-erase_score x t n ((s, ms) ∷ rest) = elim (Bool-cases (same d s t)) [
      | inl e ↦
          let c = sym (same_cong s t x e) in
          let p = bucket_cons x s (Members.erase n ms) rest in
          let q = bucket_cons x s ms rest in
          elim (Bool-cases (same d s x)) [
            | inl f ↦ rw e (p ∙ rw (q, c, f) refl)
            | inr f ↦ rw e (p ∙ rw (q, c, f) refl)
          ]
      | inr e ↦
          let p = bucket_cons x s ms (erase_score d t n rest) in
          let q = bucket_cons x s ms rest in
          elim (Bool-cases (same d s x)) [
            | inl f ↦
                let g : same d t x ≡ false = same_sym t x ∙ sym (same_cong s x t f) ∙ e in
                rw e (p ∙ rw (q, g, f) refl)
            | inr f ↦ rw e (p ∙ rw (q, f) (bucket-erase_score x t n rest))
          ]
    ]

    contains-erase_score :
        (x t : S) (k n : PString) (scores : Scores S)
        → Members.contains k (bucket d x (erase_score d t n scores))
          ≡ (not (same d t x && str_eq n k) && Members.contains k (bucket d x scores))
    contains-erase_score x t k n scores =
        let e = bucket-erase_score x t n scores in
        let c = Members.contains-erase n k (bucket d x scores) in
        elim (Bool-cases (same d t x)) [
          | inl f ↦ ap (Members.contains k) e ∙ rw f (c ∙ ground arith)
          | inr f ↦ ap (Members.contains k) e ∙ rw f refl
        ]

    erased :
        (m : PString) (score : S) (z : SortedSet S)
        → IsIndexed d z
        → IsDistinct z
        → Dict.lookup m z.members ≡ some score
        → IsIndexed d
            (record { scores = erase_score d score m z.scores; members = Dict.erase m z.members })
    erased m score z i u h = record {
      sorted = erase_score-IsSorted score m z.scores i.sorted;
      full =
          let one : suc (length (Dict.erase m z.members)) ≡ length z.members =
            ground (arith, Dict.length-erase m z.members u.members) in
          omega
            (arith, one, i.full, ranked-erase_score score m z.scores u.buckets (i.found m score h));
      found = λ k s e.
          let old : Dict.lookup k z.members ≡ some s =
            ground (arith, Dict.lookup-erase m k z.members) in
          let apart : str_eq m k ≡ false = ground (arith, Dict.lookup-erase m k z.members) in
          let c = i.found k s old in contains-erase_score s score k m z.scores ∙ ground arith;
      back = λ k s e.
          let c : Members.contains k (bucket d s z.scores) ≡ true =
            ground (arith, contains-erase_score s score k m z.scores) in
          let (old, p, q) = i.back k s c in
          elim (Bool-cases (str_eq m k)) [
            | inl f ↦
                let w : m ≡ k = (str_eq_iff m k).0 f in
                let h' : Dict.lookup k z.members ≡ some score =
                  ap (λ n. Dict.lookup n z.members) (sym w) ∙ h in
                let v : old ≡ score = ground arith in
                let r : same d score s ≡ true = ap (λ x. same d x s) (sym v) ∙ q in
                absurd (ground (arith, contains-erase_score s score k m z.scores))
            | inr f ↦ (old, ground (arith, Dict.lookup-erase m k z.members), q)
          ];
    }

    -- For scores that are ordered like numbers, `DelMember` on a sorted set whose two maps hold the
    -- same members, none twice, does not fail an assertion, answers whether the member was there,
    -- takes it out, and leaves such a set.
    pub del_member-IsIndexed :
        (m : PString) (z : SortedSet S)
        → IsIndexed d z
        → IsDistinct z
        → (there : Bool) × (z' : SortedSet S) × (del_member d m z ≡ some (there, z'))
          × (there ≡ is_some (Dict.lookup m z.members))
          × (Dict.lookup m z'.members ≡ none)
          × IsIndexed d z'
          × IsDistinct z'
    unfolding del_member
    del_member-IsIndexed m z i u = elim (Option-cases (Dict.lookup m z.members)) [
      | inl h ↦ (false, z, rw (h, del_member) refl, rw h refl, h, i, u)
      | inr (score, h) ↦
          let held = i.found m score h in
          let has : has_score d score m z.scores ≡ true =
            has_score-bucket score m z.scores ∙ held in
          (
            true,
            record { scores = erase_score d score m z.scores; members = Dict.erase m z.members },
            rw (h, del_member) (rw has refl),
            rw h refl,
            ground (arith, Dict.lookup-erase m m z.members, str_eq_iff m m),
            erased m score z i u h,
            record {
              buckets = erase_score-IsUnique score m z.scores u.buckets;
              members = Dict.erase-IsUnique m z.members u.members;
            },
          )
    ]
