-- ===== src/SortedSet/Order.antt =====
-- The map from scores to members, for scores whose order is that of numbers.
use pika_panlei.Base.{
  suc, ◌≡◌, refl, sym, ap, ◌∙◌, inl, inr, true, false, ◌||◌, none, some, List, [], ◌∷◌, PString,
  All, str_eq, str_eq_iff, length, length-append, Bool-cases, if◌then◌else◌, arith,
}
use pika_panlei.Base.Members
use pika_panlei.SortedSet.{Doubles, Scores, str_below, insert, same, insert_score, find_score}
use pika_panlei.SortedSet.Rank.{ranked}

-- What `<` satisfies on numbers.
pub record IsOrder {S : Type 0} (d : Doubles S) : Type 0 where
  pub trans : (a b c : S) → d.below a b ≡ true → d.below b c ≡ true → d.below a c ≡ true
  pub asym : (a b : S) → d.below a b ≡ true → d.below b a ≡ false
  pub same_below : (a b c : S) → same d a b ≡ true → d.below a c ≡ d.below b c
  pub same_above : (a b c : S) → same d a b ≡ true → d.below c a ≡ d.below c b

str_below_total : (s t : PString) → str_below s t ≡ false → str_below t s ≡ false → s ≡ t
unfolding str_below
str_below_total [] [] h k = refl
str_below_total [] (b ∷ t) h k = absurd (ground arith)
str_below_total (a ∷ s) [] h k = absurd (ground arith)
str_below_total (a ∷ s) (b ∷ t) h k = ground (arith, str_below_total s t)

pub contains-insert :
    (m k : PString) (l : List PString)
    → Members.contains k (insert m l) ≡ (str_eq m k || Members.contains k l)
unfolding insert Members.contains
contains-insert m k [] = refl
contains-insert m k (a ∷ l) = elim (Bool-cases (str_below m a)) [
  | inl e ↦ rw e refl
  | inr e ↦ elim (Bool-cases (str_below a m)) [
    | inl f ↦ rw (e, f) (ground (arith, contains-insert m k l))
    | inr f ↦ rw (e, f) (rw (str_below_total m a e f) (ground arith))
  ]
]

pub length-insert :
    (m : PString) (l : List PString)
    → Members.contains m l ≡ false
    → length (insert m l) ≡ suc (length l)
unfolding insert Members.contains
length-insert m [] h = refl
length-insert m (a ∷ l) h = elim (Bool-cases (str_below m a)) [
  | inl e ↦ rw e refl
  | inr e ↦ elim (Bool-cases (str_below a m)) [
    | inl f ↦ rw (e, f) (ap suc (length-insert m l (ground arith)))
    | inr f ↦ let q = sym (str_below_total m a e f) in absurd (ground (arith, str_eq_iff a m))
  ]
]

module _ {S : Type 0} (d : Doubles S) where
  abbrev pub IsSorted : Scores S → Type 0
  IsSorted [] = Unit
  IsSorted ((s, ms) ∷ rest) =
      All (λ (p : S × List PString). d.below s p.0 ≡ true) rest × IsSorted rest

  unfoldable pub bucket : S → Scores S → List PString
  unfolding find_score
  bucket x scores = elim (find_score d x scores) [ none ↦ [] | some ms ↦ ms ]

  module _ (o : IsOrder d) where
    All-below :
        (t s : S) (rest : Scores S)
        → d.below t s ≡ true
        → All (λ (p : S × List PString). d.below s p.0 ≡ true) rest
        → All (λ (p : S × List PString). d.below t p.0 ≡ true) rest
    All-below t s [] h a = a
    All-below t s ((u, ms) ∷ rest) h a = (o.trans t s u h a.0, All-below t s rest h a.1)

    find_score-below :
        (x : S) (scores : Scores S)
        → All (λ (p : S × List PString). d.below x p.0 ≡ true) scores
        → find_score d x scores ≡ none
    unfolding find_score same
    find_score-below x [] a = refl
    find_score-below x ((s, ms) ∷ rest) a = ground (arith, find_score-below x rest)

    bucket_before :
        (t s : S) (ms : List PString) (rest : Scores S)
        → d.below t s ≡ true
        → All (λ (p : S × List PString). d.below s p.0 ≡ true) rest
        → bucket t ((s, ms) ∷ rest) ≡ []
    unfolding bucket
    bucket_before t s ms rest h a =
        rw (find_score-below t ((s, ms) ∷ rest) (h, All-below t s rest h a), bucket) refl

    bucket_behind :
        (t s : S) (ms : List PString) (rest : Scores S)
        → d.below s t ≡ true
        → bucket t ((s, ms) ∷ rest) ≡ bucket t rest
    unfolding bucket find_score same
    bucket_behind t s ms rest h = ground arith

    bucket_here :
        (t s : S) (ms : List PString) (rest : Scores S)
        → d.below t s ≡ false
        → d.below s t ≡ false
        → bucket t ((s, ms) ∷ rest) ≡ ms
    unfolding bucket find_score same
    bucket_here t s ms rest h k = ground arith

    same_apart : (s t x : S) → d.below s t ≡ true → same d s x ≡ true → same d t x ≡ false
    unfolding same
    same_apart s t x h p = let e = o.same_below s x t p in ground arith

    same_alike : (s t x : S) → d.below t s ≡ false → d.below s t ≡ false → same d s x ≡ same d t x
    unfolding same
    same_alike s t x h k =
        let e : same d s t ≡ true = ground arith in
        let l = o.same_below s t x e in let r = o.same_above s t x e in ground arith

    pub find_score-insert_score :
        (x t : S) (n : PString) (scores : Scores S)
        → IsSorted scores
        → find_score d x (insert_score d t n scores)
          ≡ (if same d t x then some (insert n (bucket t scores)) else find_score d x scores)
    unfolding find_score insert_score bucket insert
    find_score-insert_score x t n [] i = refl
    find_score-insert_score x t n ((s, ms) ∷ rest) i = elim (Bool-cases (d.below t s)) [
      | inl h ↦ rw h (rw (bucket_before t s ms rest h i.0) refl)
      | inr h ↦ elim (Bool-cases (d.below s t)) [
        | inl k ↦ elim (Bool-cases (same d s x)) [
          | inl p ↦ rw (h, k, p, same_apart s t x k p) refl
          | inr p ↦
              rw (h, k, p)
                (rw (bucket_behind t s ms rest k) (find_score-insert_score x t n rest i.1))
        ]
        | inr k ↦
            rw (h, k) (rw (bucket_here t s ms rest h k, sym (same_alike s t x h k)) (ground arith))
      ]
    ]

    insert_score-All :
        (x t : S) (n : PString) (scores : Scores S)
        → d.below x t ≡ true
        → All (λ (p : S × List PString). d.below x p.0 ≡ true) scores
        → All (λ (p : S × List PString). d.below x p.0 ≡ true) (insert_score d t n scores)
    unfolding insert_score
    insert_score-All x t n [] h a = (h, a)
    insert_score-All x t n ((s, ms) ∷ rest) h a = elim (Bool-cases (d.below t s)) [
      | inl e ↦ rw e (h, a)
      | inr e ↦ elim (Bool-cases (d.below s t)) [
        | inl e' ↦ rw (e, e') (a.0, insert_score-All x t n rest h a.1)
        | inr e' ↦ rw (e, e') a
      ]
    ]

    pub insert_score-IsSorted :
        (t : S) (n : PString) (scores : Scores S)
        → IsSorted scores
        → IsSorted (insert_score d t n scores)
    unfolding insert_score
    insert_score-IsSorted t n [] i = (_, _)
    insert_score-IsSorted t n ((s, ms) ∷ rest) i = elim (Bool-cases (d.below t s)) [
      | inl e ↦ rw e ((e, All-below t s rest e i.0), i)
      | inr e ↦ elim (Bool-cases (d.below s t)) [
        | inl e' ↦
            rw (e, e') (insert_score-All s t n rest e' i.0, insert_score-IsSorted t n rest i.1)
        | inr e' ↦ rw (e, e') i
      ]
    ]

    pub ranked-insert_score :
        (t : S) (n : PString) (scores : Scores S)
        → IsSorted scores
        → Members.contains n (bucket t scores) ≡ false
        → length (ranked (insert_score d t n scores)) ≡ suc (length (ranked scores))
    unfolding insert_score ranked bucket find_score same
    ranked-insert_score t n [] i h = refl
    ranked-insert_score t n ((s, ms) ∷ rest) i h = elim (Bool-cases (d.below t s)) [
      | inl e ↦ rw e refl
      | inr e ↦ elim (Bool-cases (d.below s t)) [
        | inl e' ↦
            rw (e, e')
              (omega (
                arith,
                length-append ms (ranked (insert_score d t n rest)),
                length-append ms (ranked rest),
                ranked-insert_score t n rest i.1
                    (ap (Members.contains n) (sym (bucket_behind t s ms rest e')) ∙ h),
              ))
        | inr e' ↦
            rw (e, e')
              (omega (
                arith,
                length-append (insert n ms) (ranked rest),
                length-append ms (ranked rest),
                length-insert n ms
                    (ap (Members.contains n) (sym (bucket_here t s ms rest e e')) ∙ h),
              ))
      ]
    ]
