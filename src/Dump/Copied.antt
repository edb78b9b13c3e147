-- ===== src/Dump/Copied.antt =====
-- What the replay of the databases leaves in the store that loads them.
use pika_panlei.Base.{
  ℕ, zero, suc, ◌+◌, ◌<◌, ◌≤◌, ◌≡◌, refl, sym, ap, subst, ◌∙◌, true, some, List, [], ◌∷◌, PString,
  length, get_or, All, ◌==◌, inl, inr, Bool-cases, arith,
}
use pika_panlei.Base.Dict
use pika_panlei.Base.Dict.{Dict, is_some}
use pika_panlei.Store.{Env, Store}
use pika_panlei.Store.View.{value_of}
use pika_panlei.SortedSet.{SortedSet}
use pika_panlei.Dump.{Codecs}
use pika_panlei.Dump.Whole.{at_db, replay_db, replay_dbs}
use pika_panlei.Dump.Restored.{over, times_of, IsEntry, Written, replay-Written}

nil_of_length : {A : Type 0} (l : List A) → (length l == 0) ≡ true → l ≡ []
nil_of_length [] h = refl
nil_of_length (x ∷ l) h = ground arith

module _ {Z : Type 0} where
  -- The databases from one number up to another are written over those of the loading store.
  pub record Copied (from to : ℕ) (s t t' : Store Z) : Type 0 where
    pub same_dbs : length t'.dbs ≡ length t.dbs
    pub same_expired : length t'.expired_dbs ≡ length t.expired_dbs
    pub before : (m : ℕ) → m < from → get_or t'.dbs m [] ≡ get_or t.dbs m []
    pub before_expired : (m : ℕ) → m < from → get_or t'.expired_dbs m [] ≡ get_or t.expired_dbs m []
    pub behind : (m : ℕ) → to ≤ m → get_or t'.dbs m [] ≡ get_or t.dbs m []
    pub behind_expired : (m : ℕ) → to ≤ m → get_or t'.expired_dbs m [] ≡ get_or t.expired_dbs m []
    pub values :
        (m : ℕ) (j : PString)
        → from ≤ m
        → m < to
        → value_of (Dict.lookup j (get_or t'.dbs m []))
          ≡ over
              (value_of (Dict.lookup j (get_or s.dbs m [])))
              (value_of (Dict.lookup j (get_or t.dbs m [])))
    pub times :
        (m : ℕ) (j : PString)
        → from ≤ m
        → m < to
        → Dict.lookup j (get_or t'.expired_dbs m [])
          ≡ over
              (times_of (get_or s.dbs m []) (at_db m s) j)
              (Dict.lookup j (get_or t.expired_dbs m []))

  pub Copied-none : (n : ℕ) (s t : Store Z) → Copied n n s t t
  Copied-none n s t = record {
    same_dbs = refl;
    same_expired = refl;
    before = λ m h. refl;
    before_expired = λ m h. refl;
    behind = λ m h. refl;
    behind_expired = λ m h. refl;
    values = λ m j h k. absurd (omega (arith, h, k));
    times = λ m j h k. absurd (omega (arith, h, k));
  }

  empty-Copied : (n : ℕ) (s t : Store Z) → get_or s.dbs n [] ≡ [] → Copied n (suc n) s t t
  unfolding Dict.lookup value_of
  empty-Copied n s t e = record {
    same_dbs = refl;
    same_expired = refl;
    before = λ m h. refl;
    before_expired = λ m h. refl;
    behind = λ m h. refl;
    behind_expired = λ m h. refl;
    values = λ m j h k. let q : m ≡ n = omega (arith, h, k) in rw (q, e) refl;
    times = λ m j h k. let q : m ≡ n = omega (arith, h, k) in rw (q, e) refl;
  }

  Written-Copied :
      (n : ℕ) (s t t' : Store Z)
      → Written
          (λ j. value_of (Dict.lookup j (get_or s.dbs n [])))
          (times_of (get_or s.dbs n []) (at_db n s))
          (at_db n t)
          t'
      → Copied n (suc n) s t t'
  Written-Copied n s t t' w = record {
    same_dbs = w.frame.same_dbs;
    same_expired = w.frame.same_expired;
    before = λ m h. w.frame.others m (λ e. absurd (omega (arith, e, h)));
    before_expired = λ m h. w.frame.others_expired m (λ e. absurd (omega (arith, e, h)));
    behind = λ m h. w.frame.others m (λ e. absurd (omega (arith, e, h)));
    behind_expired = λ m h. w.frame.others_expired m (λ e. absurd (omega (arith, e, h)));
    values = λ m j h k.
        let q : m ≡ n = omega (arith, h, k) in
        rw q (
          ap (λ i. value_of (Dict.lookup j (get_or t'.dbs i []))) (sym w.frame.same_db)
          ∙ w.values j);
    times = λ m j h k.
        let q : m ≡ n = omega (arith, h, k) in
        rw q
          (ap (λ i. Dict.lookup j (get_or t'.expired_dbs i [])) (sym w.frame.same_db) ∙ w.times j);
  }

  -- The selected database of the source does not matter.
  Copied-at_db :
      (n from to : ℕ) (s t t' : Store Z) → Copied from to (at_db n s) t t' → Copied from to s t t'
  Copied-at_db n from to s t t' w = record {
    same_dbs = w.same_dbs;
    same_expired = w.same_expired;
    before = w.before;
    before_expired = w.before_expired;
    behind = w.behind;
    behind_expired = w.behind_expired;
    values = w.values;
    times = w.times;
  }

  pub Copied-trans :
      (n to : ℕ) (s t t₁ t₂ : Store Z)
      → n < to
      → Copied n (suc n) s t t₁
      → Copied (suc n) to s t₁ t₂
      → Copied n to s t t₂
  Copied-trans n to s t t₁ t₂ l a b = record {
    same_dbs = b.same_dbs ∙ a.same_dbs;
    same_expired = b.same_expired ∙ a.same_expired;
    before = λ m h. b.before m (omega (arith, h)) ∙ a.before m h;
    before_expired = λ m h. b.before_expired m (omega (arith, h)) ∙ a.before_expired m h;
    behind = λ m h. b.behind m h ∙ a.behind m (omega (arith, h, l));
    behind_expired = λ m h. b.behind_expired m h ∙ a.behind_expired m (omega (arith, h, l));
    values = λ m j h k. elim (Bool-cases (m == n)) [
      | inl e ↦
          let q : m ≡ n = ground (arith, e) in
          ap (λ d. value_of (Dict.lookup j d)) (b.before m (omega (arith, q)))
          ∙ a.values m j h (omega (arith, q))
      | inr e ↦
          let q : n < m = ground (arith, e, h) in
          b.values m j q k
          ∙ ap
              (λ d.
                over (value_of (Dict.lookup j (get_or s.dbs m []))) (value_of (Dict.lookup j d)))
              (a.behind m q)
    ];
    times = λ m j h k. elim (Bool-cases (m == n)) [
      | inl e ↦
          let q : m ≡ n = ground (arith, e) in
          ap (Dict.lookup j) (b.before_expired m (omega (arith, q)))
          ∙ a.times m j h (omega (arith, q))
      | inr e ↦
          let q : n < m = ground (arith, e, h) in
          b.times m j q k
          ∙ ap (λ d. over (times_of (get_or s.dbs m []) (at_db m s) j) (Dict.lookup j d))
              (a.behind_expired m q)
    ];
  }

module _ {S : Type 0} (c : Codecs S) (env : Env (SortedSet S)) where
  replay_db-Copied :
      (n : ℕ) (s t : Store (SortedSet S))
      → All (IsEntry c env (at_db n s)) (get_or s.dbs n [])
      → Dict.IsUnique (get_or s.dbs n [])
      → n < length t.dbs
      → n < length t.expired_dbs
      → (t' : Store (SortedSet S)) × (replay_db c env n (at_db n s) t ≡ some t')
        × Copied n (suc n) s t t'
  unfolding replay_db
  replay_db-Copied n s t a u h k = elim (Bool-cases (length (get_or s.dbs n []) == 0)) [
    | inl e ↦ (t, rw e refl, empty-Copied n s t (nil_of_length (get_or s.dbs n []) e))
    | inr e ↦
        let (t', r, w) = replay-Written c env (get_or s.dbs n []) (at_db n s) (at_db n t) a u h k in
        (t', rw e r, Written-Copied n s t t' w)
  ]

  replay_dbs-cons :
      (k n : ℕ) (s t t' : Store (SortedSet S))
      → replay_db c env n (at_db n s) t ≡ some t'
      → replay_dbs c env (suc k) n s t ≡ replay_dbs c env k (suc n) (at_db n s) t'
  unfolding replay_dbs
  replay_dbs-cons k n s t t' e = rw (e, replay_dbs) refl

  pub replay_dbs-Copied :
      (k n : ℕ) (s t : Store (SortedSet S))
      → ((m : ℕ) → All (IsEntry c env (at_db m s)) (get_or s.dbs m []))
      → ((m : ℕ) → Dict.IsUnique (get_or s.dbs m []))
      → n + k ≤ length t.dbs
      → n + k ≤ length t.expired_dbs
      → (t' : Store (SortedSet S)) × (replay_dbs c env k n s t ≡ some t') × Copied n (n + k) s t t'
  unfolding replay_dbs
  replay_dbs-Copied zero n s t a u h l =
      let e : n ≡ n + 0 = omega arith in
      (t, refl, subst (λ to. Copied n to s t t) e (Copied-none n s t))
  replay_dbs-Copied (suc k) n s t a u h l =
      let (t₁, e, w) = replay_db-Copied n s t (a n) (u n) (omega (arith, h)) (omega (arith, l)) in
      let (t', e', w') =
        replay_dbs-Copied k (suc n) (at_db n s) t₁ a u (omega (arith, h, w.same_dbs))
          (omega (arith, l, w.same_expired)) in
      let q : suc n + k ≡ n + suc k = omega arith in
      (
        t',
        replay_dbs-cons k n s t t₁ e ∙ e',
        Copied-trans n (n + suc k) s t t₁ t' (omega arith) w (
            subst (λ to. Copied (suc n) to s t₁ t') q
              (Copied-at_db n (suc n) (suc n + k) s t₁ t' w')),
      )
