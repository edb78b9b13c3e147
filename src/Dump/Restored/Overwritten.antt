-- ===== src/Dump/Restored/Overwritten.antt =====
-- A database that is written over another.
use pika_panlei.Base.{
  ℕ, ◌<◌, ◌≡◌, ◌≢◌, refl, ap, ◌∙◌, Option, none, some, [], PString, length, length-set, get_or,
  get_or-set_self, get_or-set_ne, if◌then◌else◌, str_eq, inl, inr, Bool-cases, arith,
}
use pika_panlei.Base.Dict
use pika_panlei.Base.Dict.{Dict, is_some}
use pika_panlei.Store.{Value, Store, db, expire_keys, set_value, set_expire, mark}
use pika_panlei.Store.View.{value_of}

-- The first if it is there, else the second.
abbrev pub over : {A : Type 0} → Option A → Option A → Option A
over none y = y
over (some x) y = some x

over_assoc : {A : Type 0} (x y z : Option A) → over x (over y z) ≡ over (over x y) z
over_assoc none y z = refl
over_assoc (some x) y z = refl

-- An entry, as a map.
abbrev pub at_key : {A : Type 0} → PString → Option A → PString → Option A
at_key key a j = if str_eq key j then a else none

-- The same database is selected, and the others are as they were.
pub record Frame {Z : Type 0} (t t' : Store Z) : Type 0 where
  pub same_db : t'.dbno ≡ t.dbno
  pub same_dbs : length t'.dbs ≡ length t.dbs
  pub same_expired : length t'.expired_dbs ≡ length t.expired_dbs
  pub others : (m : ℕ) → m ≢ t.dbno → get_or t'.dbs m [] ≡ get_or t.dbs m []
  pub others_expired : (m : ℕ) → m ≢ t.dbno → get_or t'.expired_dbs m [] ≡ get_or t.expired_dbs m []

module _ {Z : Type 0} where
  pub Frame-refl : (t : Store Z) → Frame t t
  Frame-refl t = record {
    same_db = refl;
    same_dbs = refl;
    same_expired = refl;
    others = λ m h. refl;
    others_expired = λ m h. refl;
  }

  pub Frame-trans : (t t₁ t₂ : Store Z) → Frame t t₁ → Frame t₁ t₂ → Frame t t₂
  Frame-trans t t₁ t₂ f g = record {
    same_db = g.same_db ∙ f.same_db;
    same_dbs = g.same_dbs ∙ f.same_dbs;
    same_expired = g.same_expired ∙ f.same_expired;
    others = λ m h. g.others m (λ e. h (e ∙ f.same_db)) ∙ f.others m h;
    others_expired = λ m h. g.others_expired m (λ e. h (e ∙ f.same_db)) ∙ f.others_expired m h;
  }

  set_value-Frame : (key : PString) (v : Value Z) (t : Store Z) → Frame t (set_value key v t)
  unfolding set_value mark
  set_value-Frame key v t = record {
    same_db = refl;
    same_dbs = length-set t.dbs t.dbno _;
    same_expired = refl;
    others = λ m h. get_or-set_ne t.dbs t.dbno m _ [] h;
    others_expired = λ m h. refl;
  }

  set_expire-Frame : (key : PString) (time : ℕ) (t : Store Z) → Frame t (set_expire key time t)
  unfolding set_expire
  set_expire-Frame key time t = record {
    same_db = refl;
    same_dbs = refl;
    same_expired = length-set t.expired_dbs t.dbno _;
    others = λ m h. refl;
    others_expired = λ m h. get_or-set_ne t.expired_dbs t.dbno m _ [] h;
  }

  db-set_value :
      (key : PString) (v : Value Z) (t : Store Z)
      → t.dbno < length t.dbs
      → db (set_value key v t) ≡ Dict.insert key (record { lru = t.lruclock; value = v }) (db t)
  unfolding set_value mark
  db-set_value key v t h = get_or-set_self t.dbs t.dbno _ [] h

  expire-set_value :
      (key : PString) (v : Value Z) (t : Store Z) → expire_keys (set_value key v t) ≡ expire_keys t
  unfolding set_value mark
  expire-set_value key v t = refl

  db-set_expire : (key : PString) (time : ℕ) (t : Store Z) → db (set_expire key time t) ≡ db t
  unfolding set_expire
  db-set_expire key time t = refl

  expire-set_expire :
      (key : PString) (time : ℕ) (t : Store Z)
      → t.dbno < length t.expired_dbs
      → expire_keys (set_expire key time t) ≡ Dict.insert key time (expire_keys t)
  unfolding set_expire
  expire-set_expire key time t h = get_or-set_self t.expired_dbs t.dbno _ [] h

  -- What is written over the values and the expiry times of the selected database.
  pub record Written (value : PString → Option (Value Z)) (time : PString → Option ℕ)
      (t t' : Store Z) : Type 0 where
    pub frame : Frame t t'
    pub values :
        (j : PString)
        → value_of (Dict.lookup j (db t')) ≡ over (value j) (value_of (Dict.lookup j (db t)))
    pub times :
        (j : PString)
        → Dict.lookup j (expire_keys t') ≡ over (time j) (Dict.lookup j (expire_keys t))

  pub set_value-Written :
      (key : PString) (v : Value Z) (t : Store Z)
      → t.dbno < length t.dbs
      → Written (at_key key (some v)) (λ j. none) t (set_value key v t)
  unfolding value_of
  set_value-Written key v t h = record {
    frame = set_value-Frame key v t;
    values = λ j.
        rw (db-set_value key v t h, Dict.lookup-insert key j)
          (elim (Bool-cases (str_eq key j)) [ inl e ↦ rw e refl | inr e ↦ rw e refl ]);
    times = λ j. ap (Dict.lookup j) (expire-set_value key v t);
  }

  pub set_expire-Written :
      (key : PString) (v : Value Z) (time : ℕ) (t : Store Z)
      → t.dbno < length t.dbs
      → t.dbno < length t.expired_dbs
      → Written
          (at_key key (some v))
          (at_key key (some time))
          t
          (set_expire key time (set_value key v t))
  unfolding value_of
  set_expire-Written key v time t h k =
      let w = set_value-Written key v t h in
      let f = set_value-Frame key v t in
      let k' : (set_value key v t).dbno < length (set_value key v t).expired_dbs =
        omega (arith, f.same_db, f.same_expired) in
      record {
        frame =
            Frame-trans t (set_value key v t) _ f (set_expire-Frame key time (set_value key v t));
        values = λ j.
            ap (λ d. value_of (Dict.lookup j d)) (db-set_expire key time (set_value key v t))
            ∙ w.values j;
        times = λ j.
            rw (expire-set_expire key time (set_value key v t) k', Dict.lookup-insert key j)
              (elim (Bool-cases (str_eq key j)) [ inl e ↦ rw e refl | inr e ↦ rw e (w.times j) ]);
      }

  pub Written-eq :
      (value value' : PString → Option (Value Z)) (time time' : PString → Option ℕ) (t t' : Store Z)
      → ((j : PString) → value j ≡ value' j)
      → ((j : PString) → time j ≡ time' j)
      → Written value time t t'
      → Written value' time' t t'
  Written-eq value value' time time' t t' p q w = record {
    frame = w.frame;
    values = λ j. w.values j ∙ ap (λ x. over x (value_of (Dict.lookup j (db t)))) (p j);
    times = λ j. w.times j ∙ ap (λ x. over x (Dict.lookup j (expire_keys t))) (q j);
  }

  pub Written-trans :
      (value value' : PString → Option (Value Z)) (time time' : PString → Option ℕ)
      (t t₁ t₂ : Store Z)
      → Written value time t t₁
      → Written value' time' t₁ t₂
      → Written (λ j. over (value' j) (value j)) (λ j. over (time' j) (time j)) t t₂
  Written-trans value value' time time' t t₁ t₂ w x = record {
    frame = Frame-trans t t₁ t₂ w.frame x.frame;
    values = λ j.
        x.values j
        ∙ ap (over (value' j)) (w.values j)
        ∙ over_assoc (value' j) (value j) (value_of (Dict.lookup j (db t)));
    times = λ j.
        x.times j
        ∙ ap (over (time' j)) (w.times j)
        ∙ over_assoc (time' j) (time j) (Dict.lookup j (expire_keys t));
  }
