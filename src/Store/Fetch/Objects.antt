-- ===== src/Store/Fetch/Objects.antt =====
-- What `GetObject` leaves.
use pika_panlei.Base.{
  ◌≡◌, refl, ap, ◌∙◌, inl, inr, Option, none, some, PString, get_or, if◌then◌else◌, arith,
  str_eq_iff, str_eq_refl, sym, Bool-cases, Option-cases,
}
use pika_panlei.Base.Dict
use pika_panlei.Base.Dict.{Dict, is_some}
use pika_panlei.Store.{
  Object, Env, Store, is_empty, db, sync_keys, with_db, get_object, get_from_backend, load,
}
use pika_panlei.Store.View.{value_of, stored, IsValid, db-with_db, with_db-IsValid}

module _ {Z : Type 0} where
  -- The cached object of a key is replaced by one of the same value, or appears with the value
  -- that the backend holds.
  pub stored-insert :
      (env : Env Z) (k j : PString) (o : Object Z) (s : Store Z)
      → IsValid env s
      → stored env s k ≡ some o.value
      → stored env (with_db s (Dict.insert k o (db s))) j ≡ stored env s j
  unfolding stored
  stored-insert env k j o s v e = ground (
    arith,
    db-with_db s (Dict.insert k o (db s)) v.db_in,
    Dict.lookup-insert k j o (db s),
    str_eq_iff k j,
  )

  -- What `GetObject` leaves: the value of the view, with the object in the cache.
  pub record Got (env : Env Z) (k : PString) (s : Store Z) (r : Option (Object Z) × Store Z)
      : Type 0 where
    pub value : value_of r.0 ≡ stored env s k
    pub cached : Dict.lookup k (db r.1) ≡ r.0
    pub kept : (j : PString) → stored env r.1 j ≡ stored env s j
    pub expiry : r.1.expired_dbs ≡ s.expired_dbs
    pub selected : r.1.dbno ≡ s.dbno
    pub valid : IsValid env r.1

  unchanged-Got :
      (env : Env Z) (k : PString) (s : Store Z) (o : Option (Object Z))
      → IsValid env s
      → Dict.lookup k (db s) ≡ o
      → value_of o ≡ stored env s k
      → Got env k s (o, s)
  unchanged-Got env k s o v h e = record {
    value = e;
    cached = h;
    kept = λ j. refl;
    expiry = refl;
    selected = refl;
    valid = v;
  }

  loaded-Got :
      (env : Env Z) (k : PString) (s : Store Z) (o : Object Z)
      → IsValid env s
      → stored env s k ≡ some o.value
      → Got env k s (some o, with_db s (Dict.insert k o (db s)))
  unfolding value_of
  loaded-Got env k s o v e = record {
    value = sym e;
    cached = rw (db-with_db s (Dict.insert k o (db s)) v.db_in) (
        Dict.lookup-insert k k o (db s)
        ∙ ap (λ b. if b then some o else Dict.lookup k (db s)) (str_eq_refl k));
    kept = λ j. stored-insert env k j o s v e;
    expiry = refl;
    selected = refl;
    valid = with_db-IsValid env s (Dict.insert k o (db s)) v;
  }

  stored-absent :
      (env : Env Z) (k : PString) (s : Store Z)
      → Dict.lookup k (db s) ≡ none
      → stored env s k ≡ (
          if is_empty env.backends
          then none
          else if is_some (Dict.lookup k (sync_keys s))
          then none
          else value_of (get_or env.backends s.dbno (λ _. none) k))
  unfolding stored
  stored-absent env k s h = ground arith

  get_from_backend-Got :
      (env : Env Z) (k : PString) (s : Store Z)
      → IsValid env s
      → Dict.lookup k (db s) ≡ none
      → Got env k s (get_from_backend env k s)
  unfolding get_from_backend load value_of
  get_from_backend-Got env k s v h =
      let at = stored-absent env k s h in
      elim (Bool-cases (is_empty env.backends)) [
        | inl e ↦ rw e (unchanged-Got env k s none v h (ground arith))
        | inr e ↦ elim (Bool-cases (is_some (Dict.lookup k (sync_keys s)))) [
          | inl m ↦ rw (e, m) (unchanged-Got env k s none v h (ground arith))
          | inr m ↦ elim (Option-cases (get_or env.backends s.dbno (λ _. none) k)) [
            | inl b ↦ rw (e, m, b) (unchanged-Got env k s none v h (ground arith))
            | inr (o, b) ↦
                rw (e, m, b) (loaded-Got env k s (record o { lru = s.lruclock }) v (ground arith))
          ]
        ]
      ]

  stored-cached :
      (env : Env Z) (k : PString) (o : Object Z) (s : Store Z)
      → Dict.lookup k (db s) ≡ some o
      → value_of (some o) ≡ stored env s k
  unfolding stored value_of
  stored-cached env k o s h = ground arith

  -- `GetObject` returns the value of the view, and changes neither a value nor an expiry time.
  pub get_object-Got :
      (env : Env Z) (k : PString) (s : Store Z) → IsValid env s → Got env k s (get_object env k s)
  unfolding get_object
  get_object-Got env k s v = elim (Option-cases (Dict.lookup k (db s))) [
    | inl e ↦ rw (e, get_object) (get_from_backend-Got env k s v e)
    | inr (o, e) ↦
        rw (e, get_object) (unchanged-Got env k s (some o) v e (stored-cached env k o s e))
  ]
