-- ===== src/Store/Fetch.antt =====
-- `GetObject` and `getValueByType` of src/store.cc against the view of the database.
mod Objects
pub use Objects.{Got, get_object-Got}
use pika_panlei.Base.{
  ℕ, ◌<◌, ◌≡◌, refl, ap, ap₂, ◌∙◌, ◌⊎◌, inl, inr, Bool, true, false, ◌&&◌, not, Option, none, some,
  [], PString, length, get_or, if◌then◌else◌, arith, str_eq_refl, sym, Bool-cases,
}
use pika_panlei.Base.Dict
use pika_panlei.Base.Dict.{Dict}
use pika_panlei.Common.{PType, PError}
use pika_panlei.Store.{
  Value, Object, Env, Store, ExpireResult, Fetched, found, failed, db, with_db, expire_if_need,
  get_object, check_type, has_type, get_value_by_type,
}
use pika_panlei.Store.View.{
  value_of, stored, is_expired, visible, IsValid, db-with_db, with_db-IsValid,
  expire_if_need-IsValid, visible-expire_if_need, expire_if_need-eq, expire_keys-expired_state,
}
use Objects.{stored-insert}

-- What a lookup by type yields for a value of the view.
pub data Outcome (Z : Type 0) : Type 0 where
  value : Value Z → Outcome Z
  error : PError → Outcome Z

module _ {Z : Type 0} where
  abbrev pub outcome : Fetched Z → Outcome Z
  outcome (found o) = value o.value
  outcome (failed e) = error e

  unfoldable pub expected : PType → Option (Value Z) → Outcome Z
  expected type none = error PError.not_exist
  expected type (some v) = if has_type type v then value v else error PError.type

  -- `getValueByType` returned what the view holds, the pointer shows the object in the cache, and
  -- the view of every key is what it was.
  pub record Fetches (env : Env Z) (k : PString) (type : PType) (s : Store Z)
      (r : Fetched Z × Store Z) : Type 0 where
    pub result : outcome r.0 ≡ expected type (visible env s k)
    pub cached : (o : Object Z) → r.0 ≡ found o → Dict.lookup k (db r.1) ≡ some o
    pub kept : (j : PString) → visible env r.1 j ≡ visible env s j
    pub live : is_expired env.now r.1 k ≡ false
    pub valid : IsValid env r.1

  visible-Got :
      (env : Env Z) (k j : PString) (s : Store Z) (r : Option (Object Z) × Store Z)
      → Got env k s r
      → visible env r.1 j ≡ visible env s j
  unfolding visible is_expired
  visible-Got env k j s r g =
      let e = ap₂ (λ l n. Dict.lookup j (get_or l n [])) g.expiry g.selected in
      ground (arith, e, g.kept j)

  lookup-insert_self :
      (k : PString) (o : Object Z) (s : Store Z)
      → s.dbno < length s.dbs
      → Dict.lookup k (db (with_db s (Dict.insert k o (db s)))) ≡ some o
  lookup-insert_self k o s h = rw (db-with_db s (Dict.insert k o (db s)) h) (
      Dict.lookup-insert k k o (db s)
      ∙ ap (λ b. if b then some o else Dict.lookup k (db s)) (str_eq_refl k))

  visible-insert :
      (env : Env Z) (k j : PString) (o : Object Z) (s : Store Z)
      → IsValid env s
      → visible env s k ≡ some o.value
      → visible env (with_db s (Dict.insert k o (db s))) j ≡ visible env s j
  unfolding visible is_expired
  visible-insert env k j o s v e = ground (arith, stored-insert env k j o s v)

  visible-expired :
      (env : Env Z) (k : PString) (s : Store Z)
      → is_expired env.now s k ≡ true
      → visible env s k ≡ none
  unfolding visible
  visible-expired env k s e = rw e

  visible-live :
      (env : Env Z) (k : PString) (s : Store Z)
      → is_expired env.now s k ≡ false
      → visible env s k ≡ stored env s k
  unfolding visible
  visible-live env k s e = rw e

  check_type-Fetches :
      (env : Env Z) (k : PString) (type : PType) (touch : Bool) (o : Option (Object Z))
      (s : Store Z)
      → IsValid env s
      → is_expired env.now s k ≡ false
      → Dict.lookup k (db s) ≡ o
      → visible env s k ≡ value_of o
      → Fetches env k type s (check_type env k type touch o s)
  unfolding check_type expected value_of
  check_type-Fetches env k type touch none s v l h e = record {
    result = rw e;
    cached = λ o p. cc;
    kept = λ j. refl;
    live = l;
    valid = v;
  }
  check_type-Fetches env k type touch (some o) s v l h e =
      elim (Bool-cases (has_type type o.value)) [
        | inr t ↦ rw t (record {
          result = rw (e, t);
          cached = λ o p. cc;
          kept = λ j. refl;
          live = l;
          valid = v;
        })
        | inl t ↦ elim (Bool-cases (touch && not env.saving)) [
          | inr q ↦
              rw (t, q)
                (record {
                  result = rw (e, t);
                  cached = λ o' p. cc;
                  kept = λ j. refl;
                  live = l;
                  valid = v;
                })
          | inl q ↦
              rw (t, q)
                (record {
                  result = rw (e, t);
                  cached =
                      λ o' p. cc (lookup-insert_self k (record o { lru = s.lruclock }) s v.db_in);
                  kept = λ j. visible-insert env k j (record o { lru = s.lruclock }) s v e;
                  live = (unfold is_expired in l);
                  valid = with_db-IsValid env s _ v;
                })
        ]
      ]

  Fetches-after :
      (env : Env Z) (k : PString) (type : PType) (s s' : Store Z) (r : Fetched Z × Store Z)
      → ((j : PString) → visible env s' j ≡ visible env s j)
      → Fetches env k type s' r
      → Fetches env k type s r
  Fetches-after env k type s s' r same f = record {
    result = f.result ∙ ap (expected type) (same k);
    cached = f.cached;
    kept = λ j. f.kept j ∙ same j;
    live = f.live;
    valid = f.valid;
  }

  expire_if_need-live :
      (env : Env Z) (k : PString) (s : Store Z)
      → IsValid env s
      → is_expired env.now (expire_if_need k env.now s).1 k ≡ false
  unfolding is_expired
  expire_if_need-live env k s v =
      ground
        (arith, expire_if_need-eq env k s, expire_keys-expired_state env k k s v, str_eq_refl k)

  live-Got :
      (env : Env Z) (k : PString) (s : Store Z) (r : Option (Object Z) × Store Z)
      → Got env k s r
      → is_expired env.now r.1 k ≡ is_expired env.now s k
  unfolding is_expired
  live-Got env k s r g =
      let e = ap₂ (λ l n. Dict.lookup k (get_or l n [])) g.expiry g.selected in ground (arith, e)

  expired-Fetches :
      (env : Env Z) (k : PString) (type : PType) (s : Store Z)
      → IsValid env s
      → is_expired env.now s k ≡ true
      → Fetches env k type s (failed PError.not_exist, (expire_if_need k env.now s).1)
  unfolding expected
  expired-Fetches env k type s v e = record {
    result = rw (visible-expired env k s e);
    cached = λ o p. cc;
    kept = λ j. visible-expire_if_need env k j s v;
    live = expire_if_need-live env k s v;
    valid = expire_if_need-IsValid env k s v;
  }

  -- A key that has not expired: the object of the cache or of the backend is tested.
  live-Fetches :
      (env : Env Z) (k : PString) (type : PType) (touch : Bool) (s : Store Z)
      → IsValid env s
      → is_expired env.now s k ≡ false
      → Fetches env k type s
          (check_type env k type touch (get_object env k s).0 (get_object env k s).1)
  live-Fetches env k type touch s v e =
      let g = get_object-Got env k s v in
      Fetches-after env k type s (get_object env k s).1 _
        (λ j. visible-Got env k j s (get_object env k s) g)
        (check_type-Fetches env k type touch (get_object env k s).0 (get_object env k s).1 g.valid
          (live-Got env k s (get_object env k s) g ∙ e) g.cached
          (visible-Got env k k s (get_object env k s) g ∙ visible-live env k s e ∙ sym g.value))

  pub expire_if_need-result :
      (k : PString) (now : ℕ) (s : Store Z)
      → (is_expired now s k ≡ true) × ((expire_if_need k now s).0 ≡ ExpireResult.expired)
        ⊎ (is_expired now s k ≡ false)
          × (((expire_if_need k now s).0 ≡ ExpireResult.persist)
              ⊎ ((expire_if_need k now s).0 ≡ ExpireResult.not_expire))
          × ((expire_if_need k now s).1 ≡ s)
  unfolding is_expired expire_if_need
  expire_if_need-result k now s = ground arith

  -- On a valid store a lookup by type returns what the abstract view of the database says (the
  -- value, not-exist or the type error), leaves the object that it found in the cache, changes no
  -- key's visible value, leaves the key unexpired and keeps the store valid, with and without
  -- backends.
  pub get_value_by_type-Fetches :
      (env : Env Z) (k : PString) (type : PType) (touch : Bool) (s : Store Z)
      → IsValid env s
      → Fetches env k type s (get_value_by_type env k type touch s)
  unfolding get_value_by_type
  get_value_by_type-Fetches env k type touch s v = elim (expire_if_need-result k env.now s) [
    | inl (e, r) ↦ rw (r, get_value_by_type) (expired-Fetches env k type s v e)
    | inr (e, r, q) ↦ elim r [
      | inl p ↦ rw (p, q, get_value_by_type) (live-Fetches env k type touch s v e)
      | inr p ↦ rw (p, q, get_value_by_type) (live-Fetches env k type touch s v e)
    ]
  ]
