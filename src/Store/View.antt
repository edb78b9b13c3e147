-- ===== src/Store/View.antt =====
-- What a client can see of the selected database: for each key the value that is stored under it,
-- in the cache or in the backend, unless it has expired.
use pika_panlei.Base.{
  ℕ, ◌<◌, ◌≡◌, refl, ap, ◌⊎◌, inl, inr, Bool, true, false, not, Option, none, some, List, [], ◌∷◌,
  PString, length, get_or, ltb, if◌then◌else◌, arith, str_eq, str_eq_iff, get_or-set_self,
  length-set, Bool-cases, ◌∙◌,
}
use pika_panlei.Base.Dict
use pika_panlei.Base.Dict.{Dict, is_some}
use pika_panlei.Store.{
  Value, Object, Env, Store, is_empty, db, expire_keys, sync_keys, with_db, with_expire_keys, mark,
  delete_key, expire_if_need,
}

is_empty-of_lt : (ws : List (Dict Bool)) {n : ℕ} → n < length ws → is_empty ws ≡ false
is_empty-of_lt [] h = absurd (omega arith)
is_empty-of_lt (w ∷ ws) h = refl

module _ {Z : Type 0} where
  unfoldable pub value_of : Option (Object Z) → Option (Value Z)
  value_of none = none
  value_of (some o) = some o.value

  unfoldable pub stored : Env Z → Store Z → PString → Option (Value Z)
  unfolding value_of
  stored env s k = elim (Dict.lookup k (db s)) [
    | some o ↦ some o.value
    | none ↦
        if is_empty env.backends
        then none
        else if is_some (Dict.lookup k (sync_keys s))
        then none
        else value_of (get_or env.backends s.dbno (λ _. none) k)
  ]

  unfoldable pub is_expired : ℕ → Store Z → PString → Bool
  is_expired now s k = elim (Dict.lookup k (expire_keys s)) [
    | none ↦ false
    | some when ↦ not (ltb now when)
  ]

  unfoldable pub visible : Env Z → Store Z → PString → Option (Value Z)
  unfolding stored is_expired
  visible env s k = if is_expired env.now s k then none else stored env s k

  -- The selected database exists, and so does its queue if there are backends.
  pub record IsValid (env : Env Z) (s : Store Z) : Type 0 where
    pub db_in : s.dbno < length s.dbs
    pub expire_in : s.dbno < length s.expired_dbs
    pub sync_in : (is_empty env.backends ≡ true) ⊎ (s.dbno < length s.wait_sync)

  pub db-with_db :
      (s : Store Z) (d : Dict (Object Z)) → s.dbno < length s.dbs → db (with_db s d) ≡ d
  db-with_db s d h = get_or-set_self s.dbs s.dbno d [] h

  pub expire-with_expire_keys :
      (s : Store Z) (d : Dict ℕ)
      → s.dbno < length s.expired_dbs
      → expire_keys (with_expire_keys s d) ≡ d
  expire-with_expire_keys s d h = get_or-set_self s.expired_dbs s.dbno d [] h

  pub sync-mark :
      (k j : PString) (b : Bool) (s : Store Z)
      → s.dbno < length s.wait_sync
      → Dict.lookup j (sync_keys (mark k b s))
        ≡ (if str_eq k j then some b else Dict.lookup j (sync_keys s))
  unfolding mark
  sync-mark k j b s h =
      rw
        (
          is_empty-of_lt s.wait_sync h,
          get_or-set_self s.wait_sync s.dbno (Dict.insert k b (sync_keys s)) [] h,
        )
        (Dict.lookup-insert k j b (sync_keys s))

  mark-sync_in :
      (k : PString) (b : Bool) (s : Store Z)
      → s.dbno < length s.wait_sync
      → s.dbno < length (mark k b s).wait_sync
  unfolding mark
  mark-sync_in k b s h =
      rw
        (
          is_empty-of_lt s.wait_sync h,
          length-set s.wait_sync s.dbno (Dict.insert k b (sync_keys s)),
        )
        h

  pub with_db-IsValid :
      (env : Env Z) (s : Store Z) (d : Dict (Object Z)) → IsValid env s → IsValid env (with_db s d)
  with_db-IsValid env s d v = record {
    db_in = rw (length-set s.dbs s.dbno d) v.db_in;
    expire_in = v.expire_in;
    sync_in = v.sync_in;
  }

  pub mark-IsValid :
      (env : Env Z) (k : PString) (b : Bool) (s : Store Z)
      → IsValid env s
      → IsValid env (mark k b s)
  unfolding mark
  mark-IsValid env k b s v = record {
    db_in = v.db_in;
    expire_in = v.expire_in;
    sync_in = elim v.sync_in [ inl e ↦ inl e | inr h ↦ inr (mark-sync_in k b s h) ];
  }

  pub with_expire_keys-IsValid :
      (env : Env Z) (s : Store Z) (d : Dict ℕ) → IsValid env s → IsValid env (with_expire_keys s d)
  with_expire_keys-IsValid env s d v = record {
    db_in = v.db_in;
    expire_in = rw (length-set s.expired_dbs s.dbno d) v.expire_in;
    sync_in = v.sync_in;
  }

  -- Only the deleted key changes; in the backend it is hidden by the mark.
  pub stored-delete_key :
      (env : Env Z) (k j : PString) (s : Store Z)
      → IsValid env s
      → stored env (delete_key k s).1 j ≡ (if str_eq k j then none else stored env s j)
  unfolding stored delete_key
  stored-delete_key env k j s v = elim v.sync_in [
    | inl e ↦
        ground (arith, Dict.lookup-erase k j (db s), db-with_db s (Dict.erase k (db s)) v.db_in)
    | inr h ↦ ground (
      arith,
      Dict.lookup-erase k j (db s),
      db-with_db s (Dict.erase k (db s)) v.db_in,
      sync-mark k j false s h,
      str_eq_iff k j,
    )
  ]

  pub delete_key-IsValid :
      (env : Env Z) (k : PString) (s : Store Z) → IsValid env s → IsValid env (delete_key k s).1
  unfolding delete_key
  delete_key-IsValid env k s v =
      with_db-IsValid env (mark k false s) (Dict.erase k (db s)) (mark-IsValid env k false s v)

  pub expire_keys-delete_key :
      (k : PString) (s : Store Z) → expire_keys (delete_key k s).1 ≡ expire_keys s
  unfolding delete_key
  expire_keys-delete_key k s = refl

  -- `expireIfNeed` deleted an expired key.
  unfoldable pub expired_state : PString → Store Z → Store Z
  expired_state k s =
      let s' = (delete_key k s).1 in with_expire_keys s' (Dict.erase k (expire_keys s'))

  pub expire_if_need-eq :
      (env : Env Z) (k : PString) (s : Store Z)
      → (expire_if_need k env.now s).1 ≡ (if is_expired env.now s k then expired_state k s else s)
  unfolding expire_if_need is_expired expired_state
  expire_if_need-eq env k s = ground arith

  pub expired_state-IsValid :
      (env : Env Z) (k : PString) (s : Store Z) → IsValid env s → IsValid env (expired_state k s)
  unfolding expired_state
  expired_state-IsValid env k s v = with_expire_keys-IsValid env _ _ (delete_key-IsValid env k s v)

  pub expire_if_need-IsValid :
      (env : Env Z) (k : PString) (s : Store Z)
      → IsValid env s
      → IsValid env (expire_if_need k env.now s).1
  expire_if_need-IsValid env k s v = elim (Bool-cases (is_expired env.now s k)) [
    | inl e ↦ rw (expire_if_need-eq env k s, e) (expired_state-IsValid env k s v)
    | inr e ↦ rw (expire_if_need-eq env k s, e) v
  ]

  pub expire_keys-expired_state :
      (env : Env Z) (k j : PString) (s : Store Z)
      → IsValid env s
      → Dict.lookup j (expire_keys (expired_state k s))
        ≡ (if str_eq k j then none else Dict.lookup j (expire_keys s))
  unfolding expired_state
  expire_keys-expired_state env k j s v =
      let s' = (delete_key k s).1 in
      rw
        (expire-with_expire_keys s' (Dict.erase k (expire_keys s'))
          (delete_key-IsValid env k s v).expire_in)
        (rw (expire_keys-delete_key k s) (Dict.lookup-erase k j (expire_keys s)))

  pub stored-with_expire_keys :
      (env : Env Z) (j : PString) (s : Store Z) (d : Dict ℕ)
      → stored env (with_expire_keys s d) j ≡ stored env s j
  unfolding stored
  stored-with_expire_keys env j s d = refl

  pub stored-expired_state :
      (env : Env Z) (k j : PString) (s : Store Z)
      → IsValid env s
      → stored env (expired_state k s) j ≡ (if str_eq k j then none else stored env s j)
  unfolding expired_state
  stored-expired_state env k j s v =
      stored-with_expire_keys env j (delete_key k s).1
        (Dict.erase k (expire_keys (delete_key k s).1))
      ∙ stored-delete_key env k j s v

  -- On a valid store `ExpireIfNeed` at the current time changes no visible value.
  pub visible-expire_if_need :
      (env : Env Z) (k j : PString) (s : Store Z)
      → IsValid env s
      → visible env (expire_if_need k env.now s).1 j ≡ visible env s j
  unfolding visible is_expired
  visible-expire_if_need env k j s v = elim (Bool-cases (is_expired env.now s k)) [
    | inr e ↦
        ap (λ z. visible env z j)
          (expire_if_need-eq env k s ∙ ap (λ b. if b then expired_state k s else s) e)
    | inl e ↦
        ap (λ z. visible env z j)
          (expire_if_need-eq env k s ∙ ap (λ b. if b then expired_state k s else s) e)
        ∙ ground (
          arith,
          expire_keys-expired_state env k j s v,
          stored-expired_state env k j s v,
          str_eq_iff k j,
        )
  ]
