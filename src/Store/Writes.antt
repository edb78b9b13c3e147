-- ===== src/Store/Writes.antt =====
-- What the writes of the store do to the view of the database.
use pika_panlei.Base.{
  ℕ, ◌<◌, ◌≡◌, refl, ◌∙◌, inl, inr, Bool, true, false, Option, none, some, PString, length,
  if◌then◌else◌, arith, str_eq, str_eq_iff, str_eq_refl, Option-cases,
}
use pika_panlei.Base.Dict
use pika_panlei.Base.Dict.{Dict, is_some}
use pika_panlei.Store.{
  Value, Object, Env, Store, db, with_db, mark, delete_key, set_value, write_value,
}
use pika_panlei.Store.View.{
  stored, is_expired, visible, IsValid, db-with_db, with_db-IsValid, mark-IsValid,
  stored-delete_key, sync-mark,
}

module _ {Z : Type 0} where
  -- The view with one value written.
  unfoldable pub put : PString → Value Z → (PString → Option (Value Z)) → PString → Option (Value Z)
  put k v f j = if str_eq k j then some v else f j

  unfoldable pub remove : PString → (PString → Option (Value Z)) → PString → Option (Value Z)
  remove k f j = if str_eq k j then none else f j

  stored-with_db-insert :
      (env : Env Z) (k j : PString) (o : Object Z) (s : Store Z)
      → IsValid env s
      → stored env (with_db s (Dict.insert k o (db s))) j
        ≡ (if str_eq k j then some o.value else stored env s j)
  unfolding stored
  stored-with_db-insert env k j o s v = ground (
    arith,
    db-with_db s (Dict.insert k o (db s)) v.db_in,
    Dict.lookup-insert k j o (db s),
    str_eq_iff k j,
  )

  -- A mark changes nothing for a key that is in the cache.
  stored-mark :
      (env : Env Z) (k j : PString) (b : Bool) (s : Store Z)
      → IsValid env s
      → is_some (Dict.lookup k (db s)) ≡ true
      → stored env (mark k b s) j ≡ stored env s j
  unfolding stored mark
  stored-mark env k j b s v h = elim v.sync_in [
    | inl e ↦ ground arith
    | inr p ↦ ground (arith, sync-mark k j b s p, str_eq_iff k j)
  ]

  set_value_state : PString → Value Z → Store Z → Store Z
  set_value_state k x s = with_db s (Dict.insert k (record { lru = s.lruclock; value = x }) (db s))

  set_value-is_some :
      (k : PString) (x : Value Z) (s : Store Z)
      → s.dbno < length s.dbs
      → is_some (Dict.lookup k (db (set_value_state k x s))) ≡ true
  unfolding set_value_state
  set_value-is_some k x s h = ground (
    arith,
    db-with_db s (Dict.insert k (record { lru = s.lruclock; value = x }) (db s)) h,
    Dict.lookup-insert k k (record { lru = s.lruclock; value = x }) (db s),
    str_eq_refl k,
  )

  stored-set_value :
      (env : Env Z) (k j : PString) (x : Value Z) (s : Store Z)
      → IsValid env s
      → stored env (set_value k x s) j ≡ (if str_eq k j then some x else stored env s j)
  unfolding set_value set_value_state
  stored-set_value env k j x s v =
      let o : Object Z = record { lru = s.lruclock; value = x } in
      stored-mark env k j true (set_value_state k x s)
        (with_db-IsValid env s (Dict.insert k o (db s)) v) (set_value-is_some k x s v.db_in)
      ∙ stored-with_db-insert env k j o s v

  pub is_expired-set_value :
      (now : ℕ) (k j : PString) (x : Value Z) (s : Store Z)
      → is_expired now (set_value k x s) j ≡ is_expired now s j
  unfolding is_expired set_value
  is_expired-set_value now k j x s = refl

  pub present-set_value :
      (env : Env Z) (k : PString) (x : Value Z) (s : Store Z)
      → IsValid env s
      → is_some (Dict.lookup k (db (set_value k x s))) ≡ true
  unfolding set_value set_value_state
  present-set_value env k x s v = set_value-is_some k x s v.db_in

  -- On a valid store `SetValue` of a key that has not expired makes the value visible under the key
  -- and changes no other key.
  pub visible-set_value :
      (env : Env Z) (k j : PString) (x : Value Z) (s : Store Z)
      → IsValid env s
      → is_expired env.now s k ≡ false
      → visible env (set_value k x s) j ≡ put k x (visible env s) j
  unfolding visible put
  visible-set_value env k j x s v l =
      ground (
        arith,
        stored-set_value env k j x s v,
        is_expired-set_value env.now k j x s,
        str_eq_iff k j,
      )

  pub set_value-IsValid :
      (env : Env Z) (k : PString) (x : Value Z) (s : Store Z)
      → IsValid env s
      → IsValid env (set_value k x s)
  unfolding set_value
  set_value-IsValid env k x s v = mark-IsValid env k true _ (with_db-IsValid env s _ v)

  -- A write through the pointer to a cached object of a key that has not expired changes the
  -- visible value of that key and no other.
  pub visible-write_value :
      (env : Env Z) (k j : PString) (x : Value Z) (s : Store Z)
      → IsValid env s
      → is_expired env.now s k ≡ false
      → is_some (Dict.lookup k (db s)) ≡ true
      → visible env (write_value k x s) j ≡ put k x (visible env s) j
  unfolding visible put is_expired write_value
  visible-write_value env k j x s v l h = elim (Option-cases (Dict.lookup k (db s))) [
    | inl e ↦ cc
    | inr (o, e) ↦
        ground (arith, stored-with_db-insert env k j (record o { value = x }) s v, str_eq_iff k j)
  ]

  pub is_expired-write_value :
      (now : ℕ) (k j : PString) (x : Value Z) (s : Store Z)
      → is_expired now (write_value k x s) j ≡ is_expired now s j
  unfolding is_expired write_value
  is_expired-write_value now k j x s = ground arith

  pub write_value-IsValid :
      (env : Env Z) (k : PString) (x : Value Z) (s : Store Z)
      → IsValid env s
      → IsValid env (write_value k x s)
  unfolding write_value
  write_value-IsValid env k x s v = elim (Option-cases (Dict.lookup k (db s))) [
    | inl e ↦ rw (e, write_value) v
    | inr (o, e) ↦ rw (e, write_value) (with_db-IsValid env s _ v)
  ]

  is_expired-delete_key :
      (now : ℕ) (k j : PString) (s : Store Z)
      → is_expired now (delete_key k s).1 j ≡ is_expired now s j
  unfolding is_expired delete_key
  is_expired-delete_key now k j s = refl

  -- On a valid store `DeleteKey` hides the key, also where a backend still holds it, and changes no
  -- other key.
  pub visible-delete_key :
      (env : Env Z) (k j : PString) (s : Store Z)
      → IsValid env s
      → visible env (delete_key k s).1 j ≡ remove k (visible env s) j
  unfolding visible remove
  visible-delete_key env k j s v =
      ground (arith, stored-delete_key env k j s v, is_expired-delete_key env.now k j s)
