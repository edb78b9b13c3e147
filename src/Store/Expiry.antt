-- ===== src/Store/Expiry.antt =====
-- Expiry times: `EXPIRE`, `TTL`, `PERSIST`, and what a load from a backend makes of them.
use pika_panlei.Base.{
  ℕ, ◌-◌, ◌^◌, ◌<◌, ℤ, pos, negsuc, ◌≡◌, refl, ap, ap₂, ◌∙◌, true, false, Option, none, some, [],
  PString, length, get_or, ltb, if◌then◌else◌, arith, str_eq, str_eq_iff,
}
use pika_panlei.Base.Dict
use pika_panlei.Base.Dict.{Dict, is_some}
use pika_panlei.Store.{
  Value, Object, Env, Store, db, expire_keys, sync_keys, set_expire, expire_if_need, clear_expire,
  get_object, exists_key, ttl, ttl_result, is_empty, select_db,
}
use pika_panlei.Store.View.{
  stored, is_expired, visible, value_of, IsValid, expire-with_expire_keys, expired_state,
  stored-expired_state, expire_keys-expired_state, stored-with_expire_keys,
}
use pika_panlei.Store.Fetch.{get_object-Got}
use pika_panlei.Store.Writes.{remove}

-- The answer of `TTL` in milliseconds by the expiry time of a stored key.
abbrev pub time_left : ℕ → Option ℕ → ℤ
time_left now none = negsuc 0
time_left now (some when) =
    if ltb now when
    then (if ltb (when - now) (2 ^ 63)
        then pos (when - now)
        else negsuc (2 ^ 64 - 1 - (when - now)))
    else negsuc 1

module _ {Z : Type 0} where
  -- On a valid store, after `SetExpire` the key is visible exactly until that time, and no other
  -- key is concerned.
  pub visible-set_expire :
      (env : Env Z) (k j : PString) (when : ℕ) (s : Store Z)
      → IsValid env s
      → visible env (set_expire k when s) j ≡ (
          if str_eq k j
          then (if ltb env.now when then stored env s j else none)
          else visible env s j)
  unfolding visible set_expire is_expired
  visible-set_expire env k j when s v = ground (
    arith,
    expire-with_expire_keys s (Dict.insert k when (expire_keys s)) v.expire_in,
    Dict.lookup-insert k j when (expire_keys s),
    stored-with_expire_keys env j s (Dict.insert k when (expire_keys s)),
  )

  pub clear_expire-eq :
      (k : PString) (when : ℕ) (s : Store Z)
      → Dict.lookup k (expire_keys s) ≡ some when
      → when < 2 ^ 64
      → clear_expire k s ≡ (true, expired_state k s)
  unfolding clear_expire expire_if_need expired_state
  clear_expire-eq k when s h b = ground arith

  -- On a valid store, for a key with an expiry time below 2^64, `ClearExpire` answers true and
  -- hides the key, and no other key changes.
  pub clear_expire-deletes :
      (env : Env Z) (k j : PString) (when : ℕ) (s : Store Z)
      → IsValid env s
      → Dict.lookup k (expire_keys s) ≡ some when
      → when < 2 ^ 64
      → ((clear_expire k s).0 ≡ true)
        × (visible env (clear_expire k s).1 j ≡ remove k (visible env s) j)
  unfolding visible is_expired remove
  clear_expire-deletes env k j when s v h b = rw (clear_expire-eq k when s h b) (
    refl,
    ground (
      arith,
      expire_keys-expired_state env k j s v,
      stored-expired_state env k j s v,
      str_eq_iff k j,
    ),
  )

  pub is_expired-absent :
      (now : ℕ) (k : PString) (s : Store Z)
      → Dict.lookup k (expire_keys s) ≡ none
      → is_expired now s k ≡ false
  unfolding is_expired
  is_expired-absent now k s e = rw (e, is_expired)

  stored-now :
      (env : Env Z) (now : ℕ) (k : PString) (s : Store Z)
      → stored (record env { now = now }) s k ≡ stored env s k
  unfolding stored
  stored-now env now k s = refl

  stored-backend :
      (env : Env Z) (k : PString) (o : Object Z) (s : Store Z)
      → Dict.lookup k (db s) ≡ none
      → is_empty env.backends ≡ false
      → Dict.lookup k (sync_keys s) ≡ none
      → get_or env.backends s.dbno (λ _. none) k ≡ some o
      → stored env s k ≡ some o.value
  unfolding stored value_of
  stored-backend env k o s d b m l = ground arith

  -- On a valid store, a key that only a backend holds, that does not wait to be written and has no
  -- expiry time, has none after it was loaded either, and is visible at any later time, whatever
  -- time to live the backend returned.
  pub get_object-forgets_ttl :
      (env : Env Z) (k : PString) (o : Object Z) (s : Store Z)
      → IsValid env s
      → Dict.lookup k (db s) ≡ none
      → Dict.lookup k (expire_keys s) ≡ none
      → is_empty env.backends ≡ false
      → Dict.lookup k (sync_keys s) ≡ none
      → get_or env.backends s.dbno (λ _. none) k ≡ some o
      → (Dict.lookup k (expire_keys (get_object env k s).1) ≡ none)
        × ((later : ℕ)
            → visible (record env { now = later }) (get_object env k s).1 k ≡ some o.value)
  unfolding visible
  get_object-forgets_ttl env k o s v d e b m l =
      let g = get_object-Got env k s v in
      let s' = (get_object env k s).1 in
      let e' = ap₂ (λ x n. Dict.lookup k (get_or x n [])) g.expiry g.selected ∙ e in
      (
        e',
        λ later.
            rw (is_expired-absent later k s' e', stored-now env later k s')
              (g.kept k ∙ stored-backend env k o s d b m l),
      )

  ttl-eq :
      (env : Env Z) (k : PString) (now : ℕ) (s : Store Z)
      → ttl env k now s ≡ (
          if is_some (get_object env k s).0
          then (
            ttl_result
                (expire_if_need k now (get_object env k s).1).0
                (Dict.lookup k (expire_keys (expire_if_need k now (get_object env k s).1).1))
                now,
            (expire_if_need k now (get_object env k s).1).1,
          )
          else (negsuc 1, (get_object env k s).1))
  unfolding ttl exists_key
  ttl-eq env k now s = ground arith

  ttl_result-expire_if_need :
      (k : PString) (now : ℕ) (s : Store Z)
      → ttl_result
          (expire_if_need k now s).0
          (Dict.lookup k (expire_keys (expire_if_need k now s).1))
          now
        ≡ time_left now (Dict.lookup k (expire_keys s))
  unfolding expire_if_need ttl_result
  ttl_result-expire_if_need k now s = ground arith

  is_some-of_value : (o : Option (Object Z)) (x : Value Z) → value_of o ≡ some x → is_some o ≡ true
  unfolding value_of
  is_some-of_value none x h = cc
  is_some-of_value (some o) x h = refl

  -- On a valid store, for a key that is stored, `TTL` at the current time answers the time that is
  -- left as a 64-bit difference, -1 without an expiry time, and -2 once the time has passed.
  pub ttl_lem :
      (env : Env Z) (k : PString) (x : Value Z) (s : Store Z)
      → IsValid env s
      → stored env s k ≡ some x
      → (ttl env k env.now s).0 ≡ time_left env.now (Dict.lookup k (expire_keys s))
  ttl_lem env k x s v h =
      let g = get_object-Got env k s v in
      rw (ttl-eq env k env.now s, is_some-of_value (get_object env k s).0 x (g.value ∙ h))
        (ttl_result-expire_if_need k env.now (get_object env k s).1
          ∙ ap (time_left env.now) (ap₂ (λ l n. Dict.lookup k (get_or l n [])) g.expiry g.selected))

  -- Selecting a database that exists returns the one that was selected before, and selecting
  -- that one again leaves the store as it was.
  pub select_db_back :
      (n : ℕ) (s : Store Z)
      → n < length s.dbs
      → s.dbno < length s.dbs
      → ((select_db (pos n) s).0 ≡ pos s.dbno)
        × ((select_db (pos n) s).1.dbno ≡ n)
        × ((select_db (pos s.dbno) (select_db (pos n) s).1).1 ≡ s)
  unfolding select_db
  select_db_back n s h k = ground arith
