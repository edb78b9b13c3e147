-- ===== src/Keys/Rename.antt =====
-- `rename` of a key that has no expiry time.
use pika_panlei.Base.{
  ℕ, zero, ◌^◌, ◌<◌, negsuc, ◌≡◌, refl, ap, ◌∙◌, true, false, none, some, [], ◌∷◌, PString,
  if◌then◌else◌, arith, str_eq,
}
use pika_panlei.Base.Dict
use pika_panlei.Base.Dict.{Dict, is_some}
use pika_panlei.Common.{PType, PError}
use pika_panlei.Common.Reply.{reply_error}
use pika_panlei.Store.{
  Value, Env, Store, db, expire_keys, has_type, get_value_by_type, set_value, delete_key,
  clear_expire, expire_if_need, exists_key, get_object, ttl as store_ttl, ttl_result,
}
use pika_panlei.Store.View.{
  visible, is_expired, IsValid, expire_keys-expired_state, delete_key-IsValid,
}
use pika_panlei.Store.Fetch.{get_value_by_type-Fetches}
use pika_panlei.Store.Times.{get_value_by_type-times}
use pika_panlei.Command.Rules.{put_congr}
use pika_panlei.Store.Writes.{put, remove, visible-set_value, set_value-IsValid, visible-delete_key}
use pika_panlei.Store.Expiry.{is_expired-absent, clear_expire-eq, clear_expire-deletes}
use pika_panlei.Store.Clearing.{clear_expire-Cleared, clear_expire-none}
use pika_panlei.Command.Refines.{View, Answers, Present, with_value-found, Present-found}
use pika_panlei.Keys.{rename, rename_key, rename_value}

module _ {Z : Type 0} where
  ttl-persist :
      (env : Env Z) (k : PString) (s : Store Z)
      → is_some (Dict.lookup k (db s)) ≡ true
      → Dict.lookup k (expire_keys s) ≡ none
      → store_ttl env k env.now s ≡ (negsuc zero, s)
  unfolding store_ttl exists_key get_object expire_if_need ttl_result
  ttl-persist env k s h e = ground arith

  expire_keys-set_value :
      (k : PString) (x : Value Z) (s : Store Z) → expire_keys (set_value k x s) ≡ expire_keys s
  unfolding set_value
  expire_keys-set_value k x s = refl

  -- `rename_key` on a key that is visible and has no expiry time.
  rename_key-persist :
      (env : Env Z) (old new : PString) (v : Value Z) (s : Store Z)
      → IsValid env s
      → visible env s old ≡ some v
      → Dict.lookup old (expire_keys s) ≡ none
      → (s' : Store Z) × Present env old (visible env s) s'
        × (expire_keys s' ≡ expire_keys s)
        × (rename_key env old new true s ≡ (
          PError.ok,
          (delete_key old (clear_expire old (clear_expire new (set_value new v s')).1).1).1,
        ))
  unfolding rename_key rename_value has_type
  rename_key-persist env old new v s valid e t =
      let s' = (get_value_by_type env old PType.invalid true s).1 in
      let f = get_value_by_type-Fetches env old PType.invalid true s valid in
      let p : Present env old (visible env s) s' =
        Present-found env old PType.invalid s _ f v e refl in
      let same =
        get_value_by_type-times env old PType.invalid true s valid
          (is_expired-absent env.now old s t) in
      let t' : Dict.lookup old (expire_keys s') ≡ none = ap (Dict.lookup old) same ∙ t in
      (
        s',
        p,
        same,
        with_value-found env old PType.invalid s _ _ valid v e refl
            ∙ ap (rename_value env old new v) (ttl-persist env old s' p.cached t'),
      )

  timed :
      (k : PString) (s : Store Z) (when w : ℕ)
      → Dict.lookup k (expire_keys s) ≡ some when
      → Dict.lookup k (expire_keys s) ≡ some w
      → when < 2 ^ 64
      → w < 2 ^ 64
  timed k s when w h g b = ground arith

  is_expired-later :
      (now : ℕ) (k : PString) (when : ℕ) (s : Store Z)
      → Dict.lookup k (expire_keys s) ≡ some when
      → now < when
      → is_expired now s k ≡ false
  unfolding is_expired
  is_expired-later now k when s h l = rw (h, is_expired) (ground arith)

  clear_expire-absent :
      (env : Env Z) (k j : PString) (when : ℕ) (s : Store Z)
      → IsValid env s
      → Dict.lookup k (expire_keys s) ≡ some when
      → when < 2 ^ 64
      → Dict.lookup j (expire_keys s) ≡ none
      → Dict.lookup j (expire_keys (clear_expire k s).1) ≡ none
  clear_expire-absent env k j when s v h b t =
      rw (clear_expire-eq k when s h b) (ground (arith, expire_keys-expired_state env k j s v))

  remove-written :
      (env : Env Z) (k j : PString) (x : Value Z) (s : Store Z) (f g : View Z)
      → g j ≡ put k x (visible env s) j
      → visible env s j ≡ f j
      → remove k g j ≡ remove k f j
  unfolding put remove
  remove-written env k j x s f g h e = ground arith

  -- On a valid store, where the old key holds a value and neither of two different keys has an
  -- expiry time, `rename` answers ok and moves the value to the new key, and no other key changes.
  pub rename-Answers :
      (env : Env Z) (c old new : PString) (v : Value Z) (s : Store Z)
      → IsValid env s
      → str_eq old new ≡ false
      → visible env s old ≡ some v
      → Dict.lookup old (expire_keys s) ≡ none
      → Dict.lookup new (expire_keys s) ≡ none
      → Answers env PError.ok
          (reply_error PError.ok)
          (remove old (put new v (visible env s)))
          (rename env (c ∷ old ∷ new ∷ []) s)
  unfolding rename remove
  rename-Answers env c old new v s valid d e t t' =
      let (s', p, same, q) = rename_key-persist env old new v s valid e t in
      let s₁ = set_value new v s' in
      let times : expire_keys s₁ ≡ expire_keys s = expire_keys-set_value new v s' ∙ same in
      let c₁ : (clear_expire new s₁).1 ≡ s₁ =
        clear_expire-none new s₁ (ap (Dict.lookup new) times ∙ t') in
      let c₂ : (clear_expire old s₁).1 ≡ s₁ =
        clear_expire-none old s₁ (ap (Dict.lookup old) times ∙ t) in
      let v₁ = set_value-IsValid env new v s' p.ready.valid in
      let live = is_expired-absent env.now new s' (ap (Dict.lookup new) same ∙ t') in
      rw (q, c₁, c₂)
        (record {
          code = refl;
          reply = refl;
          view = λ j.
              visible-delete_key env old j s₁ v₁
              ∙ ap (λ x. if str_eq old j then none else x)
                  (visible-set_value env new j v s' p.ready.valid live
                    ∙ put_congr new v _ _ p.ready.same j);
          valid = delete_key-IsValid env old s₁ v₁;
        })

  -- On a valid store, where the old key holds a value and has no expiry time, and the new key has
  -- one that is to come and is below 2^64, `rename` answers ok and leaves neither key.
  pub rename-loses :
      (env : Env Z) (c old new : PString) (v : Value Z) (when : ℕ) (s : Store Z)
      → IsValid env s
      → str_eq old new ≡ false
      → visible env s old ≡ some v
      → Dict.lookup old (expire_keys s) ≡ none
      → Dict.lookup new (expire_keys s) ≡ some when
      → env.now < when
      → when < 2 ^ 64
      → Answers env PError.ok
          (reply_error PError.ok)
          (remove old (remove new (visible env s)))
          (rename env (c ∷ old ∷ new ∷ []) s)
  unfolding rename remove
  rename-loses env c old new v when s valid d e t t' later bound =
      let (s', p, same, q) = rename_key-persist env old new v s valid e t in
      let s₁ = set_value new v s' in
      let times : expire_keys s₁ ≡ expire_keys s = expire_keys-set_value new v s' ∙ same in
      let v₁ = set_value-IsValid env new v s' p.ready.valid in
      let h : Dict.lookup new (expire_keys s₁) ≡ some when = ap (Dict.lookup new) times ∙ t' in
      let s₂ = (clear_expire new s₁).1 in
      let v₂ = (clear_expire-Cleared env new s₁ v₁ (λ w g. timed new s₁ when w h g bound)).valid in
      let gone : Dict.lookup old (expire_keys s₂) ≡ none =
        clear_expire-absent env new old when s₁ v₁ h bound (ap (Dict.lookup old) times ∙ t) in
      let c₂ : (clear_expire old s₂).1 ≡ s₂ = clear_expire-none old s₂ gone in
      let live : is_expired env.now s' new ≡ false =
        is_expired-later env.now new when s' (ap (Dict.lookup new) same ∙ t') later in
      rw (q, c₂)
        (record {
          code = refl;
          reply = refl;
          view = λ j.
              visible-delete_key env old j s₂ v₂
              ∙ ap (λ x. if str_eq old j then none else x)
                  ((clear_expire-deletes env new j when s₁ v₁ h bound).1
                    ∙ remove-written env new j v s' (visible env s) (visible env s₁)
                        (visible-set_value env new j v s' p.ready.valid live) (p.ready.same j));
          valid = delete_key-IsValid env old s₂ v₂;
        })
