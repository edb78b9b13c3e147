-- ===== src/Store/Times.antt =====
-- What lookups do to the expiry times.
use pika_panlei.Base.{
  ◌≡◌, refl, ap₂, ◌∙◌, inl, inr, Bool, false, Option, none, some, PString, get_or, arith, [],
}
use pika_panlei.Common.{PType}
use pika_panlei.Store.{Object, Env, Store, expire_keys, get_object, check_type, get_value_by_type}
use pika_panlei.Store.View.{is_expired, IsValid}
use pika_panlei.Store.Fetch.{get_object-Got, expire_if_need-result}

module _ {Z : Type 0} where
  expire_keys-check_type :
      (env : Env Z) (k : PString) (type : PType) (touch : Bool) (o : Option (Object Z))
      (s : Store Z)
      → expire_keys (check_type env k type touch o s).1 ≡ expire_keys s
  unfolding check_type
  expire_keys-check_type env k type touch none s = refl
  expire_keys-check_type env k type touch (some o) s = ground arith

  times-live :
      (env : Env Z) (k : PString) (type : PType) (touch : Bool) (s : Store Z)
      → IsValid env s
      → expire_keys (check_type env k type touch (get_object env k s).0 (get_object env k s).1).1
        ≡ expire_keys s
  times-live env k type touch s v =
      let g = get_object-Got env k s v in
      expire_keys-check_type env k type touch (get_object env k s).0 (get_object env k s).1
      ∙ ap₂ (λ l n. get_or l n []) g.expiry g.selected

  -- The lookup of a key that has not expired changes no expiry time.
  pub get_value_by_type-times :
      (env : Env Z) (k : PString) (type : PType) (touch : Bool) (s : Store Z)
      → IsValid env s
      → is_expired env.now s k ≡ false
      → expire_keys (get_value_by_type env k type touch s).1 ≡ expire_keys s
  unfolding get_value_by_type
  get_value_by_type-times env k type touch s v h = elim (expire_if_need-result k env.now s) [
    | inl (e, r) ↦ absurd (cc (e, h))
    | inr (e, r, q) ↦ elim r [
      | inl p ↦ rw (p, q, get_value_by_type) (times-live env k type touch s v)
      | inr p ↦ rw (p, q, get_value_by_type) (times-live env k type touch s v)
    ]
  ]
