-- ===== src/Store/Clearing.antt =====
-- `ClearExpire` before a write: whatever is left of the old key, the write decides what is seen.
use pika_panlei.Base.{
  ℕ, ◌^◌, ◌<◌, ◌≡◌, refl, ◌∙◌, inl, inr, false, Option, none, some, PString, arith, str_eq_refl,
  Option-cases,
}
use pika_panlei.Base.Dict
use pika_panlei.Base.Dict.{Dict}
use pika_panlei.Store.{Value, Env, Store, expire_keys, clear_expire, expire_if_need}
use pika_panlei.Store.View.{
  visible, is_expired, IsValid, expired_state-IsValid, expire_keys-expired_state,
}
use pika_panlei.Store.Writes.{put, remove}
use pika_panlei.Store.Expiry.{is_expired-absent, clear_expire-eq, clear_expire-deletes}

module _ {Z : Type 0} where
  -- The expiry time of a key fits a `uint64_t`.
  abbrev pub IsTimed : PString → Store Z → Type 0
  IsTimed key s = (when : ℕ) → Dict.lookup key (expire_keys s) ≡ some when → when < 2 ^ 64

  -- The key has no expiry time, and other keys are as they were.
  pub record Cleared (env : Env Z) (key : PString) (s s' : Store Z) : Type 0 where
    pub valid : IsValid env s'
    pub absent : Dict.lookup key (expire_keys s') ≡ none
    pub live : is_expired env.now s' key ≡ false
    pub put :
        (x : Value Z) (j : PString) → put key x (visible env s') j ≡ put key x (visible env s) j
    pub gone : (j : PString) → remove key (visible env s') j ≡ remove key (visible env s) j

  pub clear_expire-none :
      (key : PString) (s : Store Z)
      → Dict.lookup key (expire_keys s) ≡ none
      → (clear_expire key s).1 ≡ s
  unfolding clear_expire expire_if_need
  clear_expire-none key s h = ground arith

  put-remove :
      (k : PString) (x : Value Z) (f g : PString → Option (Value Z)) (j : PString)
      → g j ≡ remove k f j
      → put k x g j ≡ put k x f j
  unfolding put remove
  put-remove k x f g j h = ground arith

  remove-remove :
      (k : PString) (f g : PString → Option (Value Z)) (j : PString)
      → g j ≡ remove k f j
      → remove k g j ≡ remove k f j
  unfolding remove
  remove-remove k f g j h = ground arith

  pub clear_expire-Cleared :
      (env : Env Z) (key : PString) (s : Store Z)
      → IsValid env s
      → IsTimed key s
      → Cleared env key s (clear_expire key s).1
  clear_expire-Cleared env key s v t = elim (Option-cases (Dict.lookup key (expire_keys s))) [
    | inl e ↦ rw (clear_expire-none key s e) (record {
      valid = v;
      absent = e;
      live = is_expired-absent env.now key s e;
      put = λ x j. refl;
      gone = λ j. refl;
    })
    | inr (when, e) ↦
        let d = λ (j : PString). (clear_expire-deletes env key j when s v e (t when e)).1 in
        let q = clear_expire-eq key when s e (t when e) in
        let absent : Dict.lookup key (expire_keys (clear_expire key s).1) ≡ none =
          rw q (expire_keys-expired_state env key key s v ∙ rw (str_eq_refl key)) in
        record {
          valid = rw q (expired_state-IsValid env key s v);
          absent = absent;
          live = is_expired-absent env.now key (clear_expire key s).1 absent;
          put =
              λ x j. put-remove key x (visible env s) (visible env (clear_expire key s).1) j (d j);
          gone =
              λ j. remove-remove key (visible env s) (visible env (clear_expire key s).1) j (d j);
        }
  ]
