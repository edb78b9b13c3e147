-- ===== src/Command/Rules.antt =====
-- Rules for the responses of commands, and for `GET_OR_SET_…`.
use pika_panlei.Base.{
  ◌≡◌, refl, sym, subst, ap, ◌∙◌, true, false, Option, none, some, [], PString, if◌then◌else◌,
  arith, str_eq_iff, str_eq_refl,
}
use pika_panlei.Common.{PType, PError}
use pika_panlei.Common.Reply.{reply_error}
use pika_panlei.Store.{Value, Env, Store, has_type, set_value, write_value, delete_key}
use pika_panlei.Store.View.{visible, IsValid, delete_key-IsValid}
use pika_panlei.Store.Writes.{
  put, remove, visible-set_value, set_value-IsValid, is_expired-set_value, is_expired-write_value,
  present-set_value, visible-write_value, write_value-IsValid, visible-delete_key,
}
use pika_panlei.Command.{Response, with_value, or_fresh, respond, refuse}
use pika_panlei.Command.Refines.{View, Ready, Present, Answers, with_value-Rule}

module _ {Z : Type 0} where
  pub put_congr :
      (k : PString) (x : Value Z) (f g : View Z)
      → ((j : PString) → f j ≡ g j)
      → (j : PString) → put k x f j ≡ put k x g j
  unfolding put
  put_congr k x f g h j = rw (h j)

  pub put-put :
      (k : PString) (x y : Value Z) (f : View Z) (j : PString) → put k x (put k y f) j ≡ put k x f j
  unfolding put
  put-put k x y f j = ground arith

  pub put_self :
      (k : PString) (x : Value Z) (f : View Z) (j : PString) → f k ≡ some x → f j ≡ put k x f j
  unfolding put
  put_self k x f j h = ground (arith, str_eq_iff k j)

  pub put-lookup : (k : PString) (x : Value Z) (f : View Z) → put k x f k ≡ some x
  unfolding put
  put-lookup k x f = rw (str_eq_refl k)

  pub remove_congr :
      (k : PString) (f g : View Z)
      → ((j : PString) → f j ≡ g j)
      → (j : PString) → remove k f j ≡ remove k g j
  unfolding remove
  remove_congr k f g h j = rw (h j)

  pub remove-put :
      (k : PString) (x : Value Z) (f : View Z) (j : PString) → remove k (put k x f) j ≡ remove k f j
  unfolding put remove
  remove-put k x f j = ground arith

  module _ {env : Env Z} {key : PString} {f : View Z} {s : Store Z} where
    -- Nothing is written.
    pub answer-same :
        (e : PError) (t : PString) → Ready env key f s → Answers env e t f (respond e t s)
    answer-same e t r = record { code = refl; reply = refl; view = r.same; valid = r.valid }

    pub answer-refuse :
        (e : PError) → Ready env key f s → Answers env e (reply_error e) f (refuse e s)
    answer-refuse e r = record { code = refl; reply = refl; view = r.same; valid = r.valid }

    -- The value is written through the pointer.
    pub answer-write :
        (e : PError) (t : PString) (x : Value Z)
        → Present env key f s
        → Answers env e t (put key x f) (respond e t (write_value key x s))
    answer-write e t x p = record {
      code = refl;
      reply = refl;
      view = λ j.
          visible-write_value env key j x s p.ready.valid p.ready.live p.cached
          ∙ put_congr key x (visible env s) f p.ready.same j;
      valid = write_value-IsValid env key x s p.ready.valid;
    }

    -- The key is deleted.
    pub answer-delete :
        (e : PError) (t : PString)
        → Ready env key f s
        → Answers env e t (remove key f) (respond e t (delete_key key s).1)
    answer-delete e t r = record {
      code = refl;
      reply = refl;
      view =
          λ j. visible-delete_key env key j s r.valid ∙ remove_congr key (visible env s) f r.same j;
      valid = delete_key-IsValid env key s r.valid;
    }

    -- The state after a write through the pointer.
    pub written-Ready :
        (x : Value Z) → Present env key f s → Ready env key (put key x f) (write_value key x s)
    written-Ready x p = record {
      same = (answer-write PError.ok [] x p).view;
      live = is_expired-write_value env.now key key x s ∙ p.ready.live;
      valid = write_value-IsValid env key x s p.ready.valid;
    }

    pub set_value-Present :
        (x : Value Z) → Ready env key f s → Present env key (put key x f) (set_value key x s)
    set_value-Present x r = record {
      ready = record {
        same = λ j.
            visible-set_value env key j x s r.valid r.live
            ∙ put_congr key x (visible env s) f r.same j;
        live = is_expired-set_value env.now key key x s ∙ r.live;
        valid = set_value-IsValid env key x s r.valid;
      };
      cached = present-set_value env key x s r.valid;
    }

  pub answer-view :
      {env : Env Z} {e : PError} {t : PString} {f g : View Z} {r : Response Z}
      → ((j : PString) → f j ≡ g j)
      → Answers env e t f r
      → Answers env e t g r
  answer-view h a = record {
    code = a.code;
    reply = a.reply;
    view = λ j. a.view j ∙ h j;
    valid = a.valid;
  }

  -- The value that `GET_OR_SET_…` goes on with; `none` for a value of another type.
  unfoldable pub value_or : Value Z → PType → Option (Value Z) → Option (Value Z)
  value_or fresh type none = some fresh
  value_or fresh type (some v) = if has_type type v then some v else none

  value_or-none :
      (fresh v : Value Z) (type : PType) (o : Option (Value Z))
      → o ≡ none
      → value_or fresh type o ≡ some v
      → fresh ≡ v
  unfolding value_or
  value_or-none fresh v type o n h = ground arith

  value_or-some :
      (fresh v w : Value Z) (type : PType) (o : Option (Value Z))
      → o ≡ some w
      → value_or fresh type o ≡ some v
      → (has_type type w ≡ true) × (w ≡ v)
  unfolding value_or
  value_or-some fresh v w type o q h = ground arith

  some_injective : {v w : Value Z} → some v ≡ some w → v ≡ w
  some_injective {v} {w} p = cc

  Present-put :
      {env : Env Z} {key : PString} {f : View Z} {s : Store Z} (v : Value Z)
      → f key ≡ some v
      → Present env key f s
      → Present env key (put key v f) s
  Present-put {env} {key} {f} v q p = record {
    ready = record {
      same = λ j. p.ready.same j ∙ put_self key v f j q;
      live = p.ready.live;
      valid = p.ready.valid;
    };
    cached = p.cached;
  }

  module _ {ℓ} (P : Response Z → Type ℓ) (env : Env Z) (key : PString) (type : PType) (s : Store Z)
      (fresh : Value Z) (on_value : Value Z → Store Z → Response Z) (valid : IsValid env s) where
    -- The command goes on with the value of the view, or with a fresh one.
    pub get_or_set_rule :
        (v : Value Z)
        → value_or fresh type (visible env s key) ≡ some v
        → ((s' : Store Z) → Present env key (put key v (visible env s)) s' → P (on_value v s'))
        → P (with_value env key type s (or_fresh key fresh on_value) on_value)
    unfolding or_fresh
    get_or_set_rule v h k =
        with_value-Rule P env key type s (or_fresh key fresh on_value) on_value valid
          (λ n s' r.
            subst (λ x. P (on_value x (set_value key x s')))
              (sym (value_or-none fresh v type (visible env s key) n h))
              (k (set_value key v s') (set_value-Present v r)))
          (λ w q t s' r. absurd (cc (t, (value_or-some fresh v w type (visible env s key) q h).0)))
          (λ w q t s' p.
            let e = (value_or-some fresh v w type (visible env s key) q h).1 in
            subst (λ x. P (on_value x s')) (sym e) (k s' (Present-put v (q ∙ ap some e) p)))

    -- A value of another type is refused.
    pub get_or_set_wrong :
        value_or fresh type (visible env s key) ≡ none
        → ((s' : Store Z) → Ready env key (visible env s) s' → P (refuse PError.type s'))
        → P (with_value env key type s (or_fresh key fresh on_value) on_value)
    unfolding or_fresh value_or
    get_or_set_wrong h k =
        with_value-Rule P env key type s (or_fresh key fresh on_value) on_value valid
          (λ n s' r. absurd (cc (h, ap (value_or fresh type) n))) (λ w q t s' r. k s' r)
          (λ w q t s' p. absurd (cc (h, ap (value_or fresh type) q, t)))

  module _ {ℓ} {R : Type 0} (P : R → Type ℓ) (env : Env Z) (key : PString) (type : PType)
      (s : Store Z) (on_error : PError → Store Z → R) (on_value : Value Z → Store Z → R)
      (valid : IsValid env s) where
    -- The value is there and of the type.
    pub get_found :
        (v : Value Z)
        → visible env s key ≡ some v
        → has_type type v ≡ true
        → ((s' : Store Z) → Present env key (visible env s) s' → P (on_value v s'))
        → P (with_value env key type s on_error on_value)
    get_found v q t k =
        with_value-Rule P env key type s on_error on_value valid (λ n s' r. absurd (cc (n, q)))
          (λ w p u s' r. absurd (cc (u, t, ap (has_type type) (some_injective (sym p ∙ q)))))
          (λ w p u s' r. subst (λ x. P (on_value x s')) (some_injective (sym q ∙ p)) (k s' r))

    pub get_missing :
        visible env s key ≡ none
        → ((s' : Store Z) → Ready env key (visible env s) s' → P (on_error PError.not_exist s'))
        → P (with_value env key type s on_error on_value)
    get_missing n k =
        with_value-Rule P env key type s on_error on_value valid (λ _ s' r. k s' r)
          (λ w p u s' r. absurd (cc (n, p))) (λ w p u s' r. absurd (cc (n, p)))

    pub get_wrong :
        (v : Value Z)
        → visible env s key ≡ some v
        → has_type type v ≡ false
        → ((s' : Store Z) → Ready env key (visible env s) s' → P (on_error PError.type s'))
        → P (with_value env key type s on_error on_value)
    get_wrong v q t k =
        with_value-Rule P env key type s on_error on_value valid (λ n s' r. absurd (cc (n, q)))
          (λ w p u s' r. k s' r)
          (λ w p u s' r. absurd (cc (u, t, ap (has_type type) (some_injective (sym p ∙ q)))))
