-- ===== src/Command/Refines.antt =====
-- The rule for a command that looks a key up by type: one case for each answer of the abstract
-- database. After the lookup the view is what it was, and the key has not expired.
use pika_panlei.Base.{
  ◌≡◌, refl, sym, subst, ap, ◌∙◌, inl, inr, true, false, Option, none, some, PString, if◌then◌else◌,
  Bool-cases, Option-cases,
}
use pika_panlei.Base.Dict
use pika_panlei.Base.Dict.{Dict, is_some}
use pika_panlei.Common.{PType, PError}
use pika_panlei.Store.{
  Value, Object, Env, Store, Fetched, found, failed, db, has_type, get_value_by_type,
}
use pika_panlei.Store.View.{visible, is_expired, IsValid}
use pika_panlei.Store.Fetch.{Outcome, value, error, expected, Fetches, get_value_by_type-Fetches}
use pika_panlei.Command.{Response, branch, with_value}

abbrev pub View : Type 0 → Type 0
View Z = PString → Option (Value Z)

module _ {Z : Type 0} where
  -- The state after a lookup of `key`.
  pub record Ready (env : Env Z) (key : PString) (f : View Z) (s : Store Z) : Type 0 where
    pub same : (j : PString) → visible env s j ≡ f j
    pub live : is_expired env.now s key ≡ false
    pub valid : IsValid env s

  pub record Present (env : Env Z) (key : PString) (f : View Z) (s : Store Z) : Type 0 where
    pub ready : Ready env key f s
    pub cached : is_some (Dict.lookup key (db s)) ≡ true

  -- A command's response: its code, its reply and the view that it leaves.
  pub record Answers (env : Env Z) (err : PError) (text : PString) (f : View Z) (r : Response Z)
      : Type 0 where
    pub code : r.code ≡ err
    pub reply : r.reply ≡ text
    pub view : (j : PString) → visible env r.store j ≡ f j
    pub valid : IsValid env r.store

  expected-none : (type : PType) → expected {Z = Z} type none ≡ error PError.not_exist
  unfolding expected
  expected-none type = refl

  expected-type :
      (type : PType) (v : Value Z)
      → expected type (some v) ≡ (if has_type type v then value v else error PError.type)
  unfolding expected
  expected-type type v = refl

  fetched-Ready :
      (env : Env Z) (key : PString) (type : PType) (s : Store Z) (r : Fetched Z × Store Z)
      → Fetches env key type s r
      → Ready env key (visible env s) r.1
  fetched-Ready env key type s r f = record { same = f.kept; live = f.live; valid = f.valid }

  error_of : Outcome Z → PError
  error_of (value v) = PError.ok
  error_of (error e) = e

  error_injective : {e e' : PError} → ◌≡◌ {A = Outcome Z} (error e) (error e') → e ≡ e'
  unfolding error_of
  error_injective p = ap error_of p

  value_injective : {v v' : Value Z} → ◌≡◌ {A = Outcome Z} (value v) (value v') → v ≡ v'
  value_injective {v} {v'} p = cc

  module _ {ℓ} {R : Type 0} (P : R → Type ℓ) (env : Env Z) (key : PString) (type : PType)
      (s : Store Z) (on_error : PError → Store Z → R) (on_value : Value Z → Store Z → R) where
    abbrev Rule : R → Type ℓ
    Rule r =
        (visible env s key ≡ none
          → (s' : Store Z) → Ready env key (visible env s) s'
          → P (on_error PError.not_exist s'))
        → ((v : Value Z)
            → visible env s key ≡ some v
            → has_type type v ≡ false
            → (s' : Store Z) → Ready env key (visible env s) s'
            → P (on_error PError.type s'))
        → ((v : Value Z)
            → visible env s key ≡ some v
            → has_type type v ≡ true
            → (s' : Store Z) → Present env key (visible env s) s'
            → P (on_value v s'))
        → P r

    failed-Rule :
        (e : PError) (s' : Store Z) → Fetches env key type s (failed e, s') → Rule (on_error e s')
    failed-Rule e s' f on_none on_wrong on_right = elim (Option-cases (visible env s key)) [
      | inl n ↦
          let p = error_injective (f.result ∙ ap (expected type) n ∙ expected-none type) in
          subst (λ x. P (on_error x s')) (sym p) (on_none n s' (fetched-Ready env key type s _ f))
      | inr (v, q) ↦
          let r = f.result ∙ ap (expected type) q ∙ expected-type type v in
          elim (Bool-cases (has_type type v)) [
            | inl t ↦ absurd (cc (r, t))
            | inr t ↦
                subst (λ x. P (on_error x s')) (sym (error_injective (rw t at r)))
                  (on_wrong v q t s' (fetched-Ready env key type s _ f))
          ]
    ]

    found-Rule :
        (o : Object Z) (s' : Store Z)
        → Fetches env key type s (found o, s')
        → Rule (on_value o.value s')
    found-Rule o s' f on_none on_wrong on_right = elim (Option-cases (visible env s key)) [
      | inl n ↦ absurd (cc (f.result ∙ ap (expected type) n ∙ expected-none type))
      | inr (v, q) ↦
          let r = f.result ∙ ap (expected type) q ∙ expected-type type v in
          elim (Bool-cases (has_type type v)) [
            | inr t ↦ absurd (cc (r, t))
            | inl t ↦
                subst (λ x. P (on_value x s')) (sym (value_injective (rw t at r)))
                  (on_right v q t s' (record {
                    ready = fetched-Ready env key type s _ f;
                    cached = rw (f.cached o refl);
                  }))
          ]
    ]

    branch-Rule :
        (r : Fetched Z × Store Z) → Fetches env key type s r → Rule (branch on_error on_value r)
    branch-Rule (failed e, s') f = failed-Rule e s' f
    branch-Rule (found o, s') f = found-Rule o s' f

    pub with_value-Rule : IsValid env s → Rule (with_value env key type s on_error on_value)
    unfolding with_value
    with_value-Rule valid =
        branch-Rule (get_value_by_type env key type true s)
          (get_value_by_type-Fetches env key type true s valid)

  module _ (env : Env Z) (key : PString) (type : PType) (s : Store Z) where
    -- A value that is found, by the state that the lookup leaves.
    pub Present-found :
        (r : Fetched Z × Store Z)
        → Fetches env key type s r
        → (v : Value Z) → visible env s key ≡ some v
        → has_type type v ≡ true
        → Present env key (visible env s) r.1
    Present-found (failed e, s') f v q t =
        absurd (cc (f.result ∙ ap (expected type) q ∙ expected-type type v, t))
    Present-found (found o, s') f v q t = record {
      ready = fetched-Ready env key type s _ f;
      cached = rw (f.cached o refl);
    }

    module _ {R : Type 0} (on_error : PError → Store Z → R) (on_value : Value Z → Store Z → R) where
      branch-found :
          (r : Fetched Z × Store Z)
          → Fetches env key type s r
          → (v : Value Z) → visible env s key ≡ some v
          → has_type type v ≡ true
          → branch on_error on_value r ≡ on_value v r.1
      branch-found (failed e, s') f v q t =
          absurd (cc (f.result ∙ ap (expected type) q ∙ expected-type type v, t))
      branch-found (found o, s') f v q t =
          ap (λ x. on_value x s')
            (value_injective (rw t at (f.result ∙ ap (expected type) q ∙ expected-type type v)))

      pub with_value-found :
          IsValid env s
          → (v : Value Z) → visible env s key ≡ some v
          → has_type type v ≡ true
          → with_value env key type s on_error on_value
            ≡ on_value v (get_value_by_type env key type true s).1
      unfolding with_value
      with_value-found valid =
          branch-found (get_value_by_type env key type true s)
            (get_value_by_type-Fetches env key type true s valid)
