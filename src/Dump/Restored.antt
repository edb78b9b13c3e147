-- ===== src/Dump/Restored.antt =====
-- What the replay of a database leaves in the store that loads it.
mod Overwritten
pub use Overwritten.{over, Written}
use pika_panlei.Base.{
  ℕ, ◌<◌, ◌≡◌, refl, ap, ◌∙◌, true, false, Option, none, some, [], ◌∷◌, PString, length, All, ltb,
  ◌==◌, if◌then◌else◌, str_eq_iff, inl, inr, Option-cases, arith,
}
use pika_panlei.Base.Dict
use pika_panlei.Base.Dict.{Dict, is_some}
use pika_panlei.Store.{Value, Object, Env, Store, expire_keys}
use pika_panlei.Store.View.{value_of, is_expired}
use pika_panlei.SortedSet.{SortedSet}
use pika_panlei.Dump.{Codecs}
use pika_panlei.Dump.Objects.{saved_value}
use pika_panlei.Dump.Kept.{IsKept, saved_value-kept}
use pika_panlei.Dump.Texts.{saved_text}
use pika_panlei.Dump.File.{store_entry}
use pika_panlei.Dump.Replay.{time_of}
use pika_panlei.Dump.Stored.{replay}
use Overwritten.{
  at_key, Frame-refl, set_value-Written, set_expire-Written, Written-eq, Written-trans,
}

-- The expiry times of a source, for the keys of the entries.
abbrev pub times_of : {Z : Type 0} → Dict (Object Z) → Store Z → PString → Option ℕ
times_of entries s j =
    if is_some (Dict.lookup j entries) then Dict.lookup j (expire_keys s) else none

module _ {S : Type 0} (c : Codecs S) (env : Env (SortedSet S)) where
  at_key-none : {A : Type 0} (key j : PString) → none ≡ at_key {A = A} key none j
  at_key-none key j = ground arith

  time_of-none :
      (key : PString) (s : Store (SortedSet S))
      → Dict.lookup key (expire_keys s) ≡ none
      → time_of key s ≡ 0
  unfolding time_of
  time_of-none key s n = rw (n, time_of) refl

  time_of-some :
      (key : PString) (s : Store (SortedSet S)) (when : ℕ)
      → Dict.lookup key (expire_keys s) ≡ some when
      → time_of key s ≡ when
  unfolding time_of
  time_of-some key s when n = rw (n, time_of) refl

  replay-cons :
      (key : PString) (o : Object (SortedSet S)) (v : Value (SortedSet S))
      (entries : Dict (Object (SortedSet S))) (s t : Store (SortedSet S))
      → saved_value c o.value ≡ some v
      → saved_text c key ≡ key
      → replay c env ((key, o) ∷ entries) s t
        ≡ replay c env entries s (store_entry c env (time_of key s) key v t)
  unfolding replay
  replay-cons key o v entries s t e p =
      rw (e, replay) (ap (λ k. replay c env entries s (store_entry c env (time_of key s) k v t)) p)

  store_entry-Written :
      (key : PString) (v : Value (SortedSet S)) (s t : Store (SortedSet S))
      → t.dbno < length t.dbs
      → t.dbno < length t.expired_dbs
      → is_expired env.now s key ≡ false
      → Written
          (at_key key (some v))
          (at_key key (Dict.lookup key (expire_keys s)))
          t
          (store_entry c env (time_of key s) key v t)
  unfolding store_entry is_expired
  store_entry-Written key v s t h k l = elim (Option-cases (Dict.lookup key (expire_keys s))) [
    | inl n ↦
        rw (n, time_of-none key s n)
          (Written-eq _ (at_key key (some v)) _ (at_key key none) t _ (λ j. refl) (at_key-none key)
            (set_value-Written key v t h))
    | inr (when, n) ↦
        let z : (when == 0) ≡ false = ground (arith, n, l) in
        let o : ltb env.now when ≡ true = ground (arith, n, l) in
        rw (n, time_of-some key s when n, z, o) (set_expire-Written key v when t h k)
  ]

  -- The key keeps its spelling, the object comes back as it was, and the key has not expired.
  abbrev pub IsEntry : Store (SortedSet S) → PString × Object (SortedSet S) → Type 0
  IsEntry s (key, o) =
      (saved_text c key ≡ key) × IsKept c o.value × (is_expired env.now s key ≡ false)

  pub replay-Written :
      (entries : Dict (Object (SortedSet S))) (s t : Store (SortedSet S))
      → All (IsEntry s) entries
      → Dict.IsUnique entries
      → t.dbno < length t.dbs
      → t.dbno < length t.expired_dbs
      → (t' : Store (SortedSet S)) × (replay c env entries s t ≡ some t')
        × Written (λ j. value_of (Dict.lookup j entries)) (times_of entries s) t t'
  unfolding replay Dict.lookup value_of
  replay-Written [] s t a u h k =
      (t, refl, record { frame = Frame-refl t; values = λ j. refl; times = λ j. refl })
  replay-Written ((key, o) ∷ entries) s t ((p, q, l), a) (n, u) h k =
      let t₁ = store_entry c env (time_of key s) key o.value t in
      let w = store_entry-Written key o.value s t h k l in
      let h' : t₁.dbno < length t₁.dbs = omega (arith, h, w.frame.same_db, w.frame.same_dbs) in
      let k' : t₁.dbno < length t₁.expired_dbs =
        omega (arith, k, w.frame.same_db, w.frame.same_expired) in
      let (t', e, w') = replay-Written entries s t₁ a u h' k' in
      (
        t',
        replay-cons key o o.value entries s t (saved_value-kept c o.value q) p ∙ e,
        Written-eq _ _ _ _ t t' (λ j. ground (arith, str_eq_iff key j, n))
            (λ j. ground (arith, str_eq_iff key j, n)) (Written-trans _ _ _ _ t t₁ t' w w'),
      )
