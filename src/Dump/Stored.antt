-- ===== src/Dump/Stored.antt =====
-- A saved file, loaded by a store with as many databases.
use pika_panlei.Base.{
  All, length, ℕ, suc, ◌+◌, ◌-◌, ◌%◌, ◌^◌, ◌<◌, ◌≡◌, ◌⊎◌, refl, sym, ap, ap₂, ◌∙◌, true, false,
  Option, none, some, [], ◌∷◌, ◌++◌, append_assoc, PString, ◌==◌, if◌then◌else◌, inl, inr,
  Bool-cases, Option-cases, arith,
}
use pika_panlei.Base.Dict
use pika_panlei.Base.Dict.{Dict}
use pika_panlei.Store.{Value, Object, Env, Store, db, expire_keys, ttl}
use pika_panlei.Store.View.{is_expired}
use pika_panlei.SortedSet.{SortedSet}
use pika_panlei.Dump.{Codecs}
use pika_panlei.Dump.Input.{word}
use pika_panlei.Dump.Save.{type_byte, ◌then◌}
use pika_panlei.Dump.Packed.{IsLossless, then-eq}
use pika_panlei.Dump.Texts.{saved_text}
use pika_panlei.Dump.Objects.{IsBrief, IsWritable, IsShort, saved_value}
use pika_panlei.Dump.File.{save_time, save_entry, write_entry, save_entries, store_entry, load_from}
use pika_panlei.Dump.Replay.{time_of, left, ttl-live, load_from-entry, round_time}

abbrev time_bytes : ℕ → PString
time_bytes time = if time == 0 then [] else 252 ∷ word 8 time

module _ {S : Type 0} (c : Codecs S) where
  save_time-left :
      (env : Env (SortedSet S)) (time : ℕ)
      → (time == 0) ≡ true ⊎ (env.now < time)
      → time < 2 ^ 63
      → save_time c env (left env.now time) ≡ time_bytes time
  unfolding save_time
  save_time-left env time (inl e) k = rw e refl
  save_time-left env time (inr h) k =
      let o : (time == 0) ≡ false = ground arith in
      let p : time - env.now ≡ suc (time - env.now - 1) = omega arith in
      let q : (suc (time - env.now - 1) + env.now) % 2 ^ 64 ≡ time = omega arith in
      rw (o, p) (ap (λ x. 252 ∷ word 8 x) q)

  time_of-live :
      (now : ℕ) (key : PString) (s : Store (SortedSet S))
      → is_expired now s key ≡ false
      → (time_of key s == 0) ≡ true ⊎ (now < time_of key s)
  unfolding is_expired time_of
  time_of-live now key s e = elim (Option-cases (Dict.lookup key (expire_keys s))) [
    | inl n ↦ inl (ground (arith, n))
    | inr (when, n) ↦ inr (ground (arith, n))
  ]

  -- The entry is cached and has not expired, and its time fits into 63 bits.
  abbrev pub IsReady :
      Env (SortedSet S) → Store (SortedSet S) → Dict (Object (SortedSet S)) → Type 0
  IsReady env s [] = Unit
  IsReady env s ((key, o) ∷ entries) =
      (Dict.lookup key (db s) ≡ some o)
      × (is_expired env.now s key ≡ false)
      × (time_of key s < 2 ^ 63)
      × IsReady env s entries

  -- What the entries are for the loading store, each under the spelling of its key, with its expiry
  -- time; `none` where an object cannot be rebuilt.
  unfoldable pub replay :
      Env (SortedSet S)
      → Dict (Object (SortedSet S))
      → Store (SortedSet S)
      → Store (SortedSet S)
      → Option (Store (SortedSet S))
  unfolding saved_value saved_text time_of store_entry
  replay env [] s t = some t
  replay env ((key, o) ∷ entries) s t = elim (saved_value c o.value) [
    | none ↦ none
    | some v ↦ replay env entries s (store_entry c env (time_of key s) (saved_text c key) v t)
  ]

  load_from-time :
      (env : Env (SortedSet S)) (time : ℕ) (t : Store (SortedSet S)) (rest : PString)
      → time < 2 ^ 63
      → load_from c env 0 t (time_bytes time ++ rest) ≡ load_from c env time t rest
  load_from-time env time t rest h = elim (Bool-cases (time == 0)) [
    | inl e ↦ let z : time ≡ 0 = ground arith in rw z refl
    | inr e ↦ rw e (round_time c env time t rest h)
  ]

  saved_entry :
      (env env' : Env (SortedSet S)) (time : ℕ) (key bs : PString) (v v' : Value (SortedSet S))
      (t : Store (SortedSet S)) (more : PString)
      → IsLossless c
      → IsBrief c
      → length key < 2 ^ 32
      → IsWritable c v
      → time < 2 ^ 63
      → (time == 0) ≡ true ⊎ (env.now < time)
      → saved_value c v ≡ some v'
      → save_entry c env (left env.now time) key v ≡ some bs
      → load_from c env' 0 t (bs ++ more)
        ≡ load_from c env' 0 (store_entry c env' time (saved_text c key) v' t) more
  unfolding save_entry
  saved_entry env env' time key bs v v' t more lossless brief k m h l w e =
      let (x, y, p, q, r) = then-eq (some (save_time c env (left env.now time))) _ bs e in
      let (x', y', p', q', r') = then-eq (some (type_byte v ∷ [])) _ y q in
      let tb : x ≡ time_bytes time = ground (arith, p, save_time-left env time l h) in
      let ty : y ≡ type_byte v ∷ y' = ground (arith, p', r') in
      ap (load_from c env' 0 t) (
        ap (λ b. b ++ more) (r ∙ ap₂ ◌++◌ tb ty)
        ∙ append_assoc (time_bytes time) (type_byte v ∷ y') more)
      ∙ load_from-time env' time t (type_byte v ∷ (y' ++ more)) h
      ∙ load_from-entry c env' time key y' v v' t more lossless brief k m h w q'

  write_entry-left :
      (env : Env (SortedSet S)) (time : ℕ) (key : PString) (v : Value (SortedSet S))
      (rest : Option PString)
      → write_entry c env (left env.now time) key v rest
        ≡ (save_entry c env (left env.now time) key v then rest)
  unfolding write_entry
  write_entry-left env time key v rest = elim (Bool-cases (time == 0)) [
    | inl z ↦ rw z refl
    | inr z ↦ rw z refl
  ]

  pub save_entries-cons :
      (env : Env (SortedSet S)) (key : PString) (o : Object (SortedSet S))
      (entries : Dict (Object (SortedSet S))) (s : Store (SortedSet S)) (time : ℕ)
      → ttl env key env.now s ≡ (left env.now time, s)
      → save_entries c env ((key, o) ∷ entries) s
        ≡ (save_entry c env (left env.now time) key o.value then save_entries c env entries s)
  unfolding save_entries
  save_entries-cons env key o entries s time e =
      ap (λ p. write_entry c env p.0 key o.value (save_entries c env entries p.1)) e
      ∙ write_entry-left env time key o.value (save_entries c env entries s)

  pub save_entries-replay :
      (env env' : Env (SortedSet S)) (entries : Dict (Object (SortedSet S)))
      (s t t' : Store (SortedSet S)) (bs more : PString)
      → IsLossless c
      → IsBrief c
      → IsReady env s entries
      → All (IsShort c) entries
      → replay env' entries s t ≡ some t'
      → save_entries c env entries s ≡ some bs
      → load_from c env' 0 t (bs ++ more) ≡ load_from c env' 0 t' more
  unfolding replay save_entries
  save_entries-replay env env' [] s t t' bs more lossless brief ready short r e =
      let t₀ : t ≡ t' = ground (arith, r) in
      let b₀ : bs ≡ [] = ground (arith, e) in ap₂ (λ x b. load_from c env' 0 x (b ++ more)) t₀ b₀
  save_entries-replay env env' ((key, o) ∷ entries) s t t' bs more lossless brief (h, l, b, ready)
        ((k, m), short) r e =
      elim (Option-cases (saved_value c o.value)) [
        | inl n ↦ ground (arith, r)
        | inr (v, n) ↦
            let time = time_of key s in
            let t₁ = store_entry c env' time (saved_text c key) v t in
            let r' : replay env' entries s t₁ ≡ some t' = ground (arith, r) in
            let (x, y, p, q, shape) =
              then-eq (save_entry c env (left env.now time) key o.value)
                (save_entries c env entries s) bs
                (sym (save_entries-cons env key o entries s time (ttl-live env key o s h l b))
                  ∙ e) in
            ap (load_from c env' 0 t) (ap (λ z. z ++ more) shape ∙ append_assoc x y more)
            ∙ saved_entry env env' time key x o.value v t (y ++ more) lossless brief k m b
                (time_of-live env.now key s l) n p
            ∙ save_entries-replay env env' entries s t₁ t' y more lossless brief ready short r' q
      ]
