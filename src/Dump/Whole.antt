-- ===== src/Dump/Whole.antt =====
-- A whole dump file is loaded as the replay of its databases.
use pika_panlei.Base.{
  All, ℕ, zero, suc, ◌<◌, ◌≤◌, pos, negsuc, ◌≡◌, refl, sym, ap, ap₂, ◌∙◌, false, Option, none, some,
  [], ◌∷◌, ◌++◌, append_assoc, PString, length, length-append, length-set, ltb, ◌==◌, if◌then◌else◌,
  inl, inr, Bool-cases, Option-cases, arith,
}
use pika_panlei.Base.Dict.{Dict}
use pika_panlei.Store.{Value, Object, Env, Store, db, select_db, set_value, set_expire, mark}
use pika_panlei.SortedSet.{SortedSet}
use pika_panlei.Dump.{Codecs}
use pika_panlei.Dump.Save.{save_length, ◌then◌}
use pika_panlei.Dump.Packed.{IsLossless, then-eq, load_size-save_length}
use pika_panlei.Dump.Texts.{saved_text}
use pika_panlei.Dump.Objects.{IsBrief, IsShort, saved_value}
use pika_panlei.Dump.File.{
  ended, max_db_num, save_entries, save_db, store_entry, selected, select_loaded, load_round,
  continue, load_loop, load_from,
}
use pika_panlei.Dump.Replay.{time_of, load_from-again}
use pika_panlei.Dump.Stored.{IsReady, replay, save_entries-replay}

-- The store with another database selected.
abbrev pub at_db : {Z : Type 0} → ℕ → Store Z → Store Z
at_db n s = record s { dbno = n }

pub select-at_db :
    {Z : Type 0} (n : ℕ) (s : Store Z)
    → n < length s.dbs
    → select_db (pos n) s ≡ (pos s.dbno, at_db n s)
unfolding select_db
select-at_db n s h = elim (Bool-cases (n == s.dbno)) [
  | inl e ↦ let e' : n ≡ s.dbno = ground arith in rw e (ap (λ m. (pos s.dbno, at_db m s)) (sym e'))
  | inr e ↦ ground (arith, e)
]

pub select_out :
    {Z : Type 0} (n : ℕ) (s : Store Z)
    → s.dbno < length s.dbs
    → length s.dbs ≤ n
    → select_db (pos n) s ≡ (negsuc 0, s)
unfolding select_db
select_out n s h k = ground arith

module _ {S : Type 0} (c : Codecs S) where
  unfoldable pub replay_db :
      Env (SortedSet S)
      → ℕ
      → Store (SortedSet S)
      → Store (SortedSet S)
      → Option (Store (SortedSet S))
  unfolding replay
  replay_db env n s t = if length (db s) == 0 then some t else replay c env (db s) s (at_db n t)

  -- The next databases, as many as the first number says.
  unfoldable pub replay_dbs :
      Env (SortedSet S)
      → ℕ
      → ℕ
      → Store (SortedSet S)
      → Store (SortedSet S)
      → Option (Store (SortedSet S))
  unfolding replay_db
  replay_dbs env zero n s t = some t
  replay_dbs env (suc more) n s t = elim (replay_db env n (at_db n s) t) [
    | none ↦ none
    | some t' ↦ replay_dbs env more (suc n) (at_db n s) t'
  ]

  length-set_value :
      (key : PString) (v : Value (SortedSet S)) (t : Store (SortedSet S))
      → length (set_value key v t).dbs ≡ length t.dbs
  unfolding set_value mark
  length-set_value key v t = length-set t.dbs t.dbno _

  length-set_expire :
      (key : PString) (time : ℕ) (t : Store (SortedSet S))
      → length (set_expire key time t).dbs ≡ length t.dbs
  unfolding set_expire
  length-set_expire key time t = refl

  length-store_entry :
      (env : Env (SortedSet S)) (time : ℕ) (key : PString) (v : Value (SortedSet S))
      (t : Store (SortedSet S))
      → length (store_entry c env time key v t).dbs ≡ length t.dbs
  unfolding store_entry
  length-store_entry env time key v t =
      let e = length-set_value key v t in
      let f = length-set_expire key time (set_value key v t) ∙ e in
      elim (Bool-cases (time == 0)) [
        | inl z ↦ rw z e
        | inr z ↦ elim (Bool-cases (ltb env.now time)) [
          | inl l ↦ rw (z, l) f
          | inr l ↦ rw (z, l) refl
        ]
      ]

  length-replay :
      (env : Env (SortedSet S)) (entries : Dict (Object (SortedSet S)))
      (s t t' : Store (SortedSet S))
      → replay c env entries s t ≡ some t'
      → length t'.dbs ≡ length t.dbs
  unfolding replay
  length-replay env [] s t t' e = ground (arith, e)
  length-replay env ((key, o) ∷ entries) s t t' e = elim (Option-cases (saved_value c o.value)) [
    | inl n ↦ ground (arith, e)
    | inr (v, n) ↦
        let t₁ = store_entry c env (time_of key s) (saved_text c key) v t in
        length-replay env entries s t₁ t' (ground (arith, e))
        ∙ length-store_entry env (time_of key s) (saved_text c key) v t
  ]

  round_select :
      (env : Env (SortedSet S)) (n : ℕ) (nb more : PString) (t : Store (SortedSet S))
      → save_length n ≡ some nb
      → n < length t.dbs
      → n ≤ max_db_num
      → load_from c env 0 t (254 ∷ (nb ++ more)) ≡ load_from c env 0 (at_db n t) more
  unfolding load_round select_loaded selected
  round_select env n nb more t e h k =
      let l : ltb max_db_num n ≡ false = ground arith in
      load_from-again c env 254 0 0 t (at_db n t) (nb ++ more) more
        (rw (load_size-save_length c n nb (omega arith) e more, l)
          (ap (λ p. selected c env p.0 0 t p.1 more) (select-at_db n t h)))
        (omega (arith, length-append nb more))

  pub round_end :
      (env : Env (SortedSet S)) (t : Store (SortedSet S)) (rest : PString)
      → load_from c env 0 t (255 ∷ rest) ≡ ended (pos 0) t
  unfolding load_loop load_round continue
  round_end env t rest = refl

  pub saved_db :
      (env env' : Env (SortedSet S)) (n : ℕ) (s t t' : Store (SortedSet S)) (bs more : PString)
      → IsLossless c
      → IsBrief c
      → n < length t.dbs
      → n ≤ max_db_num
      → IsReady c env s (db s)
      → All (IsShort c) (db s)
      → replay_db env' n s t ≡ some t'
      → save_db c env n s ≡ some bs
      → load_from c env' 0 t (bs ++ more) ≡ load_from c env' 0 t' more
  unfolding save_db replay_db
  saved_db env env' n s t t' bs more lossless brief h k ready short r e =
      elim (Bool-cases (length (db s) == 0)) [
        | inl z ↦
            let t₀ : t ≡ t' = ground (arith, r) in
            let b₀ : bs ≡ [] = ground (arith, e) in
            ap₂ (λ x b. load_from c env' 0 x (b ++ more)) t₀ b₀
        | inr z ↦
            let e' : some (254 ∷ []) then save_length n then save_entries c env (db s) s ≡ some bs =
              ground (arith, e) in
            let r' : replay c env' (db s) s (at_db n t) ≡ some t' = ground (arith, r) in
            let (x, y, p, q, shape) = then-eq (some (254 ∷ [])) _ bs e' in
            let (nb, es, p', q', shape') =
              then-eq (save_length n) (save_entries c env (db s) s) y q in
            let bs' : bs ≡ 254 ∷ (nb ++ es) = ground (arith, p, shape, shape') in
            ap (λ b. load_from c env' 0 t (b ++ more)) bs'
            ∙ ap (λ b. load_from c env' 0 t (254 ∷ b)) (append_assoc nb es more)
            ∙ round_select env' n nb (es ++ more) t p' h k
            ∙ save_entries-replay c env env' (db s) s (at_db n t) t' es more lossless brief ready
                short r' q'
      ]

  pub length-replay_db :
      (env : Env (SortedSet S)) (n : ℕ) (s t t' : Store (SortedSet S))
      → replay_db env n s t ≡ some t'
      → length t'.dbs ≡ length t.dbs
  unfolding replay_db
  length-replay_db env n s t t' e = elim (Bool-cases (length (db s) == 0)) [
    | inl z ↦ ground (arith, e)
    | inr z ↦ length-replay env (db s) s (at_db n t) t' (ground (arith, e))
  ]
