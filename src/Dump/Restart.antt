-- ===== src/Dump/Restart.antt =====
-- `Load` into a store that is empty, of the file that `Save` wrote: what a restart of the server does.
use pika_panlei.Base.{
  ℕ, ◌^◌, ◌<◌, ◌≤◌, pos, ◌≡◌, refl, ◌∙◌, true, false, Option, none, some, [], ◌∷◌, PString, length,
  get_or, All, All-map, str_eq_iff, inl, inr, Option-cases, arith,
}
use pika_panlei.Base.Dict
use pika_panlei.Base.Dict.{Dict, is_some}
use pika_panlei.Store.{Value, Object, Env, Store, db, expire_keys}
use pika_panlei.Store.View.{value_of, is_expired}
use pika_panlei.SortedSet.{SortedSet}
use pika_panlei.Dump.{Codecs}
use pika_panlei.Dump.Packed.{IsLossless}
use pika_panlei.Dump.Objects.{IsBrief, IsShort}
use pika_panlei.Dump.File.{ended, max_db_num, save, load}
use pika_panlei.Dump.Replay.{time_of}
use pika_panlei.Dump.Stored.{IsReady}
use pika_panlei.Dump.Whole.{at_db}
use pika_panlei.Dump.Reload.{load-save}
use pika_panlei.Dump.Written.{save-Writes}
use pika_panlei.Dump.Kept.{IsKept}
use pika_panlei.Dump.Texts.{saved_text}
use pika_panlei.Dump.Restored.{over, times_of, IsEntry}
use pika_panlei.Dump.Copied.{replay_dbs-Copied}

-- Every entry of a map is found under its key.
unique-found :
    {V : Type 0} (d : Dict V) → Dict.IsUnique d → All (λ p. Dict.lookup p.0 d ≡ some p.1) d
unfolding Dict.lookup
unique-found [] u = tt
unique-found ((k, v) ∷ d) (n, u) = (
  ground (arith, str_eq_iff k k),
  All-map (λ p e. ground (arith, e, n, str_eq_iff k p.0)) d (unique-found d u),
)

module _ {S : Type 0} (c : Codecs S) where
  -- An entry that comes back as it was: its key and its texts are short and keep their spelling, it is
  -- no sorted set, and it has not expired.
  abbrev pub IsKeptEntry : ℕ → Store (SortedSet S) → PString × Object (SortedSet S) → Type 0
  IsKeptEntry now s (key, o) =
      IsShort c (key, o)
      × (saved_text c key ≡ key)
      × IsKept c o.value
      × (is_expired now s key ≡ false)
      × (time_of key s < 2 ^ 63)

  -- A store of at most 65536 databases with such entries, each under its own key.
  pub record IsPortable (now : ℕ) (s : Store (SortedSet S)) : Type 0 where
    pub selected : s.dbno < length s.dbs
    pub few : length s.dbs ≤ max_db_num
    pub unique : (m : ℕ) → Dict.IsUnique (get_or s.dbs m [])
    pub entries : (m : ℕ) → All (IsKeptEntry now (at_db m s)) (get_or s.dbs m [])

  -- A store with as many databases, and nothing in them.
  pub record IsBlank (s t : Store (SortedSet S)) : Type 0 where
    pub as_many : length s.dbs ≤ length t.dbs
    pub as_many_expired : length s.dbs ≤ length t.expired_dbs
    pub no_values : (m : ℕ) → get_or t.dbs m [] ≡ []
    pub no_times : (m : ℕ) → get_or t.expired_dbs m [] ≡ []

  module _ (env env' : Env (SortedSet S)) (later : env.now ≤ env'.now) where
    live_before :
        (s : Store (SortedSet S)) (key : PString)
        → is_expired env'.now s key ≡ false
        → is_expired env.now s key ≡ false
    unfolding is_expired
    live_before s key e = elim (Option-cases (Dict.lookup key (expire_keys s))) [
      | inl n ↦ rw (n, is_expired) refl
      | inr (when, n) ↦ ground (arith, n, e, later)
    ]

    IsReady-kept :
        (entries : Dict (Object (SortedSet S))) (s : Store (SortedSet S))
        → All (λ p. Dict.lookup p.0 (db s) ≡ some p.1) entries
        → All (IsKeptEntry env'.now s) entries
        → IsReady c env s entries
    IsReady-kept [] s f a = tt
    IsReady-kept ((key, o) ∷ entries) s (e, f) ((w, p, k, l, b), a) =
        (e, live_before s key l, b, IsReady-kept entries s f a)

  restored :
      (x y : Option (Value (SortedSet S))) (d : Dict (Object (SortedSet S))) (j : PString)
      → d ≡ []
      → y ≡ over x (value_of (Dict.lookup j d))
      → y ≡ x
  unfolding Dict.lookup value_of
  restored none y d j n e = rw n at e
  restored (some x) y d j n e = e

  restored_time :
      (x y : Option ℕ) (d : Dict ℕ) (j : PString) → d ≡ [] → y ≡ over x (Dict.lookup j d) → y ≡ x
  unfolding Dict.lookup
  restored_time none y d j n e = rw n at e
  restored_time (some x) y d j n e = e

  -- Where the compression loses nothing and fits into its buffer, and `%.6g` prints less than 253
  -- bytes: of a store of at most 65536 databases, whose entries are no sorted sets, have keys and
  -- texts shorter than 2^32 and fewer than 2^32 elements, keep their spelling, and have expiry
  -- times below 2^63 that have not passed when the file is loaded, `Save` writes a file, and
  -- `Load` of it into a store with as many databases, which are empty, returns 0, and gives every
  -- database the same keys with the same values, and every stored key the same expiry time.
  pub load-save-Restores :
      (env env' : Env (SortedSet S)) (s t : Store (SortedSet S))
      → IsLossless c
      → IsBrief c
      → env.now ≤ env'.now
      → IsPortable env'.now s
      → IsBlank s t
      → (file : PString) × (t' : Store (SortedSet S)) × (save c env s ≡ some file)
        × (load c env' (some file) t ≡ ended (pos 0) t')
        × ((n : ℕ) (key : PString)
            → n < length s.dbs
            → value_of (Dict.lookup key (db (at_db n t')))
              ≡ value_of (Dict.lookup key (db (at_db n s))))
        × ((n : ℕ) (key : PString)
            → n < length s.dbs
            → is_some (Dict.lookup key (db (at_db n s))) ≡ true
            → Dict.lookup key (expire_keys (at_db n t'))
              ≡ Dict.lookup key (expire_keys (at_db n s)))
  load-save-Restores env env' s t lossless brief later p b =
      let ready = λ (m : ℕ).
        IsReady-kept env env' later (get_or s.dbs m []) (at_db m s)
          (unique-found (get_or s.dbs m []) (p.unique m)) (p.entries m) in
      let short : (m : ℕ) → All (IsShort c) (get_or s.dbs m []) =
        λ m. All-map (λ x e. e.0) (get_or s.dbs m []) (p.entries m) in
      let kept : (m : ℕ) → All (IsEntry c env' (at_db m s)) (get_or s.dbs m []) =
        λ m. All-map (λ x e. (e.1, e.2, e.3)) (get_or s.dbs m []) (p.entries m) in
      let (file, e) = save-Writes c env s p.selected ready in
      let (t', r, w) =
        replay_dbs-Copied c env' (length s.dbs) 0 s t kept p.unique (omega (arith, b.as_many))
          (omega (arith, b.as_many_expired)) in
      (
        file,
        t',
        e,
        load-save c env env' lossless brief s t t' file p.selected b.as_many p.few ready short r e,
        λ n key h.
            restored _ _ (get_or t.dbs n []) key (b.no_values n)
              (w.values n key (omega arith) (omega (arith, h))),
        λ n key h k.
            let q : times_of (get_or s.dbs n []) (at_db n s) key
                ≡ Dict.lookup key (get_or s.expired_dbs n []) =
              rw k refl in
            restored_time _ _ (get_or t.expired_dbs n []) key (b.no_times n)
              (w.times n key (omega arith) (omega (arith, h)))
            ∙ q,
      )
