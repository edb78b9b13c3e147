-- ===== src/Dump/Effects.antt =====
-- What `PDBSaver::Save` does to the store, and `SaveDoneHandler`.
use pika_panlei.Base.{
  ℕ, zero, suc, ◌+◌, ◌-◌, ◌<◌, ℤ, pos, negsuc, ◌≡◌, refl, ap, ◌∙◌, Bool, false, ◌&&◌, Option, none,
  some, [], ◌∷◌, length, ◌==◌, if◌then◌else◌, inl, inr, Bool-cases, arith,
}
use pika_panlei.Base.Dict.{Dict}
use pika_panlei.Store.{Object, Env, Store, db, ttl, select_db}
use pika_panlei.SortedSet.{SortedSet}
use pika_panlei.Dump.{Codecs}
use pika_panlei.Dump.Replay.{time_of, left, ttl-live}
use pika_panlei.Dump.Stored.{IsReady}
use pika_panlei.Dump.Whole.{at_db, select-at_db, select_out}

-- `g_lastPDBSave`, `PStore::dirty_` and `g_qdbPid`.
pub record SaveState : Type 0 where
  pub last_save : ℕ
  pub dirty : ℕ
  pub child : ℤ

abbrev is_zero : ℤ → Bool
is_zero (pos n) = n == 0
is_zero (negsuc n) = false

unfoldable pub save_done_handler : (exit_ret what_signal : ℤ) → ℕ → SaveState → SaveState
save_done_handler exit_ret what_signal time g =
    if is_zero exit_ret && is_zero what_signal
    then record { last_save = time; dirty = 0; child = negsuc 0 }
    else record g { child = negsuc 0 }

-- By what `TTL` answers: behind a key that has expired, and so is deleted, the iterator of the loop is
-- not valid, which `none` stands for.
unfoldable pub leave_entry {ℓ} : {A : Type ℓ} → ℤ → Option A → Option A
leave_entry (negsuc (suc zero)) rest = none
leave_entry time rest = rest

module _ {Z : Type 0} (env : Env Z) where
  -- The loop over the entries asks `TTL` for each.
  unfoldable pub leave_entries : Dict (Object Z) → Store Z → Option (Store Z)
  unfolding leave_entry
  leave_entries [] s = some s
  leave_entries ((key, obj) ∷ entries) s =
      let (time, s') = ttl env key env.now s in leave_entry time (leave_entries entries s')

  unfoldable pub leave_db : Store Z → Option (Store Z)
  unfolding leave_entries
  leave_db s = if length (db s) == 0 then some s else leave_entries (db s) s

  -- By what `SelectDB` returns.
  unfoldable pub leave_next : (Store Z → Option (Store Z)) → ℤ → Store Z → Option (Store Z)
  unfolding leave_db
  leave_next loop (negsuc n) s = some s
  leave_next loop (pos n) s = elim (leave_db s) [ none ↦ none | some s' ↦ loop s' ]

  unfoldable pub leave_dbs : ℕ → ℕ → Store Z → Option (Store Z)
  unfolding leave_next
  leave_dbs zero dbno s = none
  leave_dbs (suc fuel) dbno s =
      let (r, s') = select_db (pos dbno) s in leave_next (leave_dbs fuel (suc dbno)) r s'

  -- The store behind `Save`.
  unfoldable pub leave : Store Z → Option (Store Z)
  unfolding leave_dbs
  leave s = leave_dbs (suc (length s.dbs)) 0 s

module _ {S : Type 0} (c : Codecs S) (env : Env (SortedSet S)) where
  leave_entry-left :
      (time : ℕ) (s : Store (SortedSet S)) → leave_entry (left env.now time) (some s) ≡ some s
  unfolding leave_entry
  leave_entry-left time s = elim (Bool-cases (time == 0)) [ inl z ↦ rw z refl | inr z ↦ rw z refl ]

  leave_entries-same :
      (entries : Dict (Object (SortedSet S))) (s : Store (SortedSet S))
      → IsReady c env s entries
      → leave_entries env entries s ≡ some s
  unfolding leave_entries
  leave_entries-same [] s r = refl
  leave_entries-same ((key, o) ∷ entries) s (h, l, b, r) =
      ap (λ p. leave_entry p.0 (leave_entries env entries p.1)) (ttl-live env key o s h l b)
      ∙ ap (leave_entry (left env.now (time_of key s))) (leave_entries-same entries s r)
      ∙ leave_entry-left (time_of key s) s

  leave_db-same : (s : Store (SortedSet S)) → IsReady c env s (db s) → leave_db env s ≡ some s
  unfolding leave_db
  leave_db-same s r = elim (Bool-cases (length (db s) == 0)) [
    | inl z ↦ rw z refl
    | inr z ↦ rw z (leave_entries-same (db s) s r)
  ]

  leave_dbs-next :
      (fuel n : ℕ) (s : Store (SortedSet S))
      → n < length s.dbs
      → IsReady c env (at_db n s) (db (at_db n s))
      → leave_dbs env (suc fuel) n s ≡ leave_dbs env fuel (suc n) (at_db n s)
  unfolding leave_dbs leave_next
  leave_dbs-next fuel n s h r =
      ap (λ p. leave_next env (leave_dbs env fuel (suc n)) p.0 p.1) (select-at_db n s h)
      ∙ rw (leave_db-same (at_db n s) r, leave_next) refl

  leave_dbs-last :
      (k n : ℕ) (s : Store (SortedSet S))
      → suc n + k ≡ length s.dbs
      → ((m : ℕ) → IsReady c env (at_db m s) (db (at_db m s)))
      → leave_dbs env (suc k) (suc n) (at_db n s) ≡ some (at_db (n + k) s)
  unfolding leave_dbs leave_next
  leave_dbs-last zero n s len r =
      let e : n ≡ n + 0 = omega arith in
      ap (λ p. leave_next env (leave_dbs env zero (suc (suc n))) p.0 p.1)
        (select_out (suc n) (at_db n s) (omega (arith, len)) (omega (arith, len)))
      ∙ ap (λ m. some (at_db m s)) e
  leave_dbs-last (suc k) n s len r =
      let e : suc n + k ≡ n + suc k = omega arith in
      leave_dbs-next (suc k) (suc n) (at_db n s) (omega (arith, len)) (r (suc n))
      ∙ leave_dbs-last k (suc n) s (omega (arith, len)) r
      ∙ ap (λ m. some (at_db m s)) e

  -- Of a store whose entries have not expired, with expiry times below 2^63, `Save` changes nothing but
  -- the selected database, which is the last one behind it.
  pub leave-at_db :
      (s : Store (SortedSet S))
      → s.dbno < length s.dbs
      → ((m : ℕ) → IsReady c env (at_db m s) (db (at_db m s)))
      → leave env s ≡ some (at_db (length s.dbs - 1) s)
  unfolding leave
  leave-at_db s h r =
      let e : length s.dbs ≡ suc (length s.dbs - 1) = omega (arith, h) in
      leave_dbs-next (length s.dbs) 0 s (omega (arith, h)) (r 0)
      ∙ ap (λ m. leave_dbs env m 1 (at_db 0 s)) e
      ∙ leave_dbs-last (length s.dbs - 1) 0 s (omega (arith, h)) r
      ∙ ap (λ m. some (at_db m s)) (omega arith)
