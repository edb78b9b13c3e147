-- ===== src/Dump/Written.antt =====
-- `Save` of a store whose entries have not expired writes a file.
use pika_panlei.Base.{
  ℕ, zero, suc, ◌+◌, ◌<◌, ◌≡◌, sym, subst, Option, [], ◌∷◌, PString, codes, length, ◌==◌, arith,
}
use pika_panlei.Base.Dict.{Dict}
use pika_panlei.Store.{Object, Env, Store, db}
use pika_panlei.SortedSet.{SortedSet}
use pika_panlei.Dump.{Codecs}
use pika_panlei.Dump.Save.{type_byte}
use pika_panlei.Dump.File.{
  save_time, save_entry, save_entries, save_db, save_dbs, save, with_crc, add_crc,
}
use pika_panlei.Dump.Replay.{time_of, left, ttl-live}
use pika_panlei.Dump.Stored.{IsReady, save_entries-cons}
use pika_panlei.Dump.Whole.{at_db}
use pika_panlei.Dump.Reload.{save_dbs-next, save_dbs-end}
use pika_panlei.Dump.Total.{
  Writes, then-Writes, some-Writes, if-Writes, save_length-Writes, save_string-Writes,
  save_object-Writes,
}

module _ {S : Type 0} (c : Codecs S) (env : Env (SortedSet S)) where
  add_crc-Writes : (o : Option PString) → Writes o → Writes (add_crc c env o)
  unfolding add_crc
  add_crc-Writes o (bs, e) =
      subst (λ x. Writes (add_crc c env x)) (sym e) (some-Writes (with_crc c env bs))

  save_entry-Writes :
      (time : ℕ) (key : PString) (o : Object (SortedSet S))
      → Writes (save_entry c env (left env.now time) key o.value)
  unfolding save_entry
  save_entry-Writes time key o =
      then-Writes _ _ (some-Writes (save_time c env (left env.now time))) (
        then-Writes _ _ (some-Writes (type_byte o.value ∷ []))
          (then-Writes _ _ (save_string-Writes c key) (save_object-Writes c o.value)))

  save_entries-Writes :
      (entries : Dict (Object (SortedSet S))) (s : Store (SortedSet S))
      → IsReady c env s entries
      → Writes (save_entries c env entries s)
  unfolding save_entries
  save_entries-Writes [] s r = some-Writes []
  save_entries-Writes ((key, o) ∷ entries) s (h, l, b, r) =
      let e =
        save_entries-cons c env key o entries s (time_of key s) (ttl-live env key o s h l b) in
      subst Writes (sym e) (
        then-Writes _ _ (save_entry-Writes (time_of key s) key o) (save_entries-Writes entries s r))

  save_db-Writes :
      (n : ℕ) (s : Store (SortedSet S)) → IsReady c env s (db s) → Writes (save_db c env n s)
  unfolding save_db
  save_db-Writes n s r = if-Writes (length (db s) == 0) _ _ (some-Writes []) (
      then-Writes _ _ (some-Writes (254 ∷ []))
        (then-Writes _ _ (save_length-Writes n) (save_entries-Writes (db s) s r)))

  save_dbs-Writes :
      (k n : ℕ) (s : Store (SortedSet S))
      → n + k ≡ length s.dbs
      → s.dbno < length s.dbs
      → ((m : ℕ) → IsReady c env (at_db m s) (db (at_db m s)))
      → Writes (save_dbs c env (suc k) n s)
  save_dbs-Writes zero n s len h r =
      subst Writes (sym (save_dbs-end c env zero n s h (omega (arith, len)))) (some-Writes [])
  save_dbs-Writes (suc k) n s len h r =
      let n_in : n < length s.dbs = omega (arith, len) in
      subst Writes (sym (save_dbs-next c env (suc k) n s n_in)) (
        then-Writes _ _ (save_db-Writes n (at_db n s) (r n))
          (save_dbs-Writes k (suc n) (at_db n s) (omega (arith, len)) n_in r))

  pub save-Writes :
      (s : Store (SortedSet S))
      → s.dbno < length s.dbs
      → ((m : ℕ) → IsReady c env (at_db m s) (db (at_db m s)))
      → Writes (save c env s)
  unfolding save
  save-Writes s h r = add_crc-Writes _ (
      then-Writes _ _ (some-Writes (codes "REDIS0006")) (
        then-Writes _ _ (save_dbs-Writes (length s.dbs) 0 s (omega arith) h r)
          (some-Writes (255 ∷ []))))
