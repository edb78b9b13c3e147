-- ===== src/Dump/File.antt =====
-- `PDBSaver::Save` and `PDBLoader::Load`: the whole file. A file that does not open is `none`.
use pika_panlei.Base.{
  ℕ, zero, suc, ◌+◌, ◌-◌, ◌*◌, ◌%◌, ◌^◌, ℤ, pos, negsuc, Bool, ◌&&◌, ◌||◌, Option, none, some, [],
  ◌∷◌, ◌++◌, PString, codes, length, take, drop, ltb, leb, ltb_ℤ, ◌==◌, if◌then◌else◌,
}
use pika_panlei.Base.Dict.{Dict}
use pika_panlei.Common.Number.Strtol.{strtol_before}
use pika_panlei.Store.{Value, Object, Env, Store, db, select_db, ttl, set_value, set_expire}
use pika_panlei.SortedSet.{SortedSet}
use pika_panlei.Dump.{Codecs}
use pika_panlei.Dump.Input.{Reader, pure, ◌>>=◌, read_word, word}
use pika_panlei.Dump.Save.{save_length, save_string, save_object, type_byte, ◌then◌}
use pika_panlei.Dump.Load.{load_size, load_generic_string, load_object}

-- How `Load` ends: at an assertion or behind the end of the file, or with a result; `unfinished` if
-- the fuel of the loop ends.
pub data Loaded (Z : Type 0) : Type 0 where
  unfinished stopped : Loaded Z
  ended : ℤ → Store Z → Loaded Z

-- One round of the loop.
pub data Round (Z : Type 0) : Type 0 where
  wrong : Round Z
  finish : ℤ → Store Z → Round Z
  again : ℕ → Store Z → PString → Round Z

abbrev pub max_db_num : ℕ
max_db_num = 65536

-- The line of the return for a database that does not exist.
abbrev pub select_line : ℕ
select_line = 399

abbrev pub open_line : ℕ
open_line = 345

abbrev pub short_line : ℕ
short_line = 353

module _ {S : Type 0} (c : Codecs S) (env : Env (SortedSet S)) where
  -- The time that stands in front of an entry, by the time that is left.
  unfoldable pub save_time : ℤ → PString
  save_time (pos zero) = []
  save_time (pos (suc n)) = 252 ∷ word 8 ((suc n + env.now) % 2 ^ 64)
  save_time (negsuc n) = []

  unfoldable pub save_entry : ℤ → PString → Value (SortedSet S) → Option PString
  unfolding save_time save_string save_object type_byte
  save_entry left key value =
      some (save_time left)
      then some (type_byte value ∷ [])
      then save_string c key
      then save_object c value

  -- One round of the loop over the entries, by what `TTL` answers, with what the other rounds write.
  -- `TTL` deletes a key that has expired, and the loop goes on from the entry that is gone.
  unfoldable pub write_entry : ℤ → PString → Value (SortedSet S) → Option PString → Option PString
  unfolding save_entry
  write_entry (negsuc (suc zero)) key value rest = none
  write_entry time key value rest = save_entry time key value then rest

  unfoldable pub save_entries : Dict (Object (SortedSet S)) → Store (SortedSet S) → Option PString
  unfolding write_entry
  save_entries [] s = some []
  save_entries ((key, obj) ∷ entries) s =
      let (left, s') = ttl env key env.now s in
      write_entry left key obj.value (save_entries entries s')

  unfoldable pub save_db : ℕ → Store (SortedSet S) → Option PString
  unfolding save_entries save_length
  save_db dbno s =
      if length (db s) == 0
      then some []
      else some (254 ∷ []) then save_length dbno then save_entries (db s) s

  -- By what `SelectDB` returns: what is written of the database and of those behind it.
  unfoldable pub save_next : ℤ → Option PString → Option PString → Option PString
  save_next (negsuc n) this rest = some []
  save_next (pos n) this rest = this then rest

  -- The loop over the databases, until `SelectDB` fails.
  unfoldable pub save_dbs : ℕ → ℕ → Store (SortedSet S) → Option PString
  unfolding save_db save_next
  save_dbs zero dbno s = none
  save_dbs (suc fuel) dbno s =
      let (r, s') = select_db (pos dbno) s in
      save_next r (save_db dbno s') (save_dbs fuel (suc dbno) s')

  abbrev pub with_crc : PString → PString
  with_crc bs = bs ++ word 8 (c.crc64 bs)

  unfoldable pub add_crc : Option PString → Option PString
  add_crc none = none
  add_crc (some bs) = some (with_crc bs)

  unfoldable pub save : Store (SortedSet S) → Option PString
  unfolding save_dbs add_crc
  save s =
      add_crc (some (codes "REDIS0006") then save_dbs (suc (length s.dbs)) 0 s then some (255 ∷ []))

  unfoldable pub load_aux : Reader (Unit {0})
  unfolding load_generic_string
  load_aux = do key ← load_generic_string c; value ← load_generic_string c; pure tt

  unfoldable pub load_resize_db : Reader (Unit {0})
  unfolding load_size
  load_resize_db = do dbsize ← load_size; expiresize ← load_size; pure tt

  unfoldable pub load_entry : ℕ → Reader (PString × Value (SortedSet S))
  unfolding load_generic_string load_object
  load_entry type = do key ← load_generic_string c; obj ← load_object c type; pure (key, obj)

  -- A key whose time has passed is left out.
  unfoldable pub store_entry :
      ℕ → PString → Value (SortedSet S) → Store (SortedSet S) → Store (SortedSet S)
  store_entry time key obj s =
      if time == 0
      then set_value key obj s
      else if ltb env.now time
      then set_expire key time (set_value key obj s)
      else s

  unfoldable pub is_type : ℕ → Bool
  is_type b = leb b 4 || (leb 9 b && leb b 14)

  -- What the loop does after a read that has no other effect.
  abbrev pub after :
      {A : Type 0}
      → Option (A × PString)
      → (A → PString → Round (SortedSet S))
      → Round (SortedSet S)
  after none k = wrong
  after (some (a, rest)) k = k a rest

  -- By what `SelectDB` returns.
  unfoldable pub selected :
      ℤ → ℕ → Store (SortedSet S) → Store (SortedSet S) → PString → Round (SortedSet S)
  selected (negsuc n) time s s' rest = finish (pos select_line) s
  selected (pos n) time s s' rest = again time s' rest

  unfoldable pub select_loaded : ℕ → ℕ → Store (SortedSet S) → PString → Round (SortedSet S)
  unfolding selected
  select_loaded time dbno s rest =
      let (r, s') = select_db (pos dbno) s in
      if ltb max_db_num dbno then finish (pos 0) s else selected r time s s' rest

  -- The switch on the indicator. The time is that of the next entry, in 64 bits.
  unfoldable pub load_round : ℕ → ℕ → Store (SortedSet S) → PString → Round (SortedSet S)
  load_round indicator time s bs =
      if indicator == 255
      then finish (pos 0) s
      else if indicator == 250
      then after (load_aux bs) (λ _ rest. again time s rest)
      else if indicator == 251
      then after (load_resize_db bs) (λ _ rest. again time s rest)
      else if indicator == 254
      then after (load_size bs) (λ dbno rest. select_loaded time dbno s rest)
      else if indicator == 252
      then after (read_word 8 bs) (λ t rest. again t s rest)
      else if indicator == 253
      then after (read_word 8 bs) (λ t rest. again (t * 1000 % 2 ^ 64) s rest)
      else if is_type indicator
      then after (load_entry indicator bs)
          (λ e rest. if leb (2 ^ 63) time then wrong else again 0 (store_entry time e.0 e.1 s) rest)
      else wrong

  -- What `while` does with a round.
  unfoldable pub continue :
      (ℕ → Store (SortedSet S) → PString → Loaded (SortedSet S))
      → Round (SortedSet S)
      → Loaded (SortedSet S)
  continue loop wrong = stopped
  continue loop (finish code s) = ended code s
  continue loop (again time s rest) = loop time s rest

  unfoldable pub load_loop : ℕ → ℕ → Store (SortedSet S) → PString → Loaded (SortedSet S)
  unfolding load_round continue
  load_loop zero time s bs = unfinished
  load_loop (suc fuel) time s [] = stopped
  load_loop (suc fuel) time s (indicator ∷ bs) =
      continue (load_loop fuel) (load_round indicator time s bs)

  -- The rounds of the loop take at least a byte each.
  abbrev pub load_from : ℕ → Store (SortedSet S) → PString → Loaded (SortedSet S)
  load_from time s bs = load_loop (suc (length bs)) time s bs

  -- By the number that `Strtol` reads.
  unfoldable pub load_version : Option ℤ → Store (SortedSet S) → PString → Loaded (SortedSet S)
  unfolding load_loop
  load_version none s bs = ended (negsuc 122) s
  load_version (some version) s bs =
      if ltb_ℤ version (pos 6) then ended (negsuc 122) s else load_from 0 s bs

  -- Of the magic string only the version is looked at, which has to end at the ninth byte. An empty
  -- file is not mapped.
  unfoldable pub load : Option PString → Store (SortedSet S) → Loaded (SortedSet S)
  unfolding load_version strtol_before
  load none s = ended (negsuc (open_line - 1)) s
  load (some []) s = ended (negsuc (open_line - 1)) s
  load (some (b ∷ bs)) s =
      let file = b ∷ bs in
      if ltb (length file) 9
      then ended (negsuc (short_line - 1)) s
      else load_version (strtol_before (take 4 (drop 5 file)) (drop 9 file)) s (drop 9 file)
