-- ===== src/Store.antt =====
-- `PStore` of src/store.h and src/store.cc: the databases, the expiry times, and the keys that wait
-- to be written to the backends. The operations are those of the selected database.
pub mod View
pub mod Fetch
pub mod Writes
pub mod Expiry
pub mod Clearing
pub mod Times
use pika_panlei.Base.{
  ℕ, zero, suc, ◌+◌, ◌-◌, ◌*◌, ◌^◌, ℤ, pos, negsuc, Bool, true, false, ◌&&◌, not, Option, none,
  some, List, [], ◌∷◌, PString, length, get_or, set as list_set, ltb, leb, leb_ℤ, ltb_ℤ, pos_part,
  neg_part, ◌==◌, if◌then◌else◌,
}
use pika_panlei.Base.Dict
use pika_panlei.Base.Dict.{Dict, is_some}
use pika_panlei.Base.Members.{Members}
use pika_panlei.Common.{PType, PError}

-- What `PObject::value` points to, by `encoding`. `Z` is the type of the sorted sets.
pub data Value (Z : Type 0) : Type 0 where
  raw : PString → Value Z
  int : ℤ → Value Z
  list : List PString → Value Z
  set : Members → Value Z
  hash : Dict PString → Value Z
  zset : Z → Value Z

pub record Object (Z : Type 0) : Type 0 where
  pub lru : ℕ
  pub value : Value Z

-- `backends_`, `::Now()` in milliseconds, and whether a child process is saving (`g_qdbPid`).
-- A backend is read by `Get`; the `lru` of what it returns is the time to live in seconds.
pub record Env (Z : Type 0) : Type 0 where
  pub backends : List (PString → Option (Object Z))
  pub now : ℕ
  pub saving : Bool

-- In `wait_sync` (`waitSyncKeys_`), `true` stands for a pointer to an object and `false` for the
-- null pointer of a deleted key. The list is empty if there are no backends.
pub record Store (Z : Type 0) : Type 0 where
  pub dbs : List (Dict (Object Z))
  pub expired_dbs : List (Dict ℕ)
  pub wait_sync : List (Dict Bool)
  pub dbno : ℕ
  pub lruclock : ℕ

pub data ExpireResult : Type 0 where
  not_expire persist expired : ExpireResult

abbrev pub max_lru_value : ℕ
max_lru_value = 2 ^ 24 - 1

-- The masks keep `lruclock` and `lru` below 2^24.
unfoldable pub estimate_idle_time : (lruclock lru : ℕ) → ℕ
estimate_idle_time lruclock lru =
    if leb lru lruclock then lruclock - lru else max_lru_value - lru + lruclock

abbrev pub is_empty {ℓ} : {A : Type ℓ} → List A → Bool
is_empty [] = true
is_empty (x ∷ xs) = false

-- `moveFrom` leaves 0 in the `lru` of the object that it empties.
abbrev pub moved_from_lru : ℕ
moved_from_lru = 0

abbrev pub uint64_max : ℕ
uint64_max = 2 ^ 64 - 1

-- The value of `ExpireResult`, or the time that is left. (The difference is cast to `int64_t`.)
unfoldable pub ttl_result : ExpireResult → Option ℕ → ℕ → ℤ
ttl_result ExpireResult.expired when now = negsuc 1
ttl_result ExpireResult.persist when now = negsuc 0
ttl_result ExpireResult.not_expire none now = pos 0
ttl_result ExpireResult.not_expire (some when) now =
    let left = when - now in if ltb left (2 ^ 63) then pos left else negsuc (2 ^ 64 - 1 - left)

-- What `getValueByType` returns: an error, or a pointer to the object.
pub data Fetched (Z : Type 0) : Type 0 where
  found : Object Z → Fetched Z
  failed : PError → Fetched Z

module _ {Z : Type 0} where
  unfoldable pub type_of : Value Z → PType
  type_of (raw v) = PType.string
  type_of (int v) = PType.string
  type_of (list v) = PType.list
  type_of (set v) = PType.set
  type_of (hash v) = PType.hash
  type_of (zset v) = PType.sorted_set

  -- `type != PType_invalid && type != PType(cobj->type)` fails.
  unfoldable pub has_type : PType → Value Z → Bool
  has_type PType.invalid v = true
  has_type PType.string (raw v) = true
  has_type PType.string (int v) = true
  has_type PType.list (list v) = true
  has_type PType.set (set v) = true
  has_type PType.hash (hash v) = true
  has_type PType.sorted_set (zset v) = true
  has_type t v = false

  -- `dbs_[dbno_]`, `expiredDBs_[dbno_]` and `waitSyncKeys_[dbno_]`
  abbrev pub db : Store Z → Dict (Object Z)
  db s = get_or s.dbs s.dbno []

  abbrev pub expire_keys : Store Z → Dict ℕ
  expire_keys s = get_or s.expired_dbs s.dbno []

  abbrev pub sync_keys : Store Z → Dict Bool
  sync_keys s = get_or s.wait_sync s.dbno []

  abbrev pub with_db : Store Z → Dict (Object Z) → Store Z
  with_db s d = record s { dbs = list_set s.dbs s.dbno d }

  abbrev pub with_expire_keys : Store Z → Dict ℕ → Store Z
  with_expire_keys s d = record s { expired_dbs = list_set s.expired_dbs s.dbno d }

  -- `if (!waitSyncKeys_.empty()) waitSyncKeys_[dbno_][key] = …`
  unfoldable pub mark : PString → Bool → Store Z → Store Z
  mark key b s = record s {
    wait_sync =
        if is_empty s.wait_sync
        then s.wait_sync
        else list_set s.wait_sync s.dbno (Dict.insert key b (sync_keys s));
  }

  -- `SelectDB` returns the database that was selected before, or -1.
  unfoldable pub select_db : ℤ → Store Z → ℤ × Store Z
  select_db (negsuc n) s = (negsuc 0, s)
  select_db (pos n) s =
      if n == s.dbno
      then (pos s.dbno, s)
      else if ltb n (length s.dbs)
      then (pos s.dbno, record s { dbno = n })
      else (negsuc 0, s)

  unfoldable pub delete_key : PString → Store Z → Bool × Store Z
  unfolding mark
  delete_key key s =
      (is_some (Dict.lookup key (db s)), with_db (mark key false s) (Dict.erase key (db s)))

  unfoldable pub set_expire : PString → ℕ → Store Z → Store Z
  set_expire key when s = with_expire_keys s (Dict.insert key when (expire_keys s))

  -- The object that `backend->Get` returned goes into the cache. The time to live is read from it
  -- after it has been moved from.
  unfoldable pub load : Env Z → PString → Object Z → Store Z → Store Z
  unfolding set_expire
  load env key obj s =
      let s' = with_db s (Dict.insert key (record obj { lru = s.lruclock }) (db s)) in
      let remain_ttl_seconds = moved_from_lru in
      if ltb 0 remain_ttl_seconds
      then set_expire key (env.now + remain_ttl_seconds * 1000) s'
      else s'

  -- The part of `GetObject` for a key that is not in the cache.
  unfoldable pub get_from_backend : Env Z → PString → Store Z → Option (Object Z) × Store Z
  get_from_backend env key s =
      if is_empty env.backends
      then (none, s)
      else if is_some (Dict.lookup key (sync_keys s))
      then (none, s)
      else elim (get_or env.backends s.dbno (λ _. none) key) [
        | none ↦ (none, s)
        | some obj ↦ (some (record obj { lru = s.lruclock }), load env key obj s)
      ]

  unfoldable pub get_object : Env Z → PString → Store Z → Option (Object Z) × Store Z
  get_object env key s = elim (Dict.lookup key (db s)) [
    | some obj ↦ (some obj, s)
    | none ↦ get_from_backend env key s
  ]

  unfoldable pub exists_key : Env Z → PString → Store Z → Bool × Store Z
  exists_key env key s = let (o, s') = get_object env key s in (is_some o, s')

  unfoldable pub expire_if_need : PString → ℕ → Store Z → ExpireResult × Store Z
  expire_if_need key now s = elim (Dict.lookup key (expire_keys s)) [
    | none ↦ (ExpireResult.persist, s)
    | some when ↦
        let s' = (delete_key key s).1 in
        if ltb now when
        then (ExpireResult.not_expire, s)
        else (ExpireResult.expired, with_expire_keys s' (Dict.erase key (expire_keys s')))
  ]

  unfoldable pub clear_expire : PString → Store Z → Bool × Store Z
  clear_expire key s =
      let (r, s') = expire_if_need key uint64_max s in
      (elim r [ ExpireResult.expired ↦ true | _ ↦ false ], s')

  unfoldable pub ttl : Env Z → PString → ℕ → Store Z → ℤ × Store Z
  ttl env key now s =
      let (present, s₁) = exists_key env key s in
      let (r, s₂) = expire_if_need key now s₁ in
      if not present
      then (negsuc 1, s₁)
      else (ttl_result r (Dict.lookup key (expire_keys s₂)) now, s₂)

  -- The tests on the object. `touch` writes the clock into the object that the pointer shows.
  unfoldable pub check_type :
      Env Z → PString → PType → Bool → Option (Object Z) → Store Z → Fetched Z × Store Z
  check_type env key type touch none s = (failed PError.not_exist, s)
  check_type env key type touch (some obj) s =
      let touched = record obj { lru = s.lruclock } in
      if not (has_type type obj.value)
      then (failed PError.type, s)
      else if touch && not env.saving
      then (found touched, with_db s (Dict.insert key touched (db s)))
      else (found obj, s)

  unfoldable pub get_value_by_type : Env Z → PString → PType → Bool → Store Z → Fetched Z × Store Z
  get_value_by_type env key type touch s =
      let (r, s₁) = expire_if_need key env.now s in
      let (o, s₂) = get_object env key s₁ in
      elim r [
        | ExpireResult.expired ↦ (failed PError.not_exist, s₁)
        | _ ↦ check_type env key type touch o s₂
      ]

  unfoldable pub set_value : PString → Value Z → Store Z → Store Z
  unfolding mark
  set_value key value s =
      mark key true
        (with_db s (Dict.insert key (record { lru = s.lruclock; value = value }) (db s)))

  -- A write through the pointer that `getValueByType` or `SetValue` returned for the key.
  unfoldable pub write_value : PString → Value Z → Store Z → Store Z
  write_value key value s = elim (Dict.lookup key (db s)) [
    | none ↦ s
    | some obj ↦ with_db s (Dict.insert key (record obj { value = value }) (db s))
  ]
