-- ===== src/Keys.antt =====
-- The key commands of src/key_command.cc. `fnmatch` and the key that `RandomMember` picks are
-- parameters. (`scan`, `hscan`, `sscan` and `sort` are left out: the cursors are bucket numbers of
-- the C++ library's tables, and `std::sort` is not stable.)
pub mod Rename
use pika_panlei.Base.{
  ℕ, zero, suc, ◌+◌, ◌-◌, ◌*◌, ◌/◌, ◌%◌, ◌^◌, ℤ, pos, negsuc, ◌+ℤ◌, leb_ℤ, ltb_ℤ, Bool, true, false,
  ◌&&◌, ◌||◌, not, Option, none, some, List, [], ◌∷◌, ◌++◌, PString, codes, length, drop,
  if◌then◌else◌,
}
use pika_panlei.Base.Dict.{Dict}
use pika_panlei.Common.{PType, PError}
use pika_panlei.Common.Number.Strtol.{atoi, long_bits}
use pika_panlei.Common.Reply.{
  format_int, format_single, format_bulk, format_null, format_0, format_1, pre_format_multi_bulk,
  reply_error,
}
use pika_panlei.Store.{
  Value, Object, Env, Store, type_of, db, is_empty, get_object, exists_key, delete_key,
  clear_expire, set_expire, set_value, select_db, ttl as store_ttl,
}
use pika_panlei.Command.{Response, param, respond, with_value}
use pika_panlei.Lists.{format_bulks}

unfoldable pub type_name : PType → PString
type_name PType.hash = codes "hash"
type_name PType.set = codes "set"
type_name PType.string = codes "string"
type_name PType.list = codes "list"
type_name PType.sorted_set = codes "sortedSet"
type_name PType.invalid = codes "none"

-- The keys that the loop of `keys` collects.
unfoldable pub matching : {V : Type 0} → (PString → Bool) → Dict V → List PString
matching p [] = []
matching p ((k, v) ∷ rest) = let found = matching p rest in if p k then k ∷ found else found

module _ {Z : Type 0} where
  -- The loop of `del`. A key that only a backend holds is not counted.
  unfoldable pub delete_keys : List PString → ℕ → Store Z → ℕ × Store Z
  delete_keys [] n s = (n, s)
  delete_keys (key ∷ rest) n s =
      let (present, s₁) = delete_key key s in
      delete_keys rest (if present then n + 1 else n)
        (if present then (clear_expire key s₁).1 else s₁)

  unfoldable pub del : List PString → Store Z → Response Z
  unfolding delete_keys
  del params s =
      let (n, s') = delete_keys (drop 1 params) 0 s in respond PError.ok (format_int (pos n)) s'

  unfoldable pub persist : List PString → Store Z → Response Z
  persist params s =
      let (cleared, s') = clear_expire (param 1 params) s in
      respond PError.ok (format_int (pos (if cleared then 1 else 0))) s'

  unfoldable pub keys : (PString → PString → Bool) → List PString → Store Z → Response Z
  unfolding matching
  keys fnmatch params s =
      let results = matching (fnmatch (param 1 params)) (db s) in
      respond PError.ok (pre_format_multi_bulk (length results) ++ format_bulks results) s

  -- `RandomKey` and the reply.
  unfoldable pub randomkey :
      (Dict (Object Z) → Option PString) → List PString → Store Z → Response Z
  randomkey pick params s =
      let res = if is_empty (db s) then [] else elim (pick (db s)) [ none ↦ [] | some k ↦ k ] in
      respond PError.ok (if is_empty res then format_null else format_bulk res) s

module _ {Z : Type 0} (env : Env Z) where
  unfoldable pub key_type : PString → Store Z → PType × Store Z
  key_type key s =
      let (o, s') = get_object env key s in
      (elim o [ none ↦ PType.invalid | some obj ↦ type_of obj.value ], s')

  unfoldable pub type : List PString → Store Z → Response Z
  unfolding key_type type_name
  type params s =
      let (t, s') = key_type (param 1 params) s in
      respond PError.ok (format_single (type_name t)) s'

  unfoldable pub exists : List PString → Store Z → Response Z
  exists params s =
      let (present, s') = exists_key env (param 1 params) s in
      respond PError.ok (if present then format_1 else format_0) s'

  -- `setExpireByMs` and the reply.
  unfoldable pub set_expire_by_ms : PString → ℕ → Store Z → Response Z
  set_expire_by_ms key abs_timeout s =
      let (present, s') = exists_key env key s in
      if present
      then respond PError.ok (format_int (pos 1)) (set_expire key abs_timeout s')
      else respond PError.ok (format_int (pos 0)) s'

  -- The number is converted to a `uint64_t`, in which the products and sums wrap.
  unfoldable pub expire : List PString → Store Z → Response Z
  unfolding set_expire_by_ms
  expire params =
      set_expire_by_ms (param 1 params)
        ((env.now + long_bits (atoi (param 2 params)) * 1000) % 2 ^ 64)

  unfoldable pub pexpire : List PString → Store Z → Response Z
  unfolding set_expire_by_ms
  pexpire params =
      set_expire_by_ms (param 1 params) ((env.now + long_bits (atoi (param 2 params))) % 2 ^ 64)

  unfoldable pub expireat : List PString → Store Z → Response Z
  unfolding set_expire_by_ms
  expireat params =
      set_expire_by_ms (param 1 params) (long_bits (atoi (param 2 params)) * 1000 % 2 ^ 64)

  unfoldable pub pexpireat : List PString → Store Z → Response Z
  unfolding set_expire_by_ms
  pexpireat params = set_expire_by_ms (param 1 params) (long_bits (atoi (param 2 params)))

  -- `_ttl`: a key that has expired answers -1.
  unfoldable pub key_ttl : PString → Store Z → ℤ × Store Z
  key_ttl key s =
      let (present, s₁) = exists_key env key s in
      let (left, s₂) = store_ttl env key env.now s₁ in
      if present then (if ltb_ℤ left (pos 0) then negsuc 0 else left, s₂) else (negsuc 1, s₁)

  unfoldable pub seconds : ℤ → ℤ
  seconds (pos n) = pos (n / 1000)
  seconds (negsuc n) = negsuc n

  unfoldable pub ttl : List PString → Store Z → Response Z
  unfolding key_ttl seconds
  ttl params s =
      let (left, s') = key_ttl (param 1 params) s in
      respond PError.ok (format_int (seconds left)) s'

  unfoldable pub pttl : List PString → Store Z → Response Z
  unfolding key_ttl
  pttl params s =
      let (left, s') = key_ttl (param 1 params) s in respond PError.ok (format_int left) s'

  -- The move of `move`, from the database `from` to the selected one.
  unfoldable pub move_value : PString → Value Z → ℤ → Store Z → Store Z
  move_value key v from s =
      let s₁ = (select_db from (set_value key v s)).1 in (delete_key key (clear_expire key s₁).1).1

  -- A failure leaves the other database selected. (Until it is deleted, the old object is empty.)
  unfoldable pub move : List PString → Store Z → Response Z
  unfolding move_value
  move params s =
      let key = param 1 params in
      let to = atoi (param 2 params) in
      with_value env key PType.invalid s (λ e s'. respond PError.ok (format_int (pos 0)) s')
        λ v s'.
          let (from, s₁) = select_db to s' in
          let (present, s₂) = exists_key env key s₁ in
          if ltb_ℤ from (pos 0) || (leb_ℤ from to && leb_ℤ to from)
          then respond PError.ok (format_int (pos 0)) s₁
          else if present
          then respond PError.ok (format_int (pos 0)) s₂
          else respond PError.ok (format_int (pos 1)) (move_value key v from s₂)

  -- The last part of `RenameKey`, after `TTL` of the old key.
  unfoldable pub rename_value : PString → PString → Value Z → ℤ × Store Z → PError × Store Z
  rename_value old new v (negsuc (suc zero), s) = (PError.not_exist, s)
  rename_value old new v (pos zero, s) =
      (PError.ok, (delete_key old (clear_expire old (set_value new v s)).1).1)
  rename_value old new v (pos (suc left), s) =
      let s₁ = set_expire new (long_bits (pos (suc left + env.now))) (set_value new v s) in
      (PError.ok, (delete_key old (clear_expire old s₁).1).1)
  rename_value old new v (negsuc zero, s) =
      let s₁ = (clear_expire new (set_value new v s)).1 in
      (PError.ok, (delete_key old (clear_expire old s₁).1).1)
  rename_value old new v (negsuc (suc (suc n)), s) =
      (PError.ok, (delete_key old (clear_expire old (set_value new v s)).1).1)

  unfoldable pub rename_key : PString → PString → Bool → Store Z → PError × Store Z
  unfolding rename_value
  rename_key old new force s =
      with_value env old PType.invalid s (λ e s'. (e, s'))
        λ v s'.
          let (present, s₁) = exists_key env new s' in
          if force
          then rename_value old new v (store_ttl env old env.now s')
          else if present
          then (PError.exist, s₁)
          else rename_value old new v (store_ttl env old env.now s₁)

  unfoldable pub rename : List PString → Store Z → Response Z
  unfolding rename_key
  rename params s =
      let (err, s') = rename_key (param 1 params) (param 2 params) true s in
      respond err (reply_error err) s'

  unfoldable pub renamenx : List PString → Store Z → Response Z
  unfolding rename_key
  renamenx params s =
      let (err, s') = rename_key (param 1 params) (param 2 params) false s in
      respond err (elim err [ PError.ok ↦ format_1 | e ↦ reply_error e ]) s'
