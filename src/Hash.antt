-- ===== src/Hash.antt =====
-- The hash commands of src/hash.cc. (`hincrbyfloat` computes with floats and is left out.)
pub mod Laws
pub mod Fields
use pika_panlei.Base.{
  ℕ, zero, suc, ◌+◌, ◌-◌, ◌*◌, ◌%◌, ℤ, pos, ◌+ℤ◌, Bool, true, false, Option, none, some, List, [],
  ◌∷◌, ◌++◌, PString, length, drop, ◌==◌, if◌then◌else◌,
}
use pika_panlei.Base.Dict
use pika_panlei.Base.Dict.{Dict, is_some}
use pika_panlei.Common.{PType, PError}
use pika_panlei.Common.Number.Print.{print_int}
use pika_panlei.Common.Number.Strtol.{strtol, atoi, wrap_long}
use pika_panlei.Common.Reply.{
  format_int, format_bulk, format_null, format_ok, format_0, pre_format_multi_bulk,
}
use pika_panlei.Store.{Value, Env, Store, write_value}
use pika_panlei.Command.{Response, param, respond, refuse, cast_hash, with_value, or_fresh}

unfoldable pub set_hash_force : Dict PString → PString → PString → Dict PString
set_hash_force hash key val = Dict.insert key val hash

-- The flag tells whether the pair was inserted.
unfoldable pub set_hash_if_notexist : Dict PString → PString → PString → Bool × Dict PString
set_hash_if_notexist hash key val = elim (Dict.lookup key hash) [
  | none ↦ (true, Dict.insert key val hash)
  | some _ ↦ (false, hash)
]

-- The loop of `hmset`, two parameters a round.
unfoldable pub set_pairs : List PString → Dict PString → Dict PString
unfolding set_hash_force
set_pairs (field ∷ val ∷ rest) hash = set_pairs rest (set_hash_force hash field val)
set_pairs _ hash = hash

-- A value or a null bulk string.
unfoldable pub format_found : Option PString → PString
format_found none = format_null
format_found (some v) = format_bulk v

-- The loop of `hmget`.
unfoldable pub format_fields : List PString → Dict PString → PString
unfolding format_found
format_fields [] hash = []
format_fields (field ∷ rest) hash = format_found (Dict.lookup field hash) ++ format_fields rest hash

unfoldable pub format_pairs : Dict PString → PString
format_pairs [] = []
format_pairs ((k, v) ∷ rest) = format_bulk k ++ (format_bulk v ++ format_pairs rest)

unfoldable pub format_keys : Dict PString → PString
format_keys [] = []
format_keys ((k, v) ∷ rest) = format_bulk k ++ format_keys rest

unfoldable pub format_vals : Dict PString → PString
format_vals [] = []
format_vals ((k, v) ∷ rest) = format_bulk v ++ format_vals rest

-- The loop of `hdel`: how many fields were there, and the hash without them.
unfoldable pub del_fields : List PString → ℕ → Dict PString → ℕ × Dict PString
del_fields [] del hash = (del, hash)
del_fields (field ∷ rest) del hash =
    let present = is_some (Dict.lookup field hash) in
    del_fields rest (if present then del + 1 else del)
      (if present then Dict.erase field hash else hash)

-- The new number of `hincrby`, unless the old text is no number.
unfoldable pub incremented : Option PString → PString → Option ℤ
incremented none delta = some (atoi delta)
incremented (some str) delta = elim (strtol str) [
  | none ↦ none
  | some val ↦ some (wrap_long (val +ℤ atoi delta))
]

module _ {Z : Type 0} (env : Env Z) where
  -- `GET_HASH` and the code behind it.
  unfoldable pub get_hash : PString → Store Z → (Dict PString → Store Z → Response Z) → Response Z
  get_hash name s k = with_value env name PType.hash s refuse (λ v. k (cast_hash v))

  -- `GET_OR_SET_HASH` and the code behind it.
  unfoldable pub get_or_set_hash :
      PString → Store Z → (Dict PString → Store Z → Response Z) → Response Z
  get_or_set_hash name s k =
      with_value env name PType.hash s (or_fresh name (Value.hash []) (λ v. k (cast_hash v)))
        (λ v. k (cast_hash v))

  unfoldable pub hset : List PString → Store Z → Response Z
  unfolding get_or_set_hash
  hset params s = get_or_set_hash (param 1 params) s λ hash s'.
      respond PError.ok (format_int (pos 1)) (
        write_value (param 1 params)
          (Value.hash (set_hash_force hash (param 2 params) (param 3 params))) s')

  unfoldable pub hmset : List PString → Store Z → Response Z
  unfolding get_or_set_hash
  hmset params s =
      if length params % 2 == 0
      then get_or_set_hash (param 1 params) s (λ hash s'.
        respond PError.ok format_ok
          (write_value (param 1 params) (Value.hash (set_pairs (drop 2 params) hash)) s'))
      else refuse PError.param s

  unfoldable pub hget : List PString → Store Z → Response Z
  unfolding get_hash
  hget params s =
      get_hash (param 1 params) s
        λ hash s'. respond PError.ok (format_found (Dict.lookup (param 2 params) hash)) s'

  unfoldable pub hmget : List PString → Store Z → Response Z
  unfolding get_hash
  hmget params s = get_hash (param 1 params) s λ hash s'.
      respond PError.ok
        (pre_format_multi_bulk (length params - 2) ++ format_fields (drop 2 params) hash) s'

  unfoldable pub hgetall : List PString → Store Z → Response Z
  unfolding get_hash
  hgetall params s =
      get_hash (param 1 params) s λ hash s'.
        respond PError.ok (pre_format_multi_bulk (2 * length hash) ++ format_pairs hash) s'

  unfoldable pub hkeys : List PString → Store Z → Response Z
  unfolding get_hash
  hkeys params s =
      get_hash (param 1 params) s
        λ hash s'. respond PError.ok (pre_format_multi_bulk (length hash) ++ format_keys hash) s'

  unfoldable pub hvals : List PString → Store Z → Response Z
  unfolding get_hash
  hvals params s =
      get_hash (param 1 params) s
        λ hash s'. respond PError.ok (pre_format_multi_bulk (length hash) ++ format_vals hash) s'

  unfoldable pub hdel : List PString → Store Z → Response Z
  unfolding get_hash
  hdel params s = get_hash (param 1 params) s λ hash s'.
      let r = del_fields (drop 2 params) 0 hash in
      respond PError.ok (format_int (pos r.0)) (write_value (param 1 params) (Value.hash r.1) s')

  unfoldable pub hexists : List PString → Store Z → Response Z
  unfolding get_hash
  hexists params s = get_hash (param 1 params) s λ hash s'.
      respond PError.ok
        (if is_some (Dict.lookup (param 2 params) hash)
          then format_int (pos 1)
          else format_int (pos 0))
        s'

  unfoldable pub hlen : List PString → Store Z → Response Z
  unfolding get_hash
  hlen params s =
      get_hash (param 1 params) s λ hash s'. respond PError.ok (format_int (pos (length hash))) s'

  unfoldable pub hincrby : List PString → Store Z → Response Z
  unfolding get_or_set_hash
  hincrby params s = get_or_set_hash (param 1 params) s λ hash s'.
      elim (incremented (Dict.lookup (param 2 params) hash) (param 3 params)) [
        | none ↦ refuse PError.nan s'
        | some val ↦ respond PError.ok (format_int val) (
            write_value (param 1 params)
              (Value.hash (set_hash_force hash (param 2 params) (print_int val))) s')
      ]

  unfoldable pub hsetnx : List PString → Store Z → Response Z
  unfolding get_or_set_hash
  hsetnx params s = get_or_set_hash (param 1 params) s λ hash s'.
      let r = set_hash_if_notexist hash (param 2 params) (param 3 params) in
      respond PError.ok (if r.0 then format_int (pos 1) else format_int (pos 0))
        (write_value (param 1 params) (Value.hash r.1) s')

  unfoldable pub hstrlen : List PString → Store Z → Response Z
  hstrlen params s =
      with_value env (param 1 params) PType.hash s (λ e s'. respond e format_0 s')
        (λ v s'.
          respond PError.ok
            (elim (Dict.lookup (param 2 params) (cast_hash v)) [
              | none ↦ format_0
              | some str ↦ format_int (pos (length str))
            ])
            s')
