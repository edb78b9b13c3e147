-- ===== src/Set.antt =====
-- The set commands of src/set.cc. The member that `RandomMember` picks is a parameter.
pub mod Algebra
pub mod Laws
pub mod Stored
use pika_panlei.Base.{
  ℕ, suc, ◌+◌, ℤ, pos, Bool, true, false, ◌&&◌, not, Option, none, some, List, [], ◌∷◌, ◌++◌,
  PString, length, drop, if◌then◌else◌,
}
use pika_panlei.Base.Members
use pika_panlei.Base.Members.{Members, contains}
use pika_panlei.Common.{PType, PError}
use pika_panlei.Common.Reply.{format_int, format_bulk, format_null, pre_format_multi_bulk}
use pika_panlei.Store.{
  Value, Object, Env, Store, Fetched, found, failed, is_empty, get_value_by_type, set_value,
  write_value, delete_key,
}
use pika_panlei.Command.{
  Response, param, respond, refuse, cast_set, with_value, or_fresh, null_if_missing,
}

-- The loop of `sadd`: how many were new, and the set with them.
unfoldable pub add_members : List PString → ℕ → Members → ℕ × Members
add_members [] res s = (res, s)
add_members (m ∷ rest) res s =
    add_members rest (if contains m s then res else res + 1) (Members.insert m s)

-- The loop of `srem`.
unfoldable pub rem_members : List PString → ℕ → Members → ℕ × Members
rem_members [] res s = (res, s)
rem_members (m ∷ rest) res s =
    rem_members rest (if contains m s then res + 1 else res) (Members.erase m s)

-- Each of the three goes on with `result`, as the source inserts into it.
unfoldable pub set_diff : Members → Members → Members → Members
set_diff [] r result = result
set_diff (le ∷ l) r result =
    set_diff l r (if contains le r then result else Members.insert le result)

unfoldable pub set_inter : Members → Members → Members → Members
set_inter [] r result = result
set_inter (le ∷ l) r result =
    set_inter l r (if contains le r then Members.insert le result else result)

unfoldable pub insert_all : Members → Members → Members
insert_all [] result = result
insert_all (e ∷ l) result = insert_all l (Members.insert e result)

unfoldable pub set_union : Members → Members → Members → Members
unfolding insert_all
set_union l r result = insert_all l (insert_all r result)

pub data SetOperation : Type 0 where
  diff inter union : SetOperation

-- The member operation of a round, into an empty `tmp`.
unfoldable pub combine : SetOperation → Members → Members → Members
unfolding set_diff set_inter set_union
combine SetOperation.diff res r = set_diff res r []
combine SetOperation.inter res r = set_inter res r []
combine SetOperation.union res r = set_union res r []

-- The early return when nothing is left.
unfoldable pub is_done : SetOperation → Members → Bool
is_done SetOperation.union res = false
is_done oper res = is_empty res

-- A bulk string for each member.
unfoldable pub format_members : Members → PString
format_members [] = []
format_members (m ∷ rest) = format_bulk m ++ format_members rest

module _ {Z : Type 0} where
  -- The set is written back, or its key deleted if it is empty.
  unfoldable pub write_or_delete : PString → Members → Store Z → Store Z
  write_or_delete name m s =
      if is_empty m
      then (delete_key name (write_value name (Value.set m) s)).1
      else write_value name (Value.set m) s

  -- The set behind the lookup of the target of `smove`, where the member goes.
  unfoldable pub smove_target : PString → PString → Fetched Z × Store Z → PError × Store Z
  smove_target name member (found o, s) =
      (PError.ok, write_value name (Value.set (Members.insert member (cast_set o.value))) s)
  smove_target name member (failed PError.not_exist, s) = (
    PError.ok,
    write_value name (Value.set (Members.insert member [])) (set_value name (Value.set []) s),
  )
  smove_target name member (failed e, s) = (e, s)

module _ {Z : Type 0} (env : Env Z) where
  -- `GET_SET` and the code behind it.
  unfoldable pub get_set : PString → Store Z → (Members → Store Z → Response Z) → Response Z
  get_set name s k = with_value env name PType.set s null_if_missing (λ v. k (cast_set v))

  -- `GET_OR_SET_SET` and the code behind it.
  unfoldable pub get_or_set_set : PString → Store Z → (Members → Store Z → Response Z) → Response Z
  get_or_set_set name s k =
      with_value env name PType.set s (or_fresh name (Value.set []) (λ v. k (cast_set v)))
        (λ v. k (cast_set v))

  -- `pick` is the member that `RandomMember` found. The client is also told to propagate
  -- `srem key member` in place of the command.
  unfoldable pub spop : (Members → Option PString) → List PString → Store Z → Response Z
  unfolding get_set write_or_delete
  spop pick params s = get_set (param 1 params) s λ m s'. elim (pick m) [
    | none ↦ respond PError.not_exist format_null s'
    | some res ↦
        respond PError.ok (format_bulk res)
          (write_or_delete (param 1 params) (Members.erase res m) s')
  ]

  unfoldable pub srandmember : (Members → Option PString) → List PString → Store Z → Response Z
  unfolding get_set
  srandmember pick params s = get_set (param 1 params) s λ m s'.
      respond PError.ok (elim (pick m) [ none ↦ format_null | some res ↦ format_bulk res ]) s'

  unfoldable pub sadd : List PString → Store Z → Response Z
  unfolding get_or_set_set
  sadd params s = get_or_set_set (param 1 params) s λ m s'.
      let r = add_members (drop 2 params) 0 m in
      respond PError.ok (format_int (pos r.0)) (write_value (param 1 params) (Value.set r.1) s')

  unfoldable pub scard : List PString → Store Z → Response Z
  unfolding get_set
  scard params s =
      get_set (param 1 params) s λ m s'. respond PError.ok (format_int (pos (length m))) s'

  unfoldable pub srem : List PString → Store Z → Response Z
  unfolding get_set write_or_delete
  srem params s = get_set (param 1 params) s λ m s'.
      let r = rem_members (drop 2 params) 0 m in
      respond PError.ok (format_int (pos r.0)) (write_or_delete (param 1 params) r.1 s')

  unfoldable pub sismember : List PString → Store Z → Response Z
  unfolding get_set
  sismember params s = get_set (param 1 params) s λ m s'.
      respond PError.ok
        (if contains (param 2 params) m then format_int (pos 1) else format_int (pos 0)) s'

  unfoldable pub smembers : List PString → Store Z → Response Z
  unfolding get_set
  smembers params s =
      get_set (param 1 params) s
        λ m s'. respond PError.ok (pre_format_multi_bulk (length m) ++ format_members m) s'

  -- The member leaves its set before the target is looked up.
  unfoldable pub smove : List PString → Store Z → Response Z
  unfolding get_set smove_target
  smove params s = get_set (param 1 params) s λ m s'.
      let s₁ = write_value (param 1 params) (Value.set (Members.erase (param 3 params) m)) s' in
      let r =
        smove_target (param 2 params) (param 3 params)
          (get_value_by_type env (param 2 params) PType.set true s₁) in
      if contains (param 3 params) m
      then respond r.0 (format_int (pos 1)) r.1
      else respond PError.ok (format_int (pos 0)) s'

  -- The rounds of `_set_operation`.
  unfoldable pub fold_sets : SetOperation → List PString → Members → Store Z → Members × Store Z
  unfolding combine is_done
  fold_sets oper [] res s = (res, s)
  fold_sets oper (name ∷ rest) res s =
      let (r, s') = get_value_by_type env name PType.set true s in
      elim r [
        | failed e ↦ elim oper [ SetOperation.inter ↦ ([], s') | _ ↦ fold_sets oper rest res s' ]
        | found o ↦
            let tmp = combine oper res (cast_set o.value) in
            elim (is_done oper tmp) [ true ↦ (tmp, s') | false ↦ fold_sets oper rest tmp s' ]
      ]

  -- `_set_operation` from its first key on. For a union whose first key has no set the source reads
  -- an uninitialized pointer: `none`.
  unfoldable pub set_operation : SetOperation → List PString → Store Z → Option Members × Store Z
  unfolding fold_sets
  set_operation oper [] s = (none, s)
  set_operation oper (name ∷ rest) s =
      let (r, s') = get_value_by_type env name PType.set true s in
      elim r [
        | failed e ↦ elim oper [ SetOperation.union ↦ (none, s') | _ ↦ (some [], s') ]
        | found o ↦ let (m, s₂) = fold_sets oper rest (cast_set o.value) s' in (some m, s₂)
      ]

  -- `sdiff`, `sinter` and `sunion`; `none` where `_set_operation` goes wrong.
  unfoldable pub set_query : SetOperation → List PString → Store Z → Option (Response Z)
  unfolding set_operation
  set_query oper params s =
      let (r, s') = set_operation oper (drop 1 params) s in
      elim r [
        | none ↦ none
        | some res ↦
            some (respond PError.ok (pre_format_multi_bulk (length res) ++ format_members res) s')
      ]

  unfoldable pub sdiff : List PString → Store Z → Option (Response Z)
  unfolding set_query
  sdiff = set_query SetOperation.diff

  unfoldable pub sinter : List PString → Store Z → Option (Response Z)
  unfolding set_query
  sinter = set_query SetOperation.inter

  unfoldable pub sunion : List PString → Store Z → Option (Response Z)
  unfolding set_query
  sunion = set_query SetOperation.union
