-- ===== src/Set/Stored.antt =====
-- `sdiffstore`, `sinterstore` and `sunionstore`. The result is the set under the target itself, which
-- is emptied before the sources are looked up, so a source that is the target sees the result so far.
use pika_panlei.Base.{
  pos, true, false, Option, none, some, List, [], ◌∷◌, PString, str_eq, length, drop, if◌then◌else◌,
}
use pika_panlei.Base.Members.{Members}
use pika_panlei.Common.{PType, PError}
use pika_panlei.Common.Reply.{format_int}
use pika_panlei.Store.{
  Value, Env, Store, Fetched, found, failed, get_value_by_type, set_value, write_value,
}
use pika_panlei.Command.{Response, param, respond, cast_set}
use pika_panlei.Set.{SetOperation, combine, is_done}

module _ {Z : Type 0} (env : Env Z) (target : PString) where
  -- A lookup of a source. `none` where it deletes the target, and with it the result.
  unfoldable pub fetch_source : PString → Store Z → Option (Fetched Z × Store Z)
  fetch_source name s =
      let r = get_value_by_type env name PType.set true s in
      elim r.0 [ failed e ↦ if str_eq name target then none else some r | found o ↦ some r ]

  -- The rounds of `_set_operation`, with `res` under the target.
  unfoldable pub fold_stored :
      SetOperation → List PString → Members → Store Z → Option (Members × Store Z)
  unfolding fetch_source combine is_done
  fold_stored oper [] res s = some (res, s)
  fold_stored oper (name ∷ rest) res s = elim (fetch_source name s) [
    | none ↦ none
    | some (failed e, s') ↦ elim oper [
      | SetOperation.inter ↦ some ([], write_value target (Value.set []) s')
      | _ ↦ fold_stored oper rest res s'
    ]
    | some (found o, s') ↦
        let tmp = combine oper res (cast_set o.value) in
        let s₂ = write_value target (Value.set tmp) s' in
        elim (is_done oper tmp) [ true ↦ some (tmp, s₂) | false ↦ fold_stored oper rest tmp s₂ ]
  ]

  -- `_set_operation` from its first key on.
  unfoldable pub set_operation_stored :
      SetOperation → List PString → Store Z → Option (Members × Store Z)
  unfolding fetch_source fold_stored
  set_operation_stored oper [] s = none
  set_operation_stored oper (name ∷ rest) s = elim (fetch_source name s) [
    | none ↦ none
    | some (failed e, s') ↦ elim oper [ SetOperation.union ↦ none | _ ↦ some ([], s') ]
    | some (found o, s') ↦
        let m = cast_set o.value in fold_stored oper rest m (write_value target (Value.set m) s')
  ]

module _ {Z : Type 0} (env : Env Z) where
  unfoldable pub set_store : SetOperation → List PString → Store Z → Option (Response Z)
  unfolding set_operation_stored
  set_store oper params s =
      let s₁ = set_value (param 1 params) (Value.set []) s in
      elim (set_operation_stored env (param 1 params) oper (drop 2 params) s₁) [
        | none ↦ none
        | some (res, s') ↦ some (respond PError.ok (format_int (pos (length res))) s')
      ]

  unfoldable pub sdiffstore : List PString → Store Z → Option (Response Z)
  unfolding set_store
  sdiffstore = set_store SetOperation.diff

  unfoldable pub sinterstore : List PString → Store Z → Option (Response Z)
  unfolding set_store
  sinterstore = set_store SetOperation.inter

  unfoldable pub sunionstore : List PString → Store Z → Option (Response Z)
  unfolding set_store
  sunionstore = set_store SetOperation.union
