-- ===== src/Command.antt =====
-- What the command functions share: `PError f(const vector<PString>& params, UnboundedBuffer* reply)`
-- is a function of the parameters and the store, and its reply is the text that it appends. The
-- command table has checked the number of parameters.
pub mod Refines
pub mod Rules
use pika_panlei.Base.{ℕ, List, PString, get_or, [], Option, none, some, Bool, true, false}
use pika_panlei.Base.Dict.{Dict}
use pika_panlei.Base.Members.{Members}
use pika_panlei.Common.{PType, PError}
use pika_panlei.Common.Reply.{reply_error, format_null}
use pika_panlei.Store.{
  Value, Object, Env, Store, Fetched, found, failed, get_value_by_type, set_value,
}

pub record Response (Z : Type 0) : Type 0 where
  pub code : PError
  pub reply : PString
  pub store : Store Z

-- `params[i]`
abbrev pub param : ℕ → List PString → PString
param i params = get_or params i []

abbrev pub respond : {Z : Type 0} → PError → PString → Store Z → Response Z
respond code reply s = record { code = code; reply = reply; store = s }

-- `ReplyError(err, reply); return err;`
abbrev pub refuse : {Z : Type 0} → PError → Store Z → Response Z
refuse e s = record { code = e; reply = reply_error e; store = s }

module _ {Z : Type 0} where
  -- `CastHash` and its like, on an object whose type has been tested.
  unfoldable pub cast_hash : Value Z → Dict PString
  cast_hash (Value.hash h) = h
  cast_hash _ = []

  unfoldable pub cast_set : Value Z → Members
  cast_set (Value.set m) = m
  cast_set _ = []

  unfoldable pub cast_list : Value Z → List PString
  cast_list (Value.list l) = l
  cast_list _ = []

  -- What a command does on an error and on a value. `R` is `Response Z`, or `Option (Response Z)` for
  -- a command whose run can go wrong.
  abbrev pub branch :
      {R : Type 0} → (PError → Store Z → R) → (Value Z → Store Z → R) → Fetched Z × Store Z → R
  branch on_error on_value (failed e, s) = on_error e s
  branch on_error on_value (found o, s) = on_value o.value s

  -- A lookup by type and the branches behind it.
  unfoldable pub with_value :
      {R : Type 0}
      → Env Z
      → PString
      → PType
      → Store Z
      → (PError → Store Z → R)
      → (Value Z → Store Z → R)
      → R
  with_value env key type s on_error on_value =
      branch on_error on_value (get_value_by_type env key type true s)

  -- The part of `GET_OR_SET_…` after an error: a missing key gets a fresh value.
  unfoldable pub or_fresh :
      PString → Value Z → (Value Z → Store Z → Response Z) → PError → Store Z → Response Z
  or_fresh key fresh on_value PError.not_exist s = on_value fresh (set_value key fresh s)
  or_fresh key fresh on_value e s = refuse e s

  -- `GET_SET` answers a missing key by a null bulk string.
  unfoldable pub null_if_missing : PError → Store Z → Response Z
  null_if_missing PError.not_exist s = respond PError.not_exist format_null s
  null_if_missing e s = refuse e s
