-- ===== src/Strings/Numbers.antt =====
-- The commands of src/pstring.cc on strings that are kept as a `long`.
use pika_panlei.Base.{ℤ, pos, negsuc, ◌+ℤ◌, ◌-ℤ◌, none, some, List, PString}
use pika_panlei.Common.{PType, PError}
use pika_panlei.Common.Number.Strtol.{strtol, wrap_long}
use pika_panlei.Common.Reply.{format_int, reply_error}
use pika_panlei.Store.{Value, Env, Store, write_value}
use pika_panlei.Command.{Response, param, respond, refuse, with_value, or_fresh}

module _ {Z : Type 0} (env : Env Z) where
  -- `ChangeIntValue` on a value. A text that is kept as such is no number, and `PError_ok` is
  -- returned for it.
  unfoldable pub add_to : PString → ℤ → Value Z → Store Z → Response Z
  add_to key delta (Value.int old) s =
      respond PError.ok (format_int (wrap_long (old +ℤ delta)))
        (write_value key (Value.int (wrap_long (old +ℤ delta))) s)
  add_to key delta v s = respond PError.ok (reply_error PError.nan) s

  -- `ChangeIntValue`: a missing value is 0 at first.
  unfoldable pub change_int_value : PString → ℤ → Store Z → Response Z
  unfolding add_to
  change_int_value key delta s =
      with_value env key PType.string s (or_fresh key (Value.int (pos 0)) (add_to key delta))
        (add_to key delta)

  unfoldable pub incr : List PString → Store Z → Response Z
  unfolding change_int_value
  incr params = change_int_value (param 1 params) (pos 1)

  unfoldable pub decr : List PString → Store Z → Response Z
  unfolding change_int_value
  decr params = change_int_value (param 1 params) (negsuc 0)

  unfoldable pub incrby : List PString → Store Z → Response Z
  unfolding change_int_value
  incrby params s = elim (strtol (param 2 params)) [
    | none ↦ refuse PError.nan s
    | some delta ↦ change_int_value (param 1 params) delta s
  ]

  unfoldable pub decrby : List PString → Store Z → Response Z
  unfolding change_int_value
  decrby params s = elim (strtol (param 2 params)) [
    | none ↦ refuse PError.nan s
    | some delta ↦ change_int_value (param 1 params) (wrap_long (pos 0 -ℤ delta)) s
  ]
