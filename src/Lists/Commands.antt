-- ===== src/Lists/Commands.antt =====
-- The command functions of src/list.cc.
use pika_panlei.Base.{
  pos, negsuc, true, ◌&&◌, not, Option, none, some, List, [], ◌∷◌, ◌++◌, PString, str_eq, codes,
  length, if◌then◌else◌,
}
use pika_panlei.Common.{PType, PError}
use pika_panlei.Common.Number.{LongScan, try_str2long}
use pika_panlei.Common.Number.Strtol.{strtol}
use pika_panlei.Common.Reply.{
  format_int, format_bulk, format_null, format_ok, format_0, pre_format_multi_bulk, reply_error,
}
use pika_panlei.Base.Dict
use pika_panlei.Store.{
  Value, Env, Store, Fetched, found, failed, db, is_empty, get_value_by_type, set_value,
  write_value, delete_key,
}
use pika_panlei.Command.{Response, param, respond, refuse, cast_list, with_value}
use pika_panlei.Lists.{
  ListPosition, pop_end, normal_index, at_index, set_index, trim, range_of, visit, format_bulks,
  insert_at, remove_by,
}

module _ {Z : Type 0} where
  -- The list is written back, and its key deleted if it is empty.
  unfoldable pub write_popped : PString → List PString → Store Z → Store Z
  write_popped key l s =
      if is_empty l
      then (delete_key key (write_value key (Value.list l) s)).1
      else write_value key (Value.list l) s

  -- The list behind a pointer at the moment.
  unfoldable pub list_now : PString → Store Z → List PString
  list_now key s = elim (Dict.lookup key (db s)) [ none ↦ [] | some o ↦ cast_list o.value ]

  -- Moves the last element of one list to the front of another, which may be the same.
  unfoldable pub splice_last :
      PString → PString → (PString × List PString) → Store Z → PString × Store Z
  unfolding list_now
  splice_last src dst (x, rest) s =
      let s' = write_value src (Value.list rest) s in
      (x, write_value dst (Value.list (x ∷ list_now dst s')) s')

module _ {Z : Type 0} (env : Env Z) where
  -- A command on a list that answers errors by a function.
  unfoldable pub with_list :
      PString
      → Store Z
      → (PError → Store Z → Option (Response Z))
      → (List PString → Store Z → Option (Response Z))
      → Option (Response Z)
  with_list key s on_error k = with_value env key PType.list s on_error λ v s'. k (cast_list v) s'

  -- `lpop` and `rpop`: `GenericPop`, which asserts that the list is not empty, and the reply.
  unfoldable pub pop : ListPosition → List PString → Store Z → Option (Response Z)
  unfolding with_list write_popped
  pop position params s =
      with_list (param 1 params) s (λ e s'. some (refuse e s'))
        λ l s'. elim (pop_end position l) [
          | none ↦ none
          | some (result, rest) ↦
              some (respond PError.ok (format_bulk result) (write_popped (param 1 params) rest s'))
        ]

  unfoldable pub lpop : List PString → Store Z → Option (Response Z)
  unfolding pop
  lpop = pop ListPosition.head

  unfoldable pub rpop : List PString → Store Z → Option (Response Z)
  unfolding pop
  rpop = pop ListPosition.tail

  unfoldable pub lindex : List PString → Store Z → Option (Response Z)
  unfolding with_list
  lindex params s =
      with_list (param 1 params) s (λ e s'. some (respond e format_null s'))
        λ l s'. elim (try_str2long (param 2 params)) [
          | LongScan.failed ↦ some (refuse PError.nan s')
          | LongScan.overflow ↦ none
          | LongScan.ok idx ↦ elim (normal_index idx (length l)) [
            | none ↦ some (respond PError.ok format_null s')
            | some i ↦ elim (at_index i l) [
              | none ↦ none
              | some text ↦ some (respond PError.ok (format_bulk text) s')
            ]
          ]
        ]

  -- An index that is out of range answers a null bulk string.
  unfoldable pub lset : List PString → Store Z → Option (Response Z)
  unfolding with_list
  lset params s =
      with_list (param 1 params) s (λ e s'. some (respond e (reply_error PError.not_exist) s'))
        λ l s'. elim (try_str2long (param 2 params)) [
          | LongScan.failed ↦ some (respond PError.not_exist (reply_error PError.param) s')
          | LongScan.overflow ↦ none
          | LongScan.ok idx ↦ elim (normal_index idx (length l)) [
            | none ↦ some (respond PError.ok format_null s')
            | some i ↦ some (
                respond PError.ok format_ok
                  (write_value (param 1 params) (Value.list (set_index i (param 3 params) l)) s'))
          ]
        ]

  unfoldable pub llen : List PString → Store Z → Option (Response Z)
  unfolding with_list
  llen params s =
      with_list (param 1 params) s
        (λ e s'.
          some (elim e [ PError.type ↦ refuse PError.type s' | e' ↦ respond e' format_0 s' ]))
        λ l s'. some (respond PError.ok (format_int (pos (length l))) s')

  -- A bound that is no number answers an error, and returns `PError_ok`.
  unfoldable pub ltrim : List PString → Store Z → Option (Response Z)
  unfolding with_list
  ltrim params s =
      with_list (param 1 params) s (λ e s'. some (refuse e s'))
        λ l s'. elim (strtol (param 2 params)) [
          | none ↦ some (respond PError.ok (reply_error PError.param) s')
          | some start ↦ elim (strtol (param 3 params)) [
            | none ↦ some (respond PError.ok (reply_error PError.param) s')
            | some end ↦ some (
                respond PError.ok format_ok
                  (write_value (param 1 params) (Value.list (trim start end l)) s'))
          ]
        ]

  unfoldable pub lrange : List PString → Store Z → Option (Response Z)
  unfolding with_list
  lrange params s =
      with_list (param 1 params) s (λ e s'. some (refuse e s'))
        λ l s'. elim (strtol (param 2 params)) [
          | none ↦ some (respond PError.ok (reply_error PError.param) s')
          | some start ↦ elim (strtol (param 3 params)) [
            | none ↦ some (respond PError.ok (reply_error PError.param) s')
            | some end ↦
                let r = range_of start end (length l) in
                some
                  (respond PError.ok (pre_format_multi_bulk r.len ++ format_bulks (visit r l)) s')
          ]
        ]

  -- `before` and `after` are compared as they are written.
  unfoldable pub linsert : List PString → Store Z → Option (Response Z)
  unfolding with_list
  linsert params s =
      with_list (param 1 params) s (λ e s'. some (respond e format_0 s'))
        λ l s'.
          let before = str_eq (param 2 params) (codes "before") in
          if not before && not (str_eq (param 2 params) (codes "after"))
          then some (refuse PError.param s')
          else elim (insert_at before (param 3 params) (param 4 params) l) [
            | none ↦ some (respond PError.not_exist (format_int (negsuc 0)) s')
            | some l' ↦ some (
                respond PError.ok (format_int (pos (length l')))
                  (write_value (param 1 params) (Value.list l') s'))
          ]

  unfoldable pub lrem : List PString → Store Z → Option (Response Z)
  unfolding with_list
  lrem params s =
      with_list (param 1 params) s (λ e s'. some (respond e format_0 s'))
        λ l s'. elim (strtol (param 2 params)) [
          | none ↦ some (respond PError.ok (reply_error PError.param) s')
          | some count ↦ elim (remove_by count (param 3 params) l) [
            | none ↦ none
            | some (n, l') ↦ some (
                respond PError.ok (format_int (pos n))
                  (write_value (param 1 params) (Value.list l') s'))
          ]
        ]

  -- The target's part of `rpoplpush`.
  unfoldable pub push_to :
      PString → PString → PString × List PString → Fetched Z × Store Z → Response Z
  unfolding splice_last
  push_to src dst e (found o, s) =
      let r = splice_last src dst e s in respond PError.ok (format_bulk r.0) r.1
  push_to src dst e (failed PError.not_exist, s) =
      let r = splice_last src dst e (set_value dst (Value.list []) s) in
      respond PError.ok (format_bulk r.0) r.1
  push_to src dst e (failed err, s) = refuse err s

  unfoldable pub rpoplpush : List PString → Store Z → Option (Response Z)
  unfolding with_list push_to
  rpoplpush params s =
      with_list (param 1 params) s (λ e s'. some (respond e format_null s'))
        λ l s'. elim (pop_end ListPosition.tail l) [
          | none ↦ none
          | some e ↦ some (
              push_to (param 1 params) (param 2 params) e
                (get_value_by_type env (param 2 params) PType.list true s'))
        ]
