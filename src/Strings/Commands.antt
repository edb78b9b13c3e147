-- ===== src/Strings/Commands.antt =====
-- The command functions of src/pstring.cc.
use pika_panlei.Base.{
  ℕ, suc, ◌-◌, ◌*◌, ◌%◌, ℤ, pos, negsuc, ◌+ℤ◌, leb_ℤ, neg_ℕ, pos_part, true, not, Option, none,
  some, List, [], ◌∷◌, ◌++◌, PString, length, drop, ◌==◌, if◌then◌else◌,
}
use pika_panlei.Common.{PType, PError}
use pika_panlei.Common.Index.{adjust_index}
use pika_panlei.Common.Number.Strtol.{strtol, wrap_long, long_bits}
use pika_panlei.Common.Reply.{
  format_int, format_bulk, format_null, format_ok, format_0, format_1, format_empty_bulk,
  pre_format_multi_bulk,
}
use pika_panlei.Store.{
  Value, Env, Store, found, failed, get_value_by_type, set_value, write_value, set_expire,
}
use pika_panlei.Command.{Response, param, respond, refuse, with_value, null_if_missing}
use pika_panlei.Strings.{
  create_string, decoded, replace_range, range_text, store_text, store_new_text, store_texts,
  pair_keys, any_exists,
}

-- `::Now() + n` as a `uint64_t`.
unfoldable pub time_after : ℕ → ℤ → ℕ
time_after now n = long_bits (pos now +ℤ n)

-- `n * 1000`
unfoldable pub milliseconds : ℤ → ℤ
milliseconds (pos n) = wrap_long (pos (n * 1000))
milliseconds (negsuc n) = wrap_long (neg_ℕ (suc n * 1000))

module _ {Z : Type 0} (env : Env Z) where
  unfoldable pub set : List PString → Store Z → Response Z
  unfolding store_text
  set params s = respond PError.ok format_ok (store_text (param 1 params) (param 2 params) s)

  unfoldable pub setnx : List PString → Store Z → Response Z
  unfolding store_new_text
  setnx params s =
      let (stored, s') = store_new_text env (param 1 params) (param 2 params) s in
      respond PError.ok (if stored then format_1 else format_0) s'

  -- The second component: what is appended to `g_dirtyKeys`.
  unfoldable pub mset : List PString → Store Z → Response Z × List PString
  unfolding store_texts pair_keys
  mset params s =
      if not (length params % 2 == 1)
      then (refuse PError.param s, [])
      else (respond PError.ok format_ok (store_texts (drop 1 params) s), pair_keys (drop 1 params))

  unfoldable pub msetnx : List PString → Store Z → Response Z × List PString
  unfolding any_exists store_texts pair_keys
  msetnx params s =
      let (exists, s') = any_exists env (drop 1 params) s in
      if not (length params % 2 == 1)
      then (refuse PError.param s, [])
      else if exists
      then (respond PError.ok format_0 s', [])
      else (respond PError.ok format_1 (store_texts (drop 1 params) s'), pair_keys (drop 1 params))

  unfoldable pub psetex : List PString → Store Z → Response Z
  unfolding create_string time_after
  psetex params s = elim (strtol (param 2 params)) [
    | none ↦ refuse PError.nan s
    | some n ↦ respond PError.ok format_ok (
        set_expire (param 1 params) (time_after env.now n)
          (set_value (param 1 params) (create_string (param 3 params)) s))
  ]

  unfoldable pub setex : List PString → Store Z → Response Z
  unfolding create_string time_after milliseconds
  setex params s = elim (strtol (param 2 params)) [
    | none ↦ refuse PError.nan s
    | some n ↦ respond PError.ok format_ok (
        set_expire (param 1 params) (time_after env.now (milliseconds n))
          (set_value (param 1 params) (create_string (param 3 params)) s))
  ]

  -- `none` for a negative offset: `resize` or `replace` throws.
  unfoldable pub write_range : PString → ℤ → PString → Value Z → Store Z → Option (Response Z)
  unfolding replace_range decoded
  write_range key (negsuc n) text v s = none
  write_range key (pos offset) text v s =
      let str = replace_range offset text (decoded v) in
      some (respond PError.ok (format_int (pos (length str))) (write_value key (Value.raw str) s))

  -- `value = PSTORE.SetValue(key, PObject::CreateString(text))` in place of a missing value.
  unfoldable pub or_text :
      PString
      → PString
      → (PError → Store Z → Option (Response Z))
      → (Value Z → Store Z → Option (Response Z))
      → PError
      → Store Z
      → Option (Response Z)
  unfolding create_string
  or_text key text on_error k PError.not_exist s =
      k (create_string text) (set_value key (create_string text) s)
  or_text key text on_error k e s = on_error e s

  unfoldable pub setrange : List PString → Store Z → Option (Response Z)
  unfolding write_range or_text
  setrange params s = elim (strtol (param 2 params)) [
    | none ↦ some (refuse PError.nan s)
    | some offset ↦
        with_value env (param 1 params) PType.string s
          (or_text (param 1 params) [] (λ e s'. some (refuse e s'))
            (write_range (param 1 params) offset (param 3 params)))
          (write_range (param 1 params) offset (param 3 params))
  ]

  unfoldable pub get : List PString → Store Z → Response Z
  unfolding decoded
  get params s =
      with_value env (param 1 params) PType.string s null_if_missing
        λ v s'. respond PError.ok (format_bulk (decoded v)) s'

  -- The loop of `mget`.
  unfoldable pub get_texts : List PString → Store Z → PString × Store Z
  unfolding decoded
  get_texts [] s = ([], s)
  get_texts (key ∷ rest) s =
      let (r, s₁) = get_value_by_type env key PType.string true s in
      let (text, s₂) = get_texts rest s₁ in
      (elim r [ failed e ↦ format_null | found o ↦ format_bulk (decoded o.value) ] ++ text, s₂)

  unfoldable pub mget : List PString → Store Z → Response Z
  unfolding get_texts
  mget params s =
      let (text, s') = get_texts (drop 1 params) s in
      respond PError.ok (pre_format_multi_bulk (length params - 1) ++ text) s'

  unfoldable pub getrange : List PString → Store Z → Response Z
  unfolding decoded range_text
  getrange params s =
      with_value env (param 1 params) PType.string s
        (λ e s'. elim e [
          | PError.not_exist ↦ respond PError.not_exist (format_bulk []) s'
          | e' ↦ refuse e' s'
        ])
        λ v s'. elim (strtol (param 2 params)) [
          | none ↦ refuse PError.nan s'
          | some start ↦ elim (strtol (param 3 params)) [
            | none ↦ refuse PError.nan s'
            | some end ↦
                let (start', end') = adjust_index start end (length (decoded v)) in
                respond PError.ok
                  (if leb_ℤ start' end'
                    then format_bulk (range_text (pos_part start') (pos_part end') (decoded v))
                    else format_empty_bulk)
                  s'
          ]
        ]

  unfoldable pub getset : List PString → Store Z → Response Z
  unfolding decoded create_string
  getset params s =
      with_value env (param 1 params) PType.string s
        (λ e s'. elim e [
          | PError.not_exist ↦
              respond PError.ok format_null
                (set_value (param 1 params) (create_string (param 2 params)) s')
          | e' ↦ refuse e' s'
        ])
        λ v s'.
          respond PError.ok (format_bulk (decoded v))
            (set_value (param 1 params) (create_string (param 2 params)) s')

  -- `append` stores the new text and answers its length.
  unfoldable pub store_appended : PString → PString → Store Z → Response Z
  unfolding decoded create_string
  store_appended key text s =
      let v : Value Z = create_string text in
      respond PError.ok (format_int (pos (length (decoded v)))) (set_value key v s)

  unfoldable pub append : List PString → Store Z → Response Z
  unfolding decoded store_appended
  append params s =
      with_value env (param 1 params) PType.string s
        (λ e s'. elim e [
          | PError.not_exist ↦ store_appended (param 1 params) (param 2 params) s'
          | e' ↦ refuse e' s'
        ])
        λ v s'. store_appended (param 1 params) (decoded v ++ param 2 params) s'

  unfoldable pub strlen : List PString → Store Z → Response Z
  unfolding decoded
  strlen params s =
      with_value env (param 1 params) PType.string s (λ e s'. respond e format_0 s')
        λ v s'. respond PError.ok (format_int (pos (length (decoded v)))) s'
