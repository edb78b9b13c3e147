-- ===== src/Strings/BitCommands.antt =====
-- The bit commands of src/pstring.cc.
use pika_panlei.Base.{
  ℕ, ◌+◌, ◌-◌, ◌*◌, ◌^◌, ℤ, pos, negsuc, leb_ℤ, ltb_ℤ, pos_part, true, ◌&&◌, ◌||◌, not, Option,
  none, some, List, [], ◌∷◌, PString, codes, length, drop, take, ◌==◌, if◌then◌else◌,
}
use pika_panlei.Common.{PType, PError}
use pika_panlei.Common.Case.{is_word}
use pika_panlei.Common.Index.{adjust_index}
use pika_panlei.Common.Number.Strtol.{strtol}
use pika_panlei.Common.Reply.{format_int, format_0, format_1, reply_error}
use pika_panlei.Store.{Value, Env, Store, found, failed, get_value_by_type, set_value, write_value}
use pika_panlei.Command.{Response, param, respond, refuse, with_value}
use pika_panlei.Strings.{create_string, decoded}
use pika_panlei.Strings.Bits.{bit_count, text_bit, set_text_bit, BitOp, bit_op_round, bit_op_not}

abbrev pub string_max_bytes : ℕ
string_max_bytes = 2 ^ 30

-- The bits from the start to the end of `bitcount`.
unfoldable pub count_range : ℤ → ℤ → PString → ℕ
count_range start end str =
    let (start', end') = adjust_index start end (length str) in
    if leb_ℤ start' end'
    then bit_count (take (pos_part end' - pos_part start' + 1) (drop (pos_part start') str))
    else 0

-- The bounds of `bitcount`, which may be left out.
unfoldable pub bounds : List PString → Option (ℤ × ℤ)
bounds params =
    if length params == 4
    then elim (strtol (param 2 params)) [
      | none ↦ none
      | some start ↦ elim (strtol (param 3 params)) [ none ↦ none | some end ↦ some (start, end) ]
    ]
    else some (pos 0, negsuc 0)

-- The names of `bitop`, in any case. `not` takes one key.
unfoldable pub bit_op_of : List PString → Option BitOp
bit_op_of params =
    let name = param 1 params in
    if is_word name (codes "or")
    then some BitOp.or
    else if is_word name (codes "xor")
    then some BitOp.xor
    else if is_word name (codes "and")
    then some BitOp.and
    else if is_word name (codes "not") && length params == 4
    then some BitOp.not
    else none

module _ {Z : Type 0} (env : Env Z) where
  unfoldable pub bitcount : List PString → Store Z → Response Z
  unfolding decoded count_range bounds
  bitcount params s =
      with_value env (param 1 params) PType.string s
        (λ e s'.
          respond PError.ok (elim e [ PError.type ↦ reply_error PError.type | _ ↦ format_0 ]) s')
        λ v s'.
          if not (length params == 2) && not (length params == 4)
          then refuse PError.param s'
          else elim (bounds params) [
            | none ↦ refuse PError.nan s'
            | some (start, end) ↦
                respond PError.ok (format_int (pos (count_range start end (decoded v)))) s'
          ]

  unfoldable pub getbit : List PString → Store Z → Response Z
  unfolding decoded
  getbit params s =
      with_value env (param 1 params) PType.string s (λ e s'. respond PError.ok format_0 s')
        λ v s'. elim (strtol (param 2 params)) [
          | none ↦ refuse PError.nan s'
          | some offset ↦
              if ltb_ℤ offset (pos 0) || leb_ℤ (pos (8 * length (decoded v))) offset
              then respond PError.ok format_0 s'
              else respond PError.ok
                  (if text_bit (pos_part offset) (decoded v) == 0 then format_0 else format_1) s'
        ]

  -- `setbit` on a value. The old bit is read from the text that has been made long enough.
  unfoldable pub write_bit : PString → PString → PString → Value Z → Store Z → Response Z
  unfolding decoded
  write_bit key offset_text on_text v s = elim (strtol offset_text) [
    | none ↦ refuse PError.nan s
    | some offset ↦ elim (strtol on_text) [
      | none ↦ refuse PError.nan s
      | some on ↦
          if ltb_ℤ offset (pos 0) || ltb_ℤ (pos string_max_bytes) offset
          then respond PError.ok format_0 s
          else respond PError.ok (format_int (pos (text_bit (pos_part offset) (decoded v)))) (
              write_value key
                (Value.raw (
                  set_text_bit (pos_part offset) (not (pos_part on == 0 && leb_ℤ (pos 0) on))
                    (decoded v)))
                s)
    ]
  ]

  unfoldable pub setbit : List PString → Store Z → Response Z
  unfolding write_bit create_string
  setbit params s =
      let k = write_bit (param 1 params) (param 2 params) (param 3 params) in
      with_value env (param 1 params) PType.string s
        (λ e s'. elim e [
          | PError.not_exist ↦
              k (create_string []) (set_value (param 1 params) (create_string []) s')
          | e' ↦ respond e' format_0 s'
        ])
        k

  -- The loop of `StringBitOp` over the keys.
  unfoldable pub combine_texts : BitOp → List PString → PString → Store Z → PString × Store Z
  unfolding decoded
  combine_texts op [] res s = (res, s)
  combine_texts op (key ∷ rest) res s =
      let (r, s') = get_value_by_type env key PType.string true s in
      elim r [
        | failed e ↦ combine_texts op rest res s'
        | found o ↦ combine_texts op rest (bit_op_round op res (decoded o.value)) s'
      ]

  unfoldable pub string_bit_op : BitOp → List PString → Store Z → PString × Store Z
  unfolding decoded combine_texts
  string_bit_op BitOp.not keys s =
      let (r, s') = get_value_by_type env (param 0 keys) PType.string true s in
      (elim r [ failed e ↦ [] | found o ↦ bit_op_not (decoded o.value) ], s')
  string_bit_op op keys s = combine_texts op keys [] s

  unfoldable pub bitop : List PString → Store Z → Response Z
  unfolding bit_op_of string_bit_op create_string
  bitop params s = elim (bit_op_of params) [
    | none ↦ respond PError.ok (reply_error PError.param) s
    | some op ↦
        let (res, s') = string_bit_op op (drop 3 params) s in
        respond PError.ok (format_int (pos (length res)))
          (set_value (param 2 params) (create_string res) s')
  ]
