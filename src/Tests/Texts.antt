-- ===== src/Tests/Texts.antt =====
-- Strings and keys.
use pika_panlei.Base.{
  ℕ, ◌+◌, ◌-◌, ◌^◌, ◌<◌, pos, negsuc, ◌+ℤ◌, ◌≡◌, refl, inl, true, some, [], ◌∷◌, codes, length,
  ◌==◌, if◌then◌else◌, str_eq, arith,
}
use pika_panlei.Base.Dict
use pika_panlei.Common.{PError}
use pika_panlei.Common.Number.Strtol.{strtol, wrap_long}
use pika_panlei.Common.Number.Print.{print_int}
use pika_panlei.Common.Number.Decimal.{strtol-print_int}
use pika_panlei.Common.Reply.{format_int, format_bulk, reply_error}
use pika_panlei.Store.{Value, Object, Env, Store, expire_keys}
use pika_panlei.Store.View.{visible, IsValid}
use pika_panlei.Store.Writes.{put, remove}
use pika_panlei.Command.Refines.{Answers}
use pika_panlei.Strings.{create_string, replace_range, range_text}
use pika_panlei.Strings.Bits.{text_bit, set_text_bit, bit_count}
use pika_panlei.Strings.Commands.{set, get}
use pika_panlei.Strings.Numbers.{change_int_value}
use pika_panlei.Strings.Laws.{canonical, get-set, change_int_value-Answers}
use pika_panlei.Strings.Ranges.{
  range_text-replace_range, sum_of_bits, bit_count_lem, text_bit-set_text_bit,
}
use pika_panlei.Keys.{rename}
use pika_panlei.Keys.Rename.{rename-Answers}
use pika_panlei.Tests.Keys.{env, object, fields, elements, store, valid}

-- `n` holds a number, `w` expires at 5000, `h` does not.
abbrev timed_store : Store ℕ
timed_store = record {
  dbs =
      ((codes "n", object (Value.int (pos 41)))
        ∷ (codes "h", object (Value.hash fields))
        ∷ (codes "w", object (Value.list elements))
        ∷ [])
      ∷ [];
  expired_dbs = ((codes "w", 5000) ∷ []) ∷ [];
  wait_sync = [];
  dbno = 0;
  lruclock = 7;
}

timed_valid : IsValid env timed_store
timed_valid = record { db_in = omega arith; expire_in = omega arith; sync_in = inl refl }

timed : (w : ℕ) → Dict.lookup (codes "t") (expire_keys store) ≡ some w → w < 2 ^ 64
unfolding Dict.lookup str_eq
timed w e = ground arith

get-set_example :
    Answers env PError.ok
      (format_bulk (canonical (codes "0x10")))
      (put (codes "t") (create_string (codes "0x10")) (visible env store))
      (get env
        (codes "get" ∷ codes "t" ∷ [])
        (set env (codes "set" ∷ codes "t" ∷ codes "0x10" ∷ []) store).store)
get-set_example =
    get-set env store valid (codes "set") (codes "get") (codes "t") (codes "0x10") timed

change_int_value-Answers_example :
    Answers env PError.ok
      (format_int (wrap_long (pos 41 +ℤ pos 9)))
      (put (codes "n") (Value.int (wrap_long (pos 41 +ℤ pos 9))) (visible env timed_store))
      (change_int_value env (codes "n") (pos 9) timed_store)
unfolding visible Dict.lookup str_eq pika_panlei.Command.Rules.value_or pika_panlei.Store.has_type
change_int_value-Answers_example =
    change_int_value-Answers env timed_store timed_valid (codes "n") (pos 9) (pos 41) refl

bit_count_lem_example : bit_count (codes "hello") ≡ sum_of_bits (codes "hello")
bit_count_lem_example =
    bit_count_lem (codes "hello")
      (omega arith, (omega arith, (omega arith, (omega arith, (omega arith, _)))))

range_text-replace_range_example :
    range_text 3 (3 + length (codes "ab") - 1) (replace_range 3 (codes "ab") (codes "x"))
    ≡ codes "ab"
range_text-replace_range_example = range_text-replace_range 3 (codes "ab") (codes "x") (omega arith)

text_bit-set_text_bit_example :
    text_bit 9 (set_text_bit 9 true (codes "ab"))
    ≡ (if 9 == 9 then (if true then 1 else 0) else text_bit 9 (codes "ab"))
text_bit-set_text_bit_example =
    text_bit-set_text_bit 9 9 true (codes "ab") (omega arith, (omega arith, _))

strtol-print_int_example : strtol (print_int (negsuc 41)) ≡ some (negsuc 41)
strtol-print_int_example = strtol-print_int (negsuc 41) (omega arith)

rename-Answers_example :
    Answers env PError.ok
      (reply_error PError.ok)
      (remove (codes "h") (put (codes "n") (Value.hash fields) (visible env timed_store)))
      (rename env (codes "rename" ∷ codes "h" ∷ codes "n" ∷ []) timed_store)
unfolding visible Dict.lookup str_eq
rename-Answers_example =
    rename-Answers env (codes "rename") (codes "h") (codes "n") (Value.hash fields) timed_store
      timed_valid refl refl refl refl
