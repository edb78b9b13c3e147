-- ===== src/ProtoParser/RoundTrip/Strings.antt =====
-- One string of a request, and its lengths.
use pika_panlei.Base.{
  ℕ, suc, ◌+◌, ◌%◌, ◌^◌, ◌<◌, ◌≤◌, ℤ, pos, ltb_ℤ, false, ◌≡◌, refl, ◌∷◌, ◌++◌, PString, crlf,
  length, drop, le→ltb, arith, append_assoc, length-append, take-append, drop-append,
  drop-append_add,
}
use pika_panlei.Common.{PParseResult}
use pika_panlei.Common.Number.{to_int32}
use pika_panlei.Common.Number.Print.{print_nat}
use pika_panlei.Common.Number.Laws.{get_int_until_crlf-print_nat}
use pika_panlei.Common.Reply.{format_bulk}
use pika_panlei.ProtoParser.{
  Cursor, minus_one, parse_multi, parse_strlen, parse_strval, parse_str, parse_str_after,
}

abbrev pub cursor_at : PString → ℕ → Cursor
cursor_at rest offset = record { rest = rest; offset = offset }

drop_line :
    (n : ℕ) (rest : PString)
    → drop (length (print_nat n) + 2) (print_nat n ++ (crlf ++ rest)) ≡ rest
drop_line n rest = drop-append_add (print_nat n) (crlf ++ rest) 2

-- A distance below 2^31 is kept by the cast to an `int`.
enough : (len n : ℕ) → len < 2 ^ 31 → n ≤ len → ltb_ℤ (to_int32 (len % 2 ^ 32)) (pos n) ≡ false
enough len n h k = let e : len % 2 ^ 32 ≡ len = omega arith in rw e (ground arith)

parse_strval-append :
    (a old rest : PString) (offset : ℕ)
    → length (a ++ (crlf ++ rest)) < 2 ^ 31
    → parse_strval (pos (length a)) old (cursor_at (a ++ (crlf ++ rest)) offset) ≡ record {
      result = PParseResult.ok;
      param_len = minus_one;
      text = a;
      cursor = cursor_at rest (offset + (length a + 2));
    }
unfolding parse_strval
parse_strval-append a old rest offset h = rw (
  enough (length (a ++ (crlf ++ rest))) (length a + 2) h
      (omega (arith, length-append a (crlf ++ rest))),
  drop-append a (crlf ++ rest),
  take-append a (crlf ++ rest),
  drop-append_add a (crlf ++ rest) 2,
)

parse_strlen-print :
    (n : ℕ) (rest : PString) (old : ℤ) (offset : ℕ)
    → n < 2 ^ 31
    → parse_strlen old (cursor_at (b'$' ∷ print_nat n ++ (crlf ++ rest)) offset) ≡ record {
      result = PParseResult.ok;
      value = pos n;
      cursor = cursor_at rest (offset + 1 + (length (print_nat n) + 2));
    }
unfolding parse_strlen
parse_strlen-print n rest old offset h = rw (
  le→ltb (suc (length (print_nat n ++ (crlf ++ rest)))) 3
      (omega (arith, length-append (print_nat n) (crlf ++ rest))),
  get_int_until_crlf-print_nat n rest h,
  drop_line n rest,
)

pub parse_multi-print :
    (n : ℕ) (rest : PString) (old : ℤ) (offset : ℕ)
    → n < 2 ^ 31
    → parse_multi old (cursor_at (b'*' ∷ print_nat n ++ (crlf ++ rest)) offset) ≡ record {
      result = PParseResult.ok;
      value = pos n;
      cursor = cursor_at rest (offset + 1 + (length (print_nat n) + 2));
    }
unfolding parse_multi
parse_multi-print n rest old offset h = rw (
  le→ltb (suc (length (print_nat n ++ (crlf ++ rest)))) 3
      (omega (arith, length-append (print_nat n) (crlf ++ rest))),
  get_int_until_crlf-print_nat n rest h,
  drop_line n rest,
)

format_bulk-append :
    (a rest : PString)
    → format_bulk a ++ rest ≡ b'$' ∷ print_nat (length a) ++ (crlf ++ (a ++ (crlf ++ rest)))
unfolding format_bulk
format_bulk-append a rest = simp (append_assoc)

pub length-format_bulk :
    (a : PString) → length (format_bulk a) ≡ length (print_nat (length a)) + length a + 5
unfolding format_bulk
length-format_bulk a = omega (
  arith,
  length-append (print_nat (length a) ++ crlf) (a ++ crlf),
  length-append (print_nat (length a)) crlf,
  length-append a crlf,
)

parse_str-minus_one :
    (old : PString) (c : Cursor)
    → parse_str minus_one old c ≡ parse_str_after old (parse_strlen minus_one c)
unfolding parse_str
parse_str-minus_one old c = refl

parse_str_after-ok :
    (old : PString) (n : ℕ) (c : Cursor)
    → parse_str_after old (record { result = PParseResult.ok; value = pos n; cursor = c })
      ≡ parse_strval (pos n) old c
unfolding parse_str_after
parse_str_after-ok old n c = ground arith

pub parse_str-format_bulk :
    (a old rest : PString) (offset : ℕ)
    → length (format_bulk a ++ rest) < 2 ^ 31
    → parse_str minus_one old (cursor_at (format_bulk a ++ rest) offset) ≡ record {
      result = PParseResult.ok;
      param_len = minus_one;
      text = a;
      cursor = cursor_at rest (offset + length (format_bulk a));
    }
parse_str-format_bulk a old rest offset h =
    let at : offset + 1 + (length (print_nat (length a)) + 2) + (length a + 2)
        ≡ offset + length (format_bulk a) =
      omega (arith, length-format_bulk a) in
    let whole = length-append (format_bulk a) rest in
    let text = length-append a (crlf ++ rest) in
    rw (
      parse_str-minus_one,
      format_bulk-append a rest,
      parse_strlen-print (length a) (a ++ (crlf ++ rest)) minus_one offset
          (omega (arith, h, whole, length-format_bulk a)),
      parse_str_after-ok,
      parse_strval-append a old rest (offset + 1 + (length (print_nat (length a)) + 2))
          (omega (arith, h, whole, text, length-format_bulk a)),
      at,
    )
