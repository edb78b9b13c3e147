-- ===== src/ProtoParser/Split.antt =====
-- A request that is cut in two, and lengths that no string has.
use pika_panlei.Base.{
  ℕ, ◌+◌, ℤ, ◌≡◌, ◌≢◌, refl, true, [], ◌∷◌, ◌++◌, PString, if◌then◌else◌, arith, ap, crlf, codes,
}
use pika_panlei.Common.{PParseResult}
use pika_panlei.Common.Number.{is_digit, get_int_until_crlf}
use pika_panlei.ProtoParser.{
  Parser, Cursor, minus_one, is_minus_one, parse_multi, parse_str, parse_strlen, parse_strlist,
  parse_request, parse_request_after,
}
use pika_panlei.ProtoParser.RoundTrip.{IsFresh}

parse_request-initial :
    (p : Parser) (c : Cursor)
    → IsFresh p
    → parse_request p c ≡ parse_request_after p (parse_multi minus_one c)
unfolding parse_request
parse_request-initial p c f =
    ap (λ m. if is_minus_one m then parse_request_after p (parse_multi m c) else parse_strlist p c)
      f.multi

first_piece :
    (p : Parser) (d offset : ℕ)
    → IsFresh p
    → parse_request p (record { rest = b'*' ∷ d ∷ 13 ∷ []; offset = offset }) ≡ record {
      result = PParseResult.wait;
      parser = record p { multi = minus_one };
      cursor = record { rest = d ∷ 13 ∷ []; offset = offset + 1 };
    }
unfolding parse_request_after parse_multi get_int_until_crlf
first_piece p d offset f = parse_request-initial p _ f

second_piece :
    (p : Parser) (d offset : ℕ) (more : PString)
    → IsFresh p
    → is_digit d ≡ true
    → (parse_request p (record { rest = d ∷ 13 ∷ 10 ∷ more; offset = offset })).result
      ≡ PParseResult.error
unfolding parse_request_after parse_multi is_digit
second_piece p d offset more f h = rw (parse_request-initial p _ f) (ground arith)

-- A request whose number of parameters has one digit, and whose first piece ends between the CR and
-- the LF of its first line, makes a fresh parser wait with the pointer behind the `*`, and the rest
-- of the line is then refused, whatever follows.
pub parse_request-split :
    (p : Parser) (d offset : ℕ) (more : PString)
    → IsFresh p
    → is_digit d ≡ true
    → let first = parse_request p (record { rest = b'*' ∷ d ∷ 13 ∷ []; offset = offset }) in
      let second =
        parse_request first.parser
          (record { rest = first.cursor.rest ++ (10 ∷ more); offset = first.cursor.offset }) in
      (first.result ≡ PParseResult.wait)
      × (first.cursor.offset ≡ offset + 1)
      × (second.result ≡ PParseResult.error)
parse_request-split p d offset more f h =
    let fresh : IsFresh (record p { multi = minus_one }) = record {
      multi = refl;
      param_len = f.param_len;
      num = f.num;
    } in
    rw (first_piece p d offset f)
      (refl, refl, second_piece (record p { multi = minus_one }) d (offset + 1) more fresh h)

-- Where the reader of a string's length does not return `ok`, the pointer and the stored length are
-- as before.
pub parse_strlen-keeps :
    (old : ℤ) (c : Cursor)
    → (parse_strlen old c).result ≢ PParseResult.ok
    → ((parse_strlen old c).cursor ≡ c) × ((parse_strlen old c).value ≡ old)
unfolding parse_strlen
parse_strlen-keeps old c h = ground arith

-- `$-1` as the length of a parameter leads to the failed assertion that the length is not negative.
pub parse_str-minus_one_length :
    (old more : PString) (offset : ℕ)
    → (parse_str minus_one old
        (record { rest = codes "$-1" ++ (crlf ++ more); offset = offset })).result
      ≡ PParseResult.assert_failed
unfolding parse_str get_int_until_crlf
parse_str-minus_one_length old more offset = ground arith
