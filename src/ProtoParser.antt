-- ===== src/ProtoParser.antt =====
-- `PProtoParser` of src/proto_parser.h and src/proto_parser.cc: the parser of requests. A request
-- may come in pieces: `wait` keeps what is known in the parser's fields.
pub mod RoundTrip
pub mod Split
use pika_panlei.Base.{
  ℕ, zero, suc, ◌+◌, ◌-◌, ◌%◌, ◌^◌, ℤ, pos, negsuc, Bool, true, false, ◌&&◌, ◌||◌, not, Option,
  none, some, List, [], ◌∷◌, ◌++◌, PString, length, get_or, set, take, drop, replicate, pos_part,
  neg_part, ltb, ltb_ℤ, ◌==◌, if◌then◌else◌,
}
use pika_panlei.Common.{PParseResult}
use pika_panlei.Common.Number.{IntScan, to_int32, get_int_until_crlf}

pub record Parser : Type 0 where
  pub multi : ℤ
  pub param_len : ℤ
  pub num_of_param : ℕ
  pub params : List PString

-- `ptr`: the bytes from it to `end`, and how far it stands behind the start. Where it has passed
-- the end there are no bytes left.
pub record Cursor : Type 0 where
  pub rest : PString
  pub offset : ℕ

-- What a parse function returns and leaves: its result, the parser and the pointer.
pub record Parsed : Type 0 where
  pub result : PParseResult
  pub parser : Parser
  pub cursor : Cursor

abbrev pub minus_one : ℤ
minus_one = negsuc 0

abbrev pub is_minus_one : ℤ → Bool
is_minus_one (negsuc zero) = true
is_minus_one _ = false

-- `ptr += n`
unfoldable pub advance : ℕ → Cursor → Cursor
advance n c = record { rest = drop n c.rest; offset = c.offset + n }

-- `resize`
unfoldable pub resize : ℕ → List PString → List PString
resize n ps = take n ps ++ replicate (n - length ps) []

-- `while (params_.size() > 3) params_.pop_back()` keeps the first three.
unfoldable pub reset : Parser → Parser
reset p = record {
  multi = minus_one;
  param_len = minus_one;
  num_of_param = 0;
  params = take 3 p.params;
}

abbrev pub is_initial_state : Parser → Bool
is_initial_state p = is_minus_one p.multi

-- What a reader of one of the two numbers leaves: the number is kept unless it is read.
pub record LengthRead : Type 0 where
  pub result : PParseResult
  pub value : ℤ
  pub cursor : Cursor

-- After `++ptr`. On `wait` and `error` the pointer stays behind the `*`.
unfoldable pub multi_after : IntScan → ℤ → Cursor → LengthRead
multi_after (IntScan.ok n z) old c = record {
  result = PParseResult.ok;
  value = z;
  cursor = advance n c;
}
multi_after IntScan.wait old c = record { result = PParseResult.wait; value = old; cursor = c }
multi_after IntScan.error old c = record { result = PParseResult.error; value = old; cursor = c }

unfoldable pub parse_multi_from : PString → ℤ → Cursor → LengthRead
unfolding multi_after advance
parse_multi_from [] old c = record { result = PParseResult.wait; value = old; cursor = c }
parse_multi_from (b ∷ bs) old c =
    if not (b == b'*')
    then record { result = PParseResult.error; value = old; cursor = c }
    else multi_after (get_int_until_crlf bs) old (advance 1 c)

unfoldable pub parse_multi : ℤ → Cursor → LengthRead
unfolding parse_multi_from
parse_multi old c =
    if ltb (length c.rest) 3
    then record { result = PParseResult.wait; value = old; cursor = c }
    else parse_multi_from c.rest old c

-- After `++ptr`. On `wait` and `error` the pointer goes back to the `$`.
unfoldable pub strlen_after : IntScan → ℤ → Cursor → LengthRead
unfolding advance
strlen_after (IntScan.ok n z) old c = record {
  result = PParseResult.ok;
  value = z;
  cursor = advance n (advance 1 c);
}
strlen_after IntScan.wait old c = record { result = PParseResult.wait; value = old; cursor = c }
strlen_after IntScan.error old c = record { result = PParseResult.error; value = old; cursor = c }

unfoldable pub parse_strlen_from : PString → ℤ → Cursor → LengthRead
unfolding strlen_after
parse_strlen_from [] old c = record { result = PParseResult.wait; value = old; cursor = c }
parse_strlen_from (b ∷ bs) old c =
    if not (b == b'$')
    then record { result = PParseResult.error; value = old; cursor = c }
    else strlen_after (get_int_until_crlf bs) old c

unfoldable pub parse_strlen : ℤ → Cursor → LengthRead
unfolding parse_strlen_from
parse_strlen old c =
    if ltb (length c.rest) 3
    then record { result = PParseResult.wait; value = old; cursor = c }
    else parse_strlen_from c.rest old c

-- What the reader of one string leaves; `text` is assigned only on `ok`.
pub record StringRead : Type 0 where
  pub result : PParseResult
  pub param_len : ℤ
  pub text : PString
  pub cursor : Cursor

-- The two bytes at `tail` are CR LF.
unfoldable pub at_crlf : PString → Bool
at_crlf (a ∷ b ∷ _) = a == 13 && b == 10
at_crlf _ = false

-- `parseStrval` asserts that the length is not negative. The distance to the end is cut to an `int`.
-- (`paramLen_ + 2` is an `int` too: it is in range for any length below 2^31 - 2.)
unfoldable pub parse_strval : ℤ → PString → Cursor → StringRead
unfolding at_crlf advance
parse_strval (negsuc n) old c = record {
  result = PParseResult.assert_failed;
  param_len = negsuc n;
  text = old;
  cursor = c;
}
parse_strval (pos n) old c =
    if ltb_ℤ (to_int32 (length c.rest % 2 ^ 32)) (pos (n + 2))
    then record { result = PParseResult.wait; param_len = pos n; text = old; cursor = c }
    else if not (at_crlf (drop n c.rest))
    then record { result = PParseResult.error; param_len = pos n; text = old; cursor = c }
    else record {
      result = PParseResult.ok;
      param_len = minus_one;
      text = take n c.rest;
      cursor = advance (n + 2) c;
    }

-- The tests after `parseStrlen`.
unfoldable pub parse_str_after : PString → LengthRead → StringRead
unfolding parse_strval
parse_str_after old l =
    if ltb_ℤ l.value minus_one
    then record { result = PParseResult.error; param_len = l.value; text = old; cursor = l.cursor }
    else elim l.result [
      | PParseResult.ok ↦ parse_strval l.value old l.cursor
      | other ↦ record { result = other; param_len = l.value; text = old; cursor = l.cursor }
    ]

unfoldable pub parse_str : ℤ → PString → Cursor → StringRead
unfolding parse_str_after parse_strlen
parse_str param_len old c =
    if is_minus_one param_len
    then parse_str_after old (parse_strlen param_len c)
    else parse_strval param_len old c

-- Makes room for the parameter that is read next.
unfoldable pub room_for : ℕ → List PString → List PString
unfolding resize
room_for n ps = if ltb (length ps) (n + 1) then resize (n + 1) ps else ps

unfoldable pub make_room : Parser → Parser
unfolding room_for
make_room p = record p { params = room_for p.num_of_param p.params }

-- The parser with the string that was read, `++numOfParam_` included on `ok`.
unfoldable pub store_string : Parser → StringRead → Parser
store_string p r = elim r.result [
  | PParseResult.ok ↦ record p {
    param_len = r.param_len;
    params = set p.params p.num_of_param r.text;
    num_of_param = p.num_of_param + 1;
  }
  | _ ↦ record p { param_len = r.param_len }
]

-- The loop, by the number of parameters that are still to come.
unfoldable pub parse_strings : ℕ → Parser → Cursor → Parsed
unfolding make_room store_string parse_str
parse_strings zero p c = record {
  result = PParseResult.ok;
  parser = record p { params = resize p.num_of_param p.params };
  cursor = c;
}
parse_strings (suc k) p c =
    let q = make_room p in
    let r = parse_str q.param_len (get_or q.params q.num_of_param []) c in
    let q' = store_string q r in
    elim r.result [
      | PParseResult.ok ↦ parse_strings k q' r.cursor
      | other ↦ record { result = other; parser = q'; cursor = r.cursor }
    ]

-- The loop runs while `static_cast<int>(numOfParam_) < multi_`.
unfoldable pub parse_strlist : Parser → Cursor → Parsed
unfolding parse_strings
parse_strlist p c = parse_strings (pos_part p.multi - p.num_of_param) p c

-- The tests after `parseMulti`.
unfoldable pub parse_request_after : Parser → LengthRead → Parsed
unfolding parse_strlist
parse_request_after p l =
    let q = record p { multi = l.value } in
    if ltb_ℤ l.value minus_one
    then record { result = PParseResult.error; parser = q; cursor = l.cursor }
    else elim l.result [
      | PParseResult.ok ↦ parse_strlist q l.cursor
      | other ↦ record { result = other; parser = q; cursor = l.cursor }
    ]

unfoldable pub parse_request : Parser → Cursor → Parsed
unfolding parse_request_after parse_multi
parse_request p c =
    if is_minus_one p.multi
    then parse_request_after p (parse_multi p.multi c)
    else parse_strlist p c
