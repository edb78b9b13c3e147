-- ===== src/Tests/Protocol.antt =====
-- Requests and numbers as a client sends them.
use pika_panlei.Common.Number.Print.{print_nat}
use pika_panlei.Common.Reply.{pre_format_multi_bulk, format_bulk}
use pika_panlei.Base.{
  ◌+◌, ◌^◌, ◌<◌, ℤ, ◌≡◌, refl, true, List, [], ◌∷◌, ◌++◌, PString, length, arith, codes,
}
use pika_panlei.Common.{PParseResult}
use pika_panlei.Common.Number.{IntScan, is_digit, get_int_until_crlf}
use pika_panlei.Common.Number.Laws.{get_int_until_crlf-overrun}
use pika_panlei.ProtoParser.{Parser, minus_one, parse_request, parse_strlen}
use pika_panlei.ProtoParser.RoundTrip.{IsFresh, request, parse_request-request}
use pika_panlei.ProtoParser.Split.{parse_request-split}

abbrev fresh_parser : Parser
fresh_parser = record { multi = minus_one; param_len = minus_one; num_of_param = 0; params = [] }

fresh : IsFresh fresh_parser
fresh = record { multi = refl; param_len = refl; num = refl }

abbrev get_a : List PString
get_a = codes "get" ∷ codes "a" ∷ []

request_in : length (request get_a ++ codes "*1") < 2 ^ 31
unfolding request print_nat pre_format_multi_bulk format_bulk
request_in = omega arith

parse_request-request_example :
    let r =
      parse_request fresh_parser (record { rest = request get_a ++ codes "*1"; offset = 5 }) in
    (r.result ≡ PParseResult.ok)
    × (r.parser.params ≡ get_a)
    × (r.cursor ≡ record { rest = codes "*1"; offset = 5 + length (request get_a) })
parse_request-request_example =
    parse_request-request fresh_parser get_a (codes "*1") 5 fresh request_in

four_is_digit : is_digit 52 ≡ true
unfolding is_digit
four_is_digit = refl

get_int_until_crlf-overrun_example :
    (value : ℤ) × (get_int_until_crlf (52 ∷ 52 ∷ 52 ∷ []) ≡ IntScan.ok 5 value)
get_int_until_crlf-overrun_example =
    get_int_until_crlf-overrun (52 ∷ 52 ∷ 52 ∷ [])
      (four_is_digit, (four_is_digit, (four_is_digit, tt))) (omega arith)

parse_request-split_example :
    let first = parse_request fresh_parser (record { rest = b'*' ∷ 52 ∷ 13 ∷ []; offset = 0 }) in
    let second =
      parse_request first.parser
        (record { rest = first.cursor.rest ++ (10 ∷ codes "$1"); offset = first.cursor.offset }) in
    (first.result ≡ PParseResult.wait)
    × (first.cursor.offset ≡ 1)
    × (second.result ≡ PParseResult.error)
parse_request-split_example = parse_request-split fresh_parser 52 0 (codes "$1") fresh four_is_digit

waits :
    (parse_strlen minus_one (record { rest = codes "$1"; offset = 3 })).result ≡ PParseResult.wait
unfolding parse_strlen get_int_until_crlf
waits = refl
