-- ===== src/ProtoParser/RoundTrip.antt =====
-- The parser of src/proto_parser.cc on requests that are printed in the protocol.
mod Strings
mod Room
pub use Strings.{length-format_bulk}
use pika_panlei.Base.{
  ℕ, suc, ◌+◌, ◌-◌, ◌^◌, ◌<◌, ◌≤◌, pos, ◌≡◌, refl, sym, ap, ◌∙◌, List, [], ◌∷◌, ◌++◌, PString, crlf,
  length, get_or, subst, if◌then◌else◌, arith, append_assoc, append-nil, length-append, ap₂,
}
use pika_panlei.Common.{PParseResult}
use pika_panlei.Common.Number.Print.{print_nat}
use pika_panlei.Common.Reply.{format_bulk, pre_format_multi_bulk}
use pika_panlei.ProtoParser.{
  Parser, Cursor, Parsed, StringRead, is_minus_one, minus_one, resize, reset, parse_multi,
  parse_str, make_room, store_string, parse_strings, parse_strlist, parse_request,
  parse_request_after,
}
use Strings.{cursor_at, parse_multi-print, parse_str-format_bulk}
use Room.{Reading, string_read, store_string-Reading, make_room-len, resize-append}

-- The strings of a request, each as a bulk string.
pub bulks : List PString → PString
bulks [] = []
bulks (a ∷ rest) = format_bulk a ++ bulks rest

-- A request as a client sends it.
unfoldable pub request : List PString → PString
unfolding bulks
request args = pre_format_multi_bulk (length args) ++ bulks args

-- One round of the loop.
parse_strings_next : ℕ → Parser → StringRead → Parsed
parse_strings_next k q r = elim r.result [
  | PParseResult.ok ↦ parse_strings k (store_string q r) r.cursor
  | other ↦ record { result = other; parser = store_string q r; cursor = r.cursor }
]

parse_strings-suc :
    (k : ℕ) (p : Parser) (c : Cursor)
    → parse_strings (suc k) p c
      ≡ parse_strings_next k (make_room p) (
          parse_str
            (make_room p).param_len
            (get_or (make_room p).params (make_room p).num_of_param [])
            c)
unfolding parse_strings parse_strings_next
parse_strings-suc k p c = refl

parse_strings-step :
    (k : ℕ) (p : Parser) (a rest : PString) (offset : ℕ)
    → p.param_len ≡ minus_one
    → length (format_bulk a ++ rest) < 2 ^ 31
    → parse_strings (suc k) p (cursor_at (format_bulk a ++ rest) offset)
      ≡ parse_strings k
          (store_string
            (make_room p)
            (string_read a (cursor_at rest (offset + length (format_bulk a)))))
          (cursor_at rest (offset + length (format_bulk a)))
unfolding parse_strings_next
parse_strings-step k p a rest offset e h =
    let q = make_room p in
    let old = get_or q.params q.num_of_param [] in
    parse_strings-suc k p (cursor_at (format_bulk a ++ rest) offset)
    ∙ ap (λ z. parse_strings_next k q (parse_str z old (cursor_at (format_bulk a ++ rest) offset)))
        (make_room-len p ∙ e)
    ∙ ap (parse_strings_next k q) (parse_str-format_bulk a old rest offset h)

-- The bytes of the parameters lead to the parameters.
record Arrived (r : Parsed) (args : List PString) (c : Cursor) : Type 0 where
  pub result : r.result ≡ PParseResult.ok
  pub params : r.parser.params ≡ args
  pub cursor : r.cursor ≡ c

parse_strings-zero :
    (done : List PString) (p : Parser) (c : Cursor)
    → Reading p done
    → Arrived (parse_strings 0 p c) done c
unfolding parse_strings
parse_strings-zero done p c r = record {
  result = refl;
  params = ap₂ resize r.num r.holds ∙ resize-append done r.tail;
  cursor = refl;
}

Arrived-subst :
    {r r' : Parsed} {args args' : List PString} {c c' : Cursor}
    → r' ≡ r
    → args ≡ args'
    → c ≡ c'
    → Arrived r args c
    → Arrived r' args' c'
Arrived-subst p q e h = record {
  result = ap (λ z. z.result) p ∙ h.result;
  params = ap (λ z. z.parser.params) p ∙ h.params ∙ q;
  cursor = ap (λ z. z.cursor) p ∙ h.cursor ∙ e;
}

parse_strings-bulks :
    (args done : List PString) (p : Parser) (rest : PString) (offset : ℕ)
    → Reading p done
    → length (bulks args ++ rest) < 2 ^ 31
    → Arrived
        (parse_strings (length args) p (cursor_at (bulks args ++ rest) offset))
        (done ++ args)
        (cursor_at rest (offset + length (bulks args)))
unfolding bulks
parse_strings-bulks [] done p rest offset r h =
    Arrived-subst refl (sym (append-nil done)) (ap (cursor_at rest) (omega arith))
      (parse_strings-zero done p (cursor_at rest offset) r)
parse_strings-bulks (a ∷ args) done p rest offset r h =
    let next = bulks args ++ rest in
    let offset' = offset + length (format_bulk a) in
    let h' : length (format_bulk a ++ next) < 2 ^ 31 =
      subst (λ bs. length bs < 2 ^ 31) (append_assoc (format_bulk a) (bulks args) rest) h in
    Arrived-subst
      (ap (λ bs. parse_strings (suc (length args)) p (cursor_at bs offset))
          (append_assoc (format_bulk a) (bulks args) rest)
        ∙ parse_strings-step (length args) p a next offset r.len h')
      (append_assoc done (a ∷ []) args)
      (ap (cursor_at rest) (omega (arith, length-append (format_bulk a) (bulks args))))
      (parse_strings-bulks args (done ++ a ∷ [])
        (store_string (make_room p) (string_read a (cursor_at next offset'))) rest offset'
        (store_string-Reading p done a (cursor_at next offset') r)
        (omega (arith, h', length-append (format_bulk a) next)))

-- The parser before a request.
pub record IsFresh (p : Parser) : Type 0 where
  pub multi : p.multi ≡ minus_one
  pub param_len : p.param_len ≡ minus_one
  pub num : p.num_of_param ≡ 0

pub reset-IsFresh : (p : Parser) → IsFresh (reset p)
unfolding reset
reset-IsFresh p = record { multi = refl; param_len = refl; num = refl }

length-request :
    (args : List PString)
    → length (request args) ≡ 1 + (length (print_nat (length args)) + 2) + length (bulks args)
unfolding request pre_format_multi_bulk
length-request args = omega (
  arith,
  length-append (print_nat (length args) ++ crlf) (bulks args),
  length-append (print_nat (length args)) crlf,
)

request-append :
    (args : List PString) (rest : PString)
    → request args ++ rest ≡ b'*' ∷ print_nat (length args) ++ (crlf ++ (bulks args ++ rest))
unfolding request pre_format_multi_bulk
request-append args rest = simp (append_assoc)

parse_request_after-ok :
    (p : Parser) (n : ℕ) (c : Cursor)
    → parse_request_after p (record { result = PParseResult.ok; value = pos n; cursor = c })
      ≡ parse_strings (n - p.num_of_param) (record p { multi = pos n }) c
unfolding parse_request_after
parse_request_after-ok p n c = ground arith

parse_request-fresh :
    (p : Parser) (c c' : Cursor) (n : ℕ)
    → IsFresh p
    → parse_multi minus_one c ≡ record { result = PParseResult.ok; value = pos n; cursor = c' }
    → parse_request p c ≡ parse_strings n (record p { multi = pos n }) c'
unfolding parse_request
parse_request-fresh p c c' n f e =
    let all : n - 0 ≡ n = omega arith in
    ap (λ m. if is_minus_one m then parse_request_after p (parse_multi m c) else parse_strlist p c)
      f.multi
    ∙ ap (parse_request_after p) e
    ∙ parse_request_after-ok p n c'
    ∙ ap (λ k. parse_strings k (record p { multi = pos n }) c') (ap (λ m. n - m) f.num ∙ all)

length-bulks : (args : List PString) → length args ≤ length (bulks args)
unfolding bulks
length-bulks [] = omega arith
length-bulks (a ∷ args) =
    omega
      (arith, length-bulks args, length-append (format_bulk a) (bulks args), length-format_bulk a)

-- A request that is printed in the protocol and, with the bytes that follow, is shorter than 2^31
-- is parsed by a fresh parser to exactly its parameters, whatever the parameter vector held before
-- and whatever bytes follow, and the pointer stands right behind the request.
pub parse_request-request :
    (p : Parser) (args : List PString) (rest : PString) (offset : ℕ)
    → IsFresh p
    → length (request args ++ rest) < 2 ^ 31
    → let r = parse_request p (record { rest = request args ++ rest; offset = offset }) in
      (r.result ≡ PParseResult.ok)
      × (r.parser.params ≡ args)
      × (r.cursor ≡ record { rest = rest; offset = offset + length (request args) })
parse_request-request p args rest offset f h =
    let start = offset + 1 + (length (print_nat (length args)) + 2) in
    let q = record p { multi = pos (length args) } in
    let reading : Reading q [] = record {
      len = f.param_len;
      num = f.num;
      tail = p.params;
      holds = refl;
    } in
    let whole = length-append (request args) rest in
    let strings = length-append (bulks args) rest in
    let n : length args < 2 ^ 31 =
      omega (arith, h, whole, length-request args, length-bulks args) in
    let r =
      Arrived-subst
        (ap (λ bs. parse_request p (cursor_at bs offset)) (request-append args rest)
          ∙ parse_request-fresh p _ (cursor_at (bulks args ++ rest) start) (length args) f
              (parse_multi-print (length args) (bulks args ++ rest) minus_one offset n))
        refl (ap (cursor_at rest) (omega (arith, length-request args)))
        (parse_strings-bulks args [] q rest start reading
          (omega (arith, h, whole, strings, length-request args))) in
    (r.result, r.params, r.cursor)
