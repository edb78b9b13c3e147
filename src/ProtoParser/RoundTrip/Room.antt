-- ===== src/ProtoParser/RoundTrip/Room.antt =====
-- The vector of parameters while a request is read.
use pika_panlei.Base.{
  ◌+◌, ◌-◌, ◌≡◌, refl, sym, ◌∙◌, List, [], ◌∷◌, ◌++◌, PString, length, set, lt→ltb, le→ltb, arith,
  append_assoc, append-nil, length-append, take-append, take-all, set-append, ap₂,
}
use pika_panlei.Common.{PParseResult}
use pika_panlei.ProtoParser.{
  Parser, Cursor, StringRead, minus_one, resize, room_for, make_room, store_string,
}

-- One string more: the parameters read so far, whatever else the vector holds behind them.
room_for-set :
    (done junk : List PString) (text : PString)
    → (junk' : List PString) × (set (room_for (length done) (done ++ junk)) (length done) text
        ≡ done ++ (text ∷ junk'))
unfolding room_for
room_for-set done [] text =
    let one : length done + 1 - length done ≡ 1 = omega arith in
    (
      [],
      rw
          (
            append-nil done,
            lt→ltb (length done) (length done + 1) (omega arith),
            take-all (length done + 1) done (omega arith),
            one,
          )
          (set-append done [] [] text),
    )
room_for-set done (x ∷ junk) text = (
  junk,
  rw
      (le→ltb (length (done ++ x ∷ junk)) (length done + 1)
        (omega (arith, length-append done (x ∷ junk))))
      (set-append done x junk text),
)

pub record Reading (p : Parser) (done : List PString) : Type 0 where
  pub len : p.param_len ≡ minus_one
  pub num : p.num_of_param ≡ length done
  pub tail : List PString
  pub holds : p.params ≡ done ++ tail

abbrev pub string_read : PString → Cursor → StringRead
string_read a c = record { result = PParseResult.ok; param_len = minus_one; text = a; cursor = c }

pub store_string-Reading :
    (p : Parser) (done : List PString) (a : PString) (c : Cursor)
    → Reading p done
    → Reading (store_string (make_room p) (string_read a c)) (done ++ a ∷ [])
unfolding store_string make_room
store_string-Reading p done a c r =
    let (junk, e) = room_for-set done r.tail a in
    record {
      len = refl;
      num = omega (arith, length-append done (a ∷ []), r.num);
      tail = junk;
      holds =
          ap₂ (λ n ps. set (room_for n ps) n a) r.num r.holds
          ∙ e
          ∙ sym (append_assoc done (a ∷ []) junk);
    }

pub make_room-len : (p : Parser) → (make_room p).param_len ≡ p.param_len
unfolding make_room
make_room-len p = refl

pub resize-append : (done tail : List PString) → resize (length done) (done ++ tail) ≡ done
unfolding resize
resize-append done tail =
    let none_left : length done - length (done ++ tail) ≡ 0 =
      omega (arith, length-append done tail) in
    rw (take-append done tail, none_left) (append-nil done)
