-- ===== src/Dump/Replay.antt =====
-- Loading a saved database stores its entries one after the other.
use pika_panlei.Base.{
  ℕ, suc, ◌-◌, ◌^◌, ◌<◌, ◌≤◌, ℤ, pos, negsuc, ◌≡◌, refl, ap, ◌∙◌, true, false, none, some, ◌∷◌,
  ◌++◌, PString, length, length-append, leb, ◌==◌, if◌then◌else◌, inl, inr, Option-cases, arith,
}
use pika_panlei.Base.Dict
use pika_panlei.Base.Dict.{Dict}
use pika_panlei.Store.{
  Value, Object, Env, Store, db, expire_keys, get_object, exists_key, expire_if_need, ttl,
  ttl_result,
}
use pika_panlei.Store.View.{is_expired}
use pika_panlei.SortedSet.{SortedSet}
use pika_panlei.Dump.{Codecs}
use pika_panlei.Dump.Input.{Reads, Reads-bind, Reads-last, word}
use pika_panlei.Dump.Words.{read_word-word}
use pika_panlei.Dump.Save.{save_string, save_object, type_byte, ◌then◌}
use pika_panlei.Dump.Load.{load_generic_string, load_object}
use pika_panlei.Dump.Packed.{IsLossless, then-eq}
use pika_panlei.Dump.Texts.{saved_text, load_generic_string-save_string}
use pika_panlei.Dump.Objects.{IsBrief, IsWritable, saved_value, load_object-save_object}
use pika_panlei.Dump.File.{
  again, load_entry, store_entry, is_type, load_round, load_loop, load_from, continue,
}
use pika_panlei.Dump.Ends.{load_loop_enough}

-- The expiry time of a key, 0 without one.
unfoldable pub time_of : {Z : Type 0} → PString → Store Z → ℕ
time_of key s = elim (Dict.lookup key (expire_keys s)) [ none ↦ 0 | some when ↦ when ]

-- What `TTL` answers for a key that has not expired.
abbrev pub left : ℕ → ℕ → ℤ
left now time = if time == 0 then negsuc 0 else pos (time - now)

pub ttl-live :
    {Z : Type 0} (env : Env Z) (key : PString) (o : Object Z) (s : Store Z)
    → Dict.lookup key (db s) ≡ some o
    → is_expired env.now s key ≡ false
    → time_of key s < 2 ^ 63
    → ttl env key env.now s ≡ (left env.now (time_of key s), s)
unfolding ttl exists_key get_object expire_if_need ttl_result is_expired time_of
ttl-live env key o s h e b = elim (Option-cases (Dict.lookup key (expire_keys s))) [
  | inl n ↦ ground (arith, n)
  | inr (when, n) ↦ ground (arith, n)
]

module _ {S : Type 0} (c : Codecs S) (env : Env (SortedSet S)) where
  -- One round of the loop that goes on.
  pub load_from-again :
      (b time time' : ℕ) (s s' : Store (SortedSet S)) (bs rest : PString)
      → load_round c env b time s bs ≡ again time' s' rest
      → length rest ≤ length bs
      → load_from c env time s (b ∷ bs) ≡ load_from c env time' s' rest
  unfolding load_loop continue
  load_from-again b time time' s s' bs rest e h = rw e (
      load_loop_enough c env (suc (length bs)) (suc (length rest)) time' s' rest (omega (arith, h))
        (omega arith))

  load_entry-save :
      (key kb vb : PString) (v v' : Value (SortedSet S))
      → IsLossless c
      → IsBrief c
      → length key < 2 ^ 32
      → IsWritable c v
      → save_string c key ≡ some kb
      → save_object c v ≡ some vb
      → saved_value c v ≡ some v'
      → Reads (load_entry c env (type_byte v)) (kb ++ vb) (saved_text c key, v')
  unfolding load_entry
  load_entry-save key kb vb v v' lossless brief l m p q w =
      Reads-bind (load_generic_string c) _ kb vb (saved_text c key) _
        (load_generic_string-save_string c key kb lossless l p)
        (Reads-last (load_object c (type_byte v)) _ vb v' _
          (load_object-save_object c v v' vb lossless brief m w q) (λ rest. refl))

  round-entry :
      (b time : ℕ) (t : Store (SortedSet S)) (bs rest key : PString) (v : Value (SortedSet S))
      → b < 5
      → time < 2 ^ 63
      → load_entry c env b bs ≡ some ((key, v), rest)
      → load_round c env b time t bs ≡ again 0 (store_entry c env time key v t) rest
  unfolding load_round is_type
  round-entry b time t bs rest key v h k e =
      let n₁ : (b == 255) ≡ false = ground arith in
      let n₂ : (b == 250) ≡ false = ground arith in
      let n₃ : (b == 251) ≡ false = ground arith in
      let n₄ : (b == 254) ≡ false = ground arith in
      let n₅ : (b == 252) ≡ false = ground arith in
      let n₆ : (b == 253) ≡ false = ground arith in
      let y : is_type c env b ≡ true = ground arith in
      let l : leb (2 ^ 63) time ≡ false = ground arith in rw (n₁, n₂, n₃, n₄, n₅, n₆, y, e, l) refl

  type_byte_lt : (v : Value (SortedSet S)) → type_byte v < 5
  unfolding type_byte
  type_byte_lt (Value.raw v) = omega arith
  type_byte_lt (Value.int v) = omega arith
  type_byte_lt (Value.list v) = omega arith
  type_byte_lt (Value.set v) = omega arith
  type_byte_lt (Value.hash v) = omega arith
  type_byte_lt (Value.zset v) = omega arith

  -- An entry behind its time.
  pub load_from-entry :
      (time : ℕ) (key bs : PString) (v v' : Value (SortedSet S)) (t : Store (SortedSet S))
      (more : PString)
      → IsLossless c
      → IsBrief c
      → length key < 2 ^ 32
      → IsWritable c v
      → time < 2 ^ 63
      → saved_value c v ≡ some v'
      → save_string c key then save_object c v ≡ some bs
      → load_from c env time t (type_byte v ∷ (bs ++ more))
        ≡ load_from c env 0 (store_entry c env time (saved_text c key) v' t) more
  load_from-entry time key bs v v' t more lossless brief l m h w e =
      let (kb, vb, p, q, r) = then-eq (save_string c key) (save_object c v) bs e in
      let reads = load_entry-save key kb vb v v' lossless brief l m p q w more in
      load_from-again (type_byte v) time 0 t _ (bs ++ more) more
        (round-entry (type_byte v) time t (bs ++ more) more (saved_text c key) v' (type_byte_lt v) h
          (ap (λ x. load_entry c env (type_byte v) (x ++ more)) r ∙ reads))
        (omega (arith, length-append bs more))

  pub round_time :
      (time : ℕ) (t : Store (SortedSet S)) (rest : PString)
      → time < 2 ^ 63
      → load_from c env 0 t (252 ∷ (word 8 time ++ rest)) ≡ load_from c env time t rest
  unfolding load_round
  round_time time t rest h =
      load_from-again 252 0 time t t (word 8 time ++ rest) rest
        (rw (read_word-word 8 time (omega arith) rest) refl)
        (omega (arith, length-append (word 8 time) rest))
