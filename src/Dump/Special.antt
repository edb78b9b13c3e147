-- ===== src/Dump/Special.antt =====
-- Numbers are read as they were written by `SaveString`.
use pika_panlei.Base.{
  ℕ, ◌+◌, ◌-◌, ◌*◌, ◌%◌, ◌^◌, ◌<◌, ◌⊎◌, ℤ, pos, negsuc, ◌≡◌, ◌≢◌, refl, subst, sym, ap, ◌∙◌, true,
  Option, none, some, [], ◌∷◌, ◌++◌, PString, leb, if◌then◌else◌, inl, inr, Bool-cases, arith,
}
use pika_panlei.Common.Number.Print.{print_int}
use pika_panlei.Store.{Value}
use pika_panlei.Dump.{Codecs}
use pika_panlei.Dump.Input.{Reads, Reads-last, read_byte, read_word, word, pure, ◌>>=◌}
use pika_panlei.Dump.Number.{number2str, number2str-print_int}
use pika_panlei.Dump.Short.{IsSmall, length-print_int}
use pika_panlei.Dump.Words.{bound, read_word-word}
use pika_panlei.Dump.Save.{save_plain, save_int, ◌then◌}
use pika_panlei.Dump.Load.{length_of, load_length, load_special_string_object}

-- What the reader of a length gets for the first byte of a number or of a packed string.
pub special_byte : (n : ℕ) → n < 64 → Reads load_length ((192 + n) ∷ []) (true, n)
unfolding load_length length_of read_byte
special_byte n h rest = ground arith

not_least : (z : ℤ) → IsSmall z → z ≢ negsuc (2 ^ 63 - 1)
not_least (pos v) h e = cc e
not_least (negsuc n) (h, k) e = ground arith

pub small_text : (z : ℤ) → IsSmall z → number2str 64 z ≡ some (print_int z)
small_text z h = number2str-print_int 64 z (omega arith) (length-print_int z h) (not_least z h)

-- A number that is written as a text.
unfoldable pub as_text : Option PString → Option PString
as_text o = elim o [ none ↦ none | some buf ↦ save_plain buf ]

save_int-negsuc : (n : ℕ) → n < 2 ^ 40 → save_int (negsuc n) ≡ as_text (number2str 64 (negsuc n))
unfolding save_int as_text
save_int-negsuc n h = ground arith

pub as_text-small : (z : ℤ) → IsSmall z → as_text (number2str 64 z) ≡ save_plain (print_int z)
unfolding as_text
as_text-small z h = ap as_text (small_text z h)

save_int-pos :
    (v : ℕ)
    → v < 2 ^ 40
    → save_int (pos v) ≡ (
        if leb v 127
        then some (192 ∷ word 1 v)
        else if leb v 32767
        then some (193 ∷ word 2 v)
        else if leb v 2147483647
        then some (194 ∷ word 4 v)
        else as_text (number2str 64 (pos v)))
unfolding save_int as_text
save_int-pos v h = let e : v % 2 ^ 64 ≡ v = omega arith in rw e refl

module _ {S : Type 0} (c : Codecs S) where
  -- A number written in its short form: a kind, and the bytes that its reader takes.
  pub record Special (bs : PString) (z : ℤ) : Type 0 where
    pub kind : ℕ
    pub bytes : PString
    pub kind_in : kind < 64
    pub shape : bs ≡ (192 + kind) ∷ bytes
    pub reads : Reads (load_special_string_object c kind) bytes (Value.int z)

  Special-word :
      (n k v : ℕ)
      → n < 64
      → v < bound k
      → ((rest : PString)
          → load_special_string_object c n (word k v ++ rest)
            ≡ (read_word k >>= λ val. pure (Value.int (pos val))) (word k v ++ rest))
      → Special ((192 + n) ∷ word k v) (pos v)
  Special-word n k v h b e = record {
    kind = n;
    bytes = word k v;
    kind_in = h;
    shape = refl;
    reads = λ rest.
        e rest
        ∙ Reads-last (read_word k) (λ val. pure (Value.int (pos val))) (word k v) v
            (Value.int (pos v)) (read_word-word k v b) (λ rest'. refl) rest;
  }

  one_byte :
      (v : ℕ) (rest : PString)
      → load_special_string_object c 0 (word 1 v ++ rest)
        ≡ (read_word 1 >>= λ val. pure (Value.int (pos val))) (word 1 v ++ rest)
  unfolding load_special_string_object read_word read_byte word
  one_byte v rest =
      let e : v % 256 ≡ v % 256 + 256 * 0 = omega arith in
      ap (λ x. some (Value.int (pos x), rest)) e

  Special-at : (bs bs' : PString) (z : ℤ) → some bs ≡ some bs' → Special bs z → Special bs' z
  Special-at bs bs' z e x = subst (λ b. Special b z) (ground arith) x

  -- A number is either written in its short form or as its decimal text.
  pub save_int-cases :
      (z : ℤ) (bs : PString)
      → IsSmall z
      → save_int z ≡ some bs
      → Special bs z ⊎ (save_plain (print_int z) ≡ some bs)
  unfolding load_special_string_object
  save_int-cases (negsuc n) bs (h, k) e =
      inr (sym (save_int-negsuc n (omega arith) ∙ as_text-small (negsuc n) (h, k)) ∙ e)
  save_int-cases (pos v) bs (h, k) e =
      let e' = sym (save_int-pos v h) ∙ e in
      elim (Bool-cases (leb v 127)) [
        | inl t ↦ inl (
            Special-at _ bs (pos v) (ground (arith, e'))
              (Special-word 0 1 v (omega arith) (ground arith) (one_byte v)))
        | inr t ↦ elim (Bool-cases (leb v 32767)) [
          | inl u ↦ inl (
              Special-at _ bs (pos v) (ground (arith, e'))
                (Special-word 1 2 v (omega arith) (ground arith) (λ rest. refl)))
          | inr u ↦ elim (Bool-cases (leb v 2147483647)) [
            | inl w ↦ inl (
                Special-at _ bs (pos v) (ground (arith, e'))
                  (Special-word 2 4 v (omega arith) (ground arith) (λ rest. refl)))
            | inr w ↦ inr (sym (as_text-small (pos v) (h, k)) ∙ ground (arith, e'))
          ]
        ]
      ]
