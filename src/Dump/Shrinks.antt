-- ===== src/Dump/Shrinks.antt =====
-- No read of the loader puts bytes back.
use pika_panlei.Base.{
  ℕ, zero, suc, Bool, true, false, not, Option, none, some, List, [], ◌∷◌, ◌++◌, PString, length,
  length-drop, ltb, ◌==◌, if◌then◌else◌, arith,
}
use pika_panlei.Base.Dict.{Dict}
use pika_panlei.Base.Members
use pika_panlei.Base.Members.{Members}
use pika_panlei.Store.{Value}
use pika_panlei.SortedSet.{SortedSet, empty_set}
use pika_panlei.Dump.{Codecs}
use pika_panlei.Dump.Input.{
  Reader, Shrinks, Shrinks-bind, pure, fail, check, ◌>>=◌, ◌>>◌, read_byte, read_word, peek, skip,
}
use pika_panlei.Dump.Load.{
  length_of, load_length, load_size, load_string, unpack, load_lzf_string,
  load_special_string_object, string_of, load_generic_string, load_string_object, double_of,
  load_double_value, insert_new, load_list, load_set, load_hash, load_zset, or_fail, add_loaded,
  list_elements, number_texts, elements_value, load_zip_list, load_intset, quick_elements,
  load_quick_list, load_object,
}

pub pure-Shrinks : {A : Type 0} (a : A) → Shrinks (pure a)
pure-Shrinks a bs b rest e = ground (arith, e)

fail-Shrinks : {A : Type 0} → Shrinks (fail {A = A})
fail-Shrinks bs a rest e = cc e

if-Shrinks :
    {A : Type 0} (b : Bool) (m n : Reader A)
    → Shrinks m
    → Shrinks n
    → Shrinks (λ bs. (if b then m else n) bs)
if-Shrinks true m n h k = h
if-Shrinks false m n h k = k

check-Shrinks : (b : Bool) → Shrinks (check b)
check-Shrinks b bs a rest e = ground (arith, e)

read_byte-Shrinks : Shrinks read_byte
unfolding read_byte
read_byte-Shrinks [] a rest e = cc e
read_byte-Shrinks (b ∷ bs) a rest e = ground (arith, e)

pub read_word-Shrinks : (n : ℕ) → Shrinks (read_word n)
unfolding read_word
read_word-Shrinks zero = pure-Shrinks 0
read_word-Shrinks (suc n) =
    Shrinks-bind read_byte _ read_byte-Shrinks
      (λ low. Shrinks-bind (read_word n) _ (read_word-Shrinks n) (λ high. pure-Shrinks _))

peek-Shrinks : (n : ℕ) → Shrinks (peek n)
unfolding peek
peek-Shrinks n bs a rest e = ground (arith, e)

skip-Shrinks : (n : ℕ) → Shrinks (skip n)
unfolding skip
skip-Shrinks n bs a rest e = ground (arith, e, length-drop n bs)

length_of-Shrinks : (byte : ℕ) → Shrinks (length_of byte)
unfolding length_of
length_of-Shrinks byte = if-Shrinks (ltb byte 64) _ _ (pure-Shrinks _) (
    if-Shrinks (ltb byte 128) _ _
      (Shrinks-bind read_byte _ read_byte-Shrinks (λ low. pure-Shrinks _))
      (if-Shrinks (ltb byte 192) _ _
        (Shrinks-bind (read_word 4) _ (read_word-Shrinks 4) (λ word. pure-Shrinks _))
        (pure-Shrinks _)))

load_length-Shrinks : Shrinks load_length
unfolding load_length
load_length-Shrinks = Shrinks-bind read_byte _ read_byte-Shrinks length_of-Shrinks

pub load_size-Shrinks : Shrinks load_size
unfolding load_size
load_size-Shrinks =
    Shrinks-bind load_length _ load_length-Shrinks
      (λ p. Shrinks-bind (check (not p.0)) _ (check-Shrinks (not p.0)) (λ u. pure-Shrinks p.1))

load_string-Shrinks : (len : ℕ) → Shrinks (load_string len)
unfolding load_string
load_string-Shrinks len =
    Shrinks-bind (peek len) _ (peek-Shrinks len) (λ str.
      Shrinks-bind (skip (length str)) _ (skip-Shrinks (length str)) (λ u. pure-Shrinks str))

module _ {S : Type 0} (c : Codecs S) where
  unpacked-Shrinks :
      (packed : PString) (o : Option PString)
      → Shrinks {A = PString}
          (elim o [ none ↦ pure [] | some val ↦ (do skip (length packed); pure val) ])
  unpacked-Shrinks packed none = pure-Shrinks []
  unpacked-Shrinks packed (some val) =
      Shrinks-bind (skip (length packed)) _ (skip-Shrinks (length packed)) (λ u. pure-Shrinks val)

  unpack-Shrinks : (raw_len packed_len : ℕ) → Shrinks (unpack c raw_len packed_len)
  unfolding unpack
  unpack-Shrinks raw_len packed_len =
      Shrinks-bind (peek packed_len) _ (peek-Shrinks packed_len)
        (λ packed. unpacked-Shrinks packed (c.decompress packed raw_len))

  load_lzf_string-Shrinks : Shrinks (load_lzf_string c)
  unfolding load_lzf_string
  load_lzf_string-Shrinks =
      Shrinks-bind load_size _ load_size-Shrinks
        (λ p. Shrinks-bind load_size _ load_size-Shrinks (λ r. unpack-Shrinks r p))

  special-Shrinks : (n : ℕ) → Shrinks (load_special_string_object c n)
  unfolding load_special_string_object
  special-Shrinks zero = Shrinks-bind read_byte _ read_byte-Shrinks (λ v. pure-Shrinks _)
  special-Shrinks (suc zero) =
      Shrinks-bind (read_word 2) _ (read_word-Shrinks 2) (λ v. pure-Shrinks _)
  special-Shrinks (suc (suc zero)) =
      Shrinks-bind (read_word 4) _ (read_word-Shrinks 4) (λ v. pure-Shrinks _)
  special-Shrinks (suc (suc (suc zero))) =
      Shrinks-bind (load_lzf_string c) _ load_lzf_string-Shrinks (λ v. pure-Shrinks _)
  special-Shrinks (suc (suc (suc (suc n)))) = fail-Shrinks

  string_of-Shrinks :
      {B : Type 0} (g : Value (SortedSet S) → B) (h : PString → B) (b : Bool) (len : ℕ)
      → Shrinks (string_of c g h b len)
  unfolding string_of
  string_of-Shrinks g h true len =
      Shrinks-bind (load_special_string_object c len) _ (special-Shrinks len) (λ v. pure-Shrinks _)
  string_of-Shrinks g h false len =
      Shrinks-bind (load_string len) _ (load_string-Shrinks len) (λ v. pure-Shrinks _)

  pub load_generic_string-Shrinks : Shrinks (load_generic_string c)
  unfolding load_generic_string
  load_generic_string-Shrinks =
      Shrinks-bind load_length _ load_length-Shrinks (λ p. string_of-Shrinks _ _ p.0 p.1)

  load_string_object-Shrinks : Shrinks (load_string_object c)
  unfolding load_string_object
  load_string_object-Shrinks =
      Shrinks-bind load_length _ load_length-Shrinks (λ p. string_of-Shrinks _ _ p.0 p.1)

  double_of-Shrinks : (byte : ℕ) → Shrinks (double_of c byte)
  unfolding double_of
  double_of-Shrinks byte = if-Shrinks (byte == 253) _ _ (pure-Shrinks _) (
      if-Shrinks (byte == 254) _ _ (pure-Shrinks _) (
        if-Shrinks (byte == 255) _ _ (pure-Shrinks _) (
          Shrinks-bind (peek byte) _ (peek-Shrinks byte) (λ val.
            Shrinks-bind (check (length val == byte)) _ (check-Shrinks _)
              (λ u. Shrinks-bind (skip byte) _ (skip-Shrinks byte) (λ u'. pure-Shrinks _))))))

  load_double_value-Shrinks : Shrinks (load_double_value c)
  unfolding load_double_value
  load_double_value-Shrinks = Shrinks-bind read_byte _ read_byte-Shrinks double_of-Shrinks

  or_fail-Shrinks : {A : Type 0} (o : Option A) → Shrinks (or_fail c o)
  or_fail-Shrinks none = fail-Shrinks
  or_fail-Shrinks (some a) = pure-Shrinks a

  -- A string, and what follows it.
  string-Shrinks :
      {B : Type 0} (f : PString → Reader B)
      → ((str : PString) → Shrinks (f str))
      → Shrinks (load_generic_string c >>= f)
  string-Shrinks f h = Shrinks-bind (load_generic_string c) f load_generic_string-Shrinks h

  load_list-Shrinks : (n : ℕ) (l : List PString) → Shrinks (load_list c n l)
  unfolding load_list
  load_list-Shrinks zero l = pure-Shrinks l
  load_list-Shrinks (suc n) l = string-Shrinks _ (λ x. load_list-Shrinks n (l ++ x ∷ []))

  load_set-Shrinks : (n : ℕ) (s : Members) → Shrinks (load_set c n s)
  unfolding load_set
  load_set-Shrinks zero s = pure-Shrinks s
  load_set-Shrinks (suc n) s = string-Shrinks _ (λ x. load_set-Shrinks n (Members.insert x s))

  load_hash-Shrinks : (n : ℕ) (h : Dict PString) → Shrinks (load_hash c n h)
  unfolding load_hash
  load_hash-Shrinks zero h = pure-Shrinks h
  load_hash-Shrinks (suc n) h =
      string-Shrinks _ (λ k. string-Shrinks _ (λ v. load_hash-Shrinks n (insert_new k v h)))

  load_zset-Shrinks : (n : ℕ) (z : SortedSet S) → Shrinks (load_zset c n z)
  unfolding load_zset
  load_zset-Shrinks zero z = pure-Shrinks z
  load_zset-Shrinks (suc n) z = string-Shrinks _ (λ m.
      Shrinks-bind (load_double_value c) _ load_double_value-Shrinks (λ score.
        Shrinks-bind (or_fail c (add_loaded c m score z)) _ (or_fail-Shrinks _)
          (λ z'. load_zset-Shrinks n z')))

  load_zip_list-Shrinks : (type : ℕ) → Shrinks (load_zip_list c type)
  unfolding load_zip_list
  load_zip_list-Shrinks type = string-Shrinks _ (λ zl.
      Shrinks-bind (or_fail c (c.ziplist zl)) _ (or_fail-Shrinks _)
        (λ es. or_fail-Shrinks (elements_value c type es)))

  load_intset-Shrinks : Shrinks (load_intset c)
  unfolding load_intset
  load_intset-Shrinks = string-Shrinks _ (λ str.
      Shrinks-bind (or_fail c (number_texts (c.intset str) [])) _ (or_fail-Shrinks _)
        (λ s. pure-Shrinks (Value.set s)))

  quick_elements-Shrinks : (zl : PString) → Shrinks (quick_elements c zl)
  unfolding quick_elements
  quick_elements-Shrinks [] = pure-Shrinks []
  quick_elements-Shrinks (b ∷ zl) =
      Shrinks-bind (or_fail c (c.ziplist (b ∷ zl))) _ (or_fail-Shrinks _)
        (λ es. or_fail-Shrinks (list_elements es))

  load_quick_list-Shrinks : (n : ℕ) (l : List PString) → Shrinks (load_quick_list c n l)
  unfolding load_quick_list
  load_quick_list-Shrinks zero l = pure-Shrinks l
  load_quick_list-Shrinks (suc n) l = string-Shrinks _ (λ zl.
      Shrinks-bind (quick_elements c zl) _ (quick_elements-Shrinks zl)
        (λ es. load_quick_list-Shrinks n (l ++ es)))

  -- A length, an assertion, a loop over the elements, and the object.
  sized-Shrinks :
      {A : Type 0} (f : ℕ → Reader A) (g : A → Value (SortedSet S))
      → ((n : ℕ) → Shrinks (f n))
      → Shrinks (load_size >>= λ len. f len >>= λ x. pure (g x))
  sized-Shrinks f g h =
      Shrinks-bind load_size _ load_size-Shrinks
        (λ len. Shrinks-bind (f len) _ (h len) (λ x. pure-Shrinks (g x)))

  pub load_object-Shrinks : (type : ℕ) → Shrinks (load_object c type)
  unfolding load_object
  load_object-Shrinks type = if-Shrinks (type == 0) _ _ load_string_object-Shrinks (
      if-Shrinks (type == 1) _ _ (sized-Shrinks _ Value.list (λ n. load_list-Shrinks n [])) (
        if-Shrinks (type == 10) _ _ (load_zip_list-Shrinks 10) (
          if-Shrinks (type == 2) _ _ (sized-Shrinks _ Value.set (λ n. load_set-Shrinks n [])) (
            if-Shrinks (type == 11) _ _ load_intset-Shrinks (
              if-Shrinks (type == 4) _ _ (sized-Shrinks _ Value.hash (λ n. load_hash-Shrinks n []))
                (if-Shrinks (type == 13) _ _ (load_zip_list-Shrinks 13) (
                  if-Shrinks (type == 3) _ _
                    (sized-Shrinks _ Value.zset (λ n. load_zset-Shrinks n empty_set))
                    (if-Shrinks (type == 12) _ _ (load_zip_list-Shrinks 12) (
                      if-Shrinks (type == 14) _ _
                        (Shrinks-bind load_length _ load_length-Shrinks (λ p.
                          Shrinks-bind (load_quick_list c p.1 []) _ (load_quick_list-Shrinks p.1 [])
                            (λ l. pure-Shrinks _)))
                        fail-Shrinks)))))))))
