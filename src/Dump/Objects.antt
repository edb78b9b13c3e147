-- ===== src/Dump/Objects.antt =====
-- Objects are read as they were written, up to the spelling of the texts and the scores.
mod Collections
unfoldable pub use Collections.{insert_all, insert_fields}
use mathlib.Core.Option
use pika_panlei.Base.{
  All, ℕ, ◌%◌, ◌^◌, ◌<◌, pos, ◌≡◌, refl, sym, ap, subst, ◌∙◌, true, false, not, Option, none, some,
  [], ◌∷◌, ◌++◌, map, PString, length, take, ◌==◌, if◌then◌else◌, take-all, inl, inr, Bool-cases,
  Option-cases, arith,
}
use pika_panlei.Base.Dict.{Dict}
use pika_panlei.Base.Members
use pika_panlei.Store.{Value, Object}
use pika_panlei.Strings.{create_string, decoded}
use pika_panlei.SortedSet.{SortedSet, empty_set}
use pika_panlei.Dump.{Codecs}
use pika_panlei.Dump.Input.{Reader, Reads, Reads-bind, Reads-last, read_byte, pure, ◌>>=◌}
use pika_panlei.Dump.Save.{
  save_length, save_double_value, save_strings, save_fields, save_scores, save_object, type_byte,
  ◌then◌,
}
use pika_panlei.Dump.Load.{
  load_size, load_string_object, double_of, load_double_value, load_list, load_set, load_hash,
  load_zset, or_fail, add_loaded, load_object,
}
use pika_panlei.Dump.Packed.{IsLossless, then-eq, peek-text, skip-text, load_size-save_length}
use pika_panlei.Dump.Texts.{saved_text, load_string_object-save_string}
use Collections.{
  nothing-Reads, string-next, load_list-save_strings, load_set-save_strings, load_hash-save_fields,
}

module _ {S : Type 0} (c : Codecs S) where
  -- What is left of a score before it is cut to a whole number.
  unfoldable pub saved_score : S → S
  saved_score val =
      if c.is_nan val
      then c.not_a_number
      else if not (c.is_finite val)
      then c.infinity
      else c.read (c.print val)

  unfoldable pub add_scores : Dict S → SortedSet S → Option (SortedSet S)
  unfolding add_loaded saved_text saved_score
  add_scores [] z = some z
  add_scores ((m, score) ∷ rest) z = elim (add_loaded c (saved_text c m) (saved_score score) z) [
    | none ↦ none
    | some z' ↦ add_scores rest z'
  ]

  -- The text, or the collection and its texts, are shorter than 2^32.
  abbrev pub IsWritable : Value (SortedSet S) → Type 0
  IsWritable (Value.list l) = (length l < 2 ^ 32) × All (λ x. length x < 2 ^ 32) l
  IsWritable (Value.set s) = (length s < 2 ^ 32) × All (λ x. length x < 2 ^ 32) s
  IsWritable (Value.hash h) =
      (length h < 2 ^ 32) × All (λ p. (length p.0 < 2 ^ 32) × (length p.1 < 2 ^ 32)) h
  IsWritable (Value.zset z) = (length z.members < 2 ^ 32) × All (λ p. length p.0 < 2 ^ 32) z.members
  IsWritable v = length (decoded v) < 2 ^ 32

  -- The key as well.
  abbrev pub IsShort : PString × Object (SortedSet S) → Type 0
  IsShort (key, o) = (length key < 2 ^ 32) × IsWritable o.value

  -- `%.6g` prints at most 13 bytes.
  abbrev pub IsBrief : Type 0
  IsBrief = (score : S) → length (c.print score) < 253

  module _ (lossless : IsLossless c) where
    double_of-text : (t : PString) → length t < 253 → Reads (double_of c (length t)) t (c.read t)
    unfolding double_of
    double_of-text t h rest =
        let n : (length t == 253) ≡ false = ground arith in
        let p : (length t == 254) ≡ false = ground arith in
        let m : (length t == 255) ≡ false = ground arith in
        let o : (length t == length t) ≡ true = ground arith in
        rw (n, p, m, peek-text t rest, ◌>>=◌, o, skip-text t rest) refl

    load_double_value-save_double_value :
        (score : S)
        → IsBrief
        → Reads (load_double_value c) (save_double_value c score) (saved_score score)
    unfolding load_double_value save_double_value saved_score double_of read_byte
    load_double_value-save_double_value score brief rest =
        let h = brief score in
        let t = c.print score in
        let e : length t % 256 ≡ length t = omega arith in
        let a : take (length t) t ≡ t = take-all (length t) t (omega arith) in
        elim (Bool-cases (c.is_nan score)) [
          | inl n ↦ rw n refl
          | inr n ↦ elim (Bool-cases (c.is_finite score)) [
            | inl f ↦ rw (n, f, e, a) (double_of-text t h rest)
            | inr f ↦ elim (Bool-cases (c.doubles.below score (c.doubles.of_long (pos 0)))) [
              | inl b ↦ rw (n, f, b) refl
              | inr b ↦ rw (n, f, b) refl
            ]
          ]
        ]

    -- A score, and a member that is added without a failed assertion.
    score-next :
        (f : SortedSet S → Reader (SortedSet S)) (m : PString) (score : S) (bs : PString)
        (z z₁ z' : SortedSet S) (y : Option PString)
        → IsBrief
        → add_loaded c (saved_text c m) (saved_score score) z ≡ some z₁
        → some (save_double_value c score) then y ≡ some bs
        → ((cs : PString) → y ≡ some cs → Reads (f z₁) cs z')
        → Reads
            (load_double_value c >>= λ score'.
              or_fail c (add_loaded c (saved_text c m) score' z) >>= f)
            bs
            z'
    score-next f m score bs z z₁ z' y brief a e k =
        let (x, cs, p, q, r) = then-eq (some (save_double_value c score)) y bs e in
        let p' : save_double_value c score ≡ x = ground (arith, p) in
        subst
          (λ t.
            Reads
              (load_double_value c >>= λ score'.
                or_fail c (add_loaded c (saved_text c m) score' z) >>= f)
              t z')
          (sym (r ∙ ap (λ t. t ++ cs) (sym p')))
          (Reads-bind (load_double_value c)
            (λ score'. or_fail c (add_loaded c (saved_text c m) score' z) >>= f)
            (save_double_value c score) cs (saved_score score) z'
            (load_double_value-save_double_value score brief) (λ rest. rw a (k cs q rest)))

    load_zset-save_scores :
        (ms : Dict S) (z z' : SortedSet S) (bs : PString)
        → IsBrief
        → add_scores ms z ≡ some z'
        → All (λ p. length p.0 < 2 ^ 32) ms
        → save_scores c ms ≡ some bs
        → Reads (load_zset c (length ms) z) bs z'
    unfolding save_scores load_zset add_scores
    load_zset-save_scores [] z z' bs brief a s e =
        let a' : z ≡ z' = ground (arith, a) in subst (Reads (pure z) bs) a' (nothing-Reads z bs e)
    load_zset-save_scores ((m, score) ∷ ms) z z' bs brief a (s, ss) e =
        elim (Option-cases (add_loaded c (saved_text c m) (saved_score score) z)) [
          | inl n ↦ ground (arith, a)
          | inr (z₁, n) ↦
              let a' : add_scores ms z₁ ≡ some z' = ground (arith, a) in
              string-next c lossless _ m bs (some (save_double_value c score) then save_scores c ms)
                _ s e
                (λ cs q.
                  score-next (load_zset c (length ms)) m score cs z z₁ z' (save_scores c ms) brief n
                    q (λ ds. load_zset-save_scores ms z₁ z' ds brief a' ss))
        ]

    -- A length, an assertion, and the loop over the elements.
    sized-Reads :
        {A : Type 0} (f : ℕ → A → Reader A) (start : A) (g : A → Value (SortedSet S)) (n : ℕ)
        (bs : PString) (y : Option PString) (a : A) (v : Value (SortedSet S))
        → n < 2 ^ 32
        → save_length n then y ≡ some bs
        → g a ≡ v
        → ((cs : PString) → y ≡ some cs → Reads (f n start) cs a)
        → Reads (load_size >>= λ len. f len start >>= λ x. pure (g x)) bs v
    sized-Reads f start g n bs y a v s e w k =
        let (h, cs, p, q, r) = then-eq (save_length n) y bs e in
        subst (λ t. Reads (load_size >>= λ len. f len start >>= λ x. pure (g x)) t v) (sym r)
          (Reads-bind load_size (λ len. f len start >>= λ x. pure (g x)) h cs n v
            (load_size-save_length c n h s p)
            (Reads-last (f n start) (λ x. pure (g x)) cs a v (k cs q)
              (λ rest. ap (λ x. some (x, rest)) w)))

  -- What is left of an object; `none` where `AddMember` fails its assertion.
  unfoldable pub saved_value : Value (SortedSet S) → Option (Value (SortedSet S))
  unfolding insert_all insert_fields add_scores saved_text
  saved_value (Value.list l) = some (Value.list (map (saved_text c) l))
  saved_value (Value.set s) = some (Value.set (insert_all (map (saved_text c) s) []))
  saved_value (Value.hash h) = some (Value.hash (insert_fields c h []))
  saved_value (Value.zset z) = Option.map Value.zset (add_scores z.members empty_set)
  saved_value v = some (create_string (decoded v))

  -- Where the compression loses nothing and `%.6g` prints less than 253 bytes, an object whose text,
  -- or whose number of elements and their texts, are below 2^32 and that `SaveObject` writes is read
  -- back by `LoadObject` of the byte of `SaveType`, and the bytes behind
  -- it are left, but for the spelling of its texts, entries whose texts fall together, and its
  -- scores, which are rounded and cut; for a sorted set, where no two members fall together.
  pub load_object-save_object :
      (v v' : Value (SortedSet S)) (bs : PString)
      → IsLossless c
      → IsBrief
      → IsWritable v
      → saved_value v ≡ some v'
      → save_object c v ≡ some bs
      → Reads (load_object c (type_byte v)) bs v'
  unfolding load_object save_object saved_value type_byte
  load_object-save_object (Value.raw t) v' bs lossless brief s w e =
      let w' : create_string (decoded {Z = SortedSet S} (Value.raw t)) ≡ v' = ground (arith, w) in
      subst (Reads (load_string_object c) bs) w'
        (load_string_object-save_string c (decoded {Z = SortedSet S} (Value.raw t)) bs lossless s e)
  load_object-save_object (Value.int z) v' bs lossless brief s w e =
      let w' : create_string (decoded {Z = SortedSet S} (Value.int z)) ≡ v' = ground (arith, w) in
      subst (Reads (load_string_object c) bs) w'
        (load_string_object-save_string c (decoded {Z = SortedSet S} (Value.int z)) bs lossless s e)
  load_object-save_object (Value.list l) v' bs lossless brief s w e =
      let w' : Value.list (map (saved_text c) l) ≡ v' = ground (arith, w) in
      sized-Reads lossless (load_list c) [] Value.list (length l) bs (save_strings c l) _ v' s.0 e
        w' (λ cs q. load_list-save_strings c lossless l [] cs s.1 q)
  load_object-save_object (Value.set x) v' bs lossless brief s w e =
      let w' : Value.set (insert_all (map (saved_text c) x) []) ≡ v' = ground (arith, w) in
      sized-Reads lossless (load_set c) [] Value.set (length x) bs (save_strings c x) _ v' s.0 e w'
        (λ cs q. load_set-save_strings c lossless x [] cs s.1 q)
  load_object-save_object (Value.hash h) v' bs lossless brief s w e =
      let w' : Value.hash (insert_fields c h []) ≡ v' = ground (arith, w) in
      sized-Reads lossless (load_hash c) [] Value.hash (length h) bs (save_fields c h) _ v' s.0 e w'
        (λ cs q. load_hash-save_fields c lossless h [] cs s.1 q)
  load_object-save_object (Value.zset z) v' bs lossless brief s w e =
      elim (Option-cases (add_scores z.members empty_set)) [
        | inl n ↦ ground (arith, w)
        | inr (z', n) ↦
            let w' : Value.zset z' ≡ v' = ground (arith, w) in
            sized-Reads lossless (load_zset c) empty_set Value.zset (length z.members) bs
              (save_scores c z.members) z' v' s.0 e w'
              (λ cs q. load_zset-save_scores lossless z.members empty_set z' cs brief n s.1 q)
      ]
