-- ===== src/Dump/Texts.antt =====
-- Strings are read as they were written, up to the spelling of short numbers.
use pika_panlei.Base.{
  ◌^◌, ◌<◌, ℤ, ◌≡◌, refl, subst, sym, ◌∙◌, Option, none, some, PString, length, ltb, if◌then◌else◌,
  inl, inr, Bool-cases, Option-cases, arith,
}
use pika_panlei.Common.Number.Print.{print_int}
use pika_panlei.Common.Number.Strtol.{strtol}
use pika_panlei.Common.Number.Decimal.{strtol-print_int}
use pika_panlei.Store.{Value}
use pika_panlei.Strings.{create_string, decoded}
use pika_panlei.Strings.Laws.{canonical, decoded-create_string}
use pika_panlei.SortedSet.{SortedSet}
use pika_panlei.Dump.{Codecs}
use pika_panlei.Dump.Input.{Reads}
use pika_panlei.Dump.Short.{strtol-IsSmall, IsSmall-IsLong}
use pika_panlei.Dump.Packed.{IsLossless, string_reader, plain-Reads, int-Reads, lzf-Reads}
use pika_panlei.Dump.Save.{save_int, save_lzf_string, save_text, save_string, ◌then◌}
use pika_panlei.Dump.Load.{load_generic_string, load_string_object}

module _ {S : Type 0} (c : Codecs S) where
  -- What is left of a string: numbers of less than ten bytes, and packed ones, are spelled anew.
  unfoldable pub saved_text : PString → PString
  saved_text str =
      if ltb (length str) 10
      then canonical str
      else elim (save_lzf_string c str) [ none ↦ str | some written ↦ canonical str ]

  text-Reads :
      {B : Type 0} (g : Value (SortedSet S) → B) (h : PString → B) (str bs : PString) (r : B)
      → IsLossless c
      → length str < 2 ^ 32
      → save_text c str ≡ some bs
      → (save_lzf_string c str ≡ none → h str ≡ r)
      → ((w : Option PString) → save_lzf_string c str ≡ some w → g (create_string str) ≡ r)
      → Reads (string_reader c g h) bs r
  unfolding save_text
  text-Reads g h str bs r lossless s e plain packed = elim (Option-cases (save_lzf_string c str)) [
    | inl n ↦
        subst (Reads (string_reader c g h) bs) (plain n)
          (plain-Reads c g h str bs s (ground (arith, e)))
    | inr (w, n) ↦
        let n' : save_lzf_string c str ≡ some (some bs) = ground (arith, e) in
        subst (Reads (string_reader c g h) bs) (packed w n) (lzf-Reads c g h str bs lossless s n')
  ]

  -- Both readers of a string, by what they make of a number, of a plain text and of a packed one.
  string-Reads :
      {B : Type 0} (g : Value (SortedSet S) → B) (h : PString → B) (str bs : PString) (r : B)
      → IsLossless c
      → length str < 2 ^ 32
      → save_string c str ≡ some bs
      → ((z : ℤ)
          → length str < 10
          → strtol str ≡ some z
          → (g (Value.int z) ≡ r) × (h (print_int z) ≡ r))
      → ((length str < 10 → strtol str ≡ none) → save_lzf_string c str ≡ none → h str ≡ r)
      → ((w : Option PString) → save_lzf_string c str ≡ some w → g (create_string str) ≡ r)
      → Reads (string_reader c g h) bs r
  unfolding save_string
  string-Reads g h str bs r lossless s e number plain packed =
      elim (Bool-cases (ltb (length str) 10)) [
        | inr l ↦
            text-Reads g h str bs r lossless s (ground (arith, e)) (plain (λ k. ground arith))
              packed
        | inl l ↦
            let l' : length str < 10 = ground arith in
            elim (Option-cases (strtol str)) [
              | inl n ↦
                  text-Reads g h str bs r lossless s (ground (arith, e)) (plain (λ k. n)) packed
              | inr (z, n) ↦
                  let (p, q) = number z l' n in
                  let e' : save_int z ≡ some bs = ground (arith, e) in
                  subst (Reads (string_reader c g h) bs) p
                    (int-Reads c g h z bs (strtol-IsSmall str z l' n) e' (p ∙ sym q))
            ]
      ]

  canonical-some : (str : PString) (z : ℤ) → strtol str ≡ some z → canonical str ≡ print_int z
  unfolding canonical
  canonical-some str z e = rw (e, canonical) refl

  pub canonical-none : (str : PString) → strtol str ≡ none → canonical str ≡ str
  unfolding canonical
  canonical-none str e = rw (e, canonical) refl

  decoded-int : (z : ℤ) → decoded {Z = SortedSet S} (Value.int z) ≡ print_int z
  unfolding decoded
  decoded-int z = refl

  saved_text-short : (str : PString) → length str < 10 → saved_text str ≡ canonical str
  unfolding saved_text
  saved_text-short str h = ground arith

  pub saved_text-packed :
      (str : PString) (w : Option PString)
      → save_lzf_string c str ≡ some w
      → saved_text str ≡ canonical str
  unfolding saved_text
  saved_text-packed str w e = ground arith

  pub saved_text-plain :
      (str : PString)
      → (length str < 10 → strtol str ≡ none)
      → save_lzf_string c str ≡ none
      → saved_text str ≡ str
  unfolding saved_text
  saved_text-plain str n e = elim (Bool-cases (ltb (length str) 10)) [
    | inl l ↦
        let l' : length str < 10 = ground arith in
        saved_text-short str l' ∙ canonical-none str (n l')
    | inr l ↦ ground arith
  ]

  -- Where the compression loses nothing, a string shorter than 2^32 that `SaveString` writes is read back by
  -- `loadGenericString`, and the bytes behind it are left, but for the spelling: a text of less than
  -- ten bytes that `Strtol` reads, and a packed one that it reads, come back as the decimal number.
  pub load_generic_string-save_string :
      (str bs : PString)
      → IsLossless c
      → length str < 2 ^ 32
      → save_string c str ≡ some bs
      → Reads (load_generic_string c) bs (saved_text str)
  unfolding load_generic_string saved_text
  load_generic_string-save_string str bs lossless s e =
      string-Reads decoded (λ t. t) str bs (saved_text str) lossless s e
        (λ z l n.
          let q = sym (saved_text-short str l ∙ canonical-some str z n) in (decoded-int z ∙ q, q))
        (λ n l. sym (saved_text-plain str n l))
        (λ w n. decoded-create_string (SortedSet S) str ∙ sym (saved_text-packed str w n))

  pub create_string-some :
      (str : PString) (z : ℤ)
      → strtol str ≡ some z
      → create_string {Z = SortedSet S} str ≡ Value.int z
  unfolding create_string
  create_string-some str z e = rw (e, create_string) refl

  -- Where the compression loses nothing, a string shorter than 2^32 that `SaveString` writes is read back by
  -- `LoadObject` as the object that `CreateString` makes of it.
  pub load_string_object-save_string :
      (str bs : PString)
      → IsLossless c
      → length str < 2 ^ 32
      → save_string c str ≡ some bs
      → Reads (load_string_object c) bs (create_string str)
  unfolding load_string_object
  load_string_object-save_string str bs lossless s e =
      string-Reads (λ obj. obj) create_string str bs (create_string str) lossless s e
        (λ z l n.
          let q = sym (create_string-some str z n) in
          let long = IsSmall-IsLong z (strtol-IsSmall str z l n) in
          (q, create_string-some (print_int z) z (strtol-print_int z long) ∙ q))
        (λ n l. refl) (λ w n. refl)
