-- ===== src/Dump/Total.antt =====
-- The strings and objects of `PDBSaver` are written: no assertion fails and no buffer is overrun.
use pika_panlei.Base.{
  ℕ, ◌-◌, ◌%◌, ◌^◌, ℤ, ◌≡◌, refl, sym, ap₂, subst, take, Bool, true, false, Option, none, some,
  List, [], ◌∷◌, ◌++◌, PString, length, ltb, leb, if◌then◌else◌, inl, inr, Bool-cases, arith,
}
use pika_panlei.Base.Dict.{Dict}
use pika_panlei.Common.Number.Strtol.{strtol, long_bits}
use pika_panlei.Store.{Value}
use pika_panlei.Strings.{decoded}
use pika_panlei.SortedSet.{SortedSet}
use pika_panlei.Dump.{Codecs}
use pika_panlei.Dump.Number.{number2str}
use pika_panlei.Dump.Short.{IsSmall, strtol-IsSmall}
use pika_panlei.Dump.Special.{as_text, as_text-small}
use pika_panlei.Dump.Words.{length_bytes, save_length-bytes}
use pika_panlei.Common.Number.Print.{print_int}
use pika_panlei.Dump.Save.{
  save_length, save_plain, save_int, save_lzf_string, save_text, save_string, save_strings,
  save_fields, save_scores, save_object, ◌then◌,
}

-- Something is written.
abbrev pub Writes : Option PString → Type 0
Writes o = (bs : PString) × (o ≡ some bs)

pub then-Writes : (x y : Option PString) → Writes x → Writes y → Writes (x then y)
then-Writes x y (a, e) (b, f) = (a ++ b, ap₂ ◌then◌ e f)

pub some-Writes : (bs : PString) → Writes (some bs)
some-Writes bs = (bs, refl)

pub if-Writes :
    (b : Bool) (x y : Option PString) → Writes x → Writes y → Writes (if b then x else y)
if-Writes true x y h k = h
if-Writes false x y h k = k

pub save_length-Writes : (len : ℕ) → Writes (save_length len)
save_length-Writes len = (length_bytes len, save_length-bytes len)

save_plain-Writes : (str : PString) → Writes (save_plain str)
unfolding save_plain
save_plain-Writes str = then-Writes _ _ (save_length-Writes (length str)) (some-Writes str)

as_text-Writes : (z : ℤ) → IsSmall z → Writes (as_text (number2str 64 z))
as_text-Writes z h = subst Writes (sym (as_text-small z h)) (save_plain-Writes (print_int z))

save_int-Writes : (z : ℤ) → IsSmall z → Writes (save_int z)
unfolding save_int as_text
save_int-Writes z h = if-Writes (leb (long_bits z) 127) _ _ (some-Writes _) (
    if-Writes (leb (long_bits z) 32767) _ _ (some-Writes _)
      (if-Writes (leb (long_bits z) 2147483647) _ _ (some-Writes _) (as_text-Writes z h)))

module _ {S : Type 0} (c : Codecs S) where
  written-Writes :
      (str : PString) (o : Option (Option PString))
      → ((w : Option PString) → o ≡ some w → Writes w)
      → Writes (elim o [ none ↦ save_plain str | some written ↦ written ])
  written-Writes str none k = save_plain-Writes str
  written-Writes str (some w) k = k w refl

  packed-Writes : (str : PString) (w : Option PString) → save_lzf_string c str ≡ some w → Writes w
  unfolding save_lzf_string
  packed-Writes str w e =
      let packed = c.compress (take (length str % 2 ^ 32) str) ((length str - 4) % 2 ^ 32) in
      let shape : some (195 ∷ [])
            then save_length (length packed)
            then save_length (length str)
            then some packed
          ≡ w =
        ground (arith, e) in
      subst Writes shape (
        then-Writes _ _ (some-Writes (195 ∷ [])) (
          then-Writes _ _ (save_length-Writes (length packed))
            (then-Writes _ _ (save_length-Writes (length str)) (some-Writes packed))))

  save_text-Writes : (str : PString) → Writes (save_text c str)
  unfolding save_text
  save_text-Writes str = written-Writes str (save_lzf_string c str) (packed-Writes str)

  numbered-Writes :
      (str : PString) (o : Option ℤ)
      → ((z : ℤ) → o ≡ some z → IsSmall z)
      → Writes (elim o [ some val ↦ save_int val | none ↦ save_text c str ])
  numbered-Writes str none k = save_text-Writes str
  numbered-Writes str (some z) k = save_int-Writes z (k z refl)

  short_number :
      (str : PString) (z : ℤ)
      → (if ltb (length str) 10 then strtol str else none) ≡ some z
      → IsSmall z
  short_number str z e = elim (Bool-cases (ltb (length str) 10)) [
    | inl l ↦ strtol-IsSmall str z (ground arith) (ground (arith, e))
    | inr l ↦ ground (arith, e)
  ]

  pub save_string-Writes : (str : PString) → Writes (save_string c str)
  unfolding save_string
  save_string-Writes str =
      numbered-Writes str (if ltb (length str) 10 then strtol str else none) (short_number str)

  save_strings-Writes : (xs : List PString) → Writes (save_strings c xs)
  unfolding save_strings
  save_strings-Writes [] = some-Writes []
  save_strings-Writes (x ∷ xs) = then-Writes _ _ (save_string-Writes x) (save_strings-Writes xs)

  save_fields-Writes : (h : Dict PString) → Writes (save_fields c h)
  unfolding save_fields
  save_fields-Writes [] = some-Writes []
  save_fields-Writes ((k, v) ∷ h) =
      then-Writes _ _ (save_string-Writes k)
        (then-Writes _ _ (save_string-Writes v) (save_fields-Writes h))

  save_scores-Writes : (z : Dict S) → Writes (save_scores c z)
  unfolding save_scores
  save_scores-Writes [] = some-Writes []
  save_scores-Writes ((m, s) ∷ z) =
      then-Writes _ _ (save_string-Writes m)
        (then-Writes _ _ (some-Writes _) (save_scores-Writes z))

  pub save_object-Writes : (v : Value (SortedSet S)) → Writes (save_object c v)
  unfolding save_object
  save_object-Writes (Value.raw t) = save_string-Writes (decoded {Z = SortedSet S} (Value.raw t))
  save_object-Writes (Value.int z) = save_string-Writes (decoded {Z = SortedSet S} (Value.int z))
  save_object-Writes (Value.list l) =
      then-Writes _ _ (save_length-Writes (length l)) (save_strings-Writes l)
  save_object-Writes (Value.set s) =
      then-Writes _ _ (save_length-Writes (length s)) (save_strings-Writes s)
  save_object-Writes (Value.hash f) =
      then-Writes _ _ (save_length-Writes (length f)) (save_fields-Writes f)
  save_object-Writes (Value.zset z) =
      then-Writes _ _ (save_length-Writes (length z.members)) (save_scores-Writes z.members)
