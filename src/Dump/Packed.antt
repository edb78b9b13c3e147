-- ===== src/Dump/Packed.antt =====
-- The two readers of strings, on each form that a string is written in.
use pika_panlei.Base.{
  ℕ, ◌+◌, ◌-◌, ◌%◌, ◌^◌, ◌<◌, ◌≤◌, ℤ, ◌≡◌, refl, subst, sym, ap, ◌∙◌, true, false, Option, none,
  some, [], ◌∷◌, ◌++◌, PString, length, take, take-all, ltb, if◌then◌else◌, inl, inr, arith,
  take-append, drop-append, length-append,
}
use pika_panlei.Common.Number.Print.{print_int}
use pika_panlei.Store.{Value, is_empty}
use pika_panlei.Strings.{create_string}
use pika_panlei.SortedSet.{SortedSet}
use pika_panlei.Dump.{Codecs}
use pika_panlei.Dump.Input.{Reader, Reads, Reads-bind, Reads-last, peek, skip, pure, ◌>>=◌}
use pika_panlei.Dump.Short.{IsSmall, length-print_int}
use pika_panlei.Dump.Special.{special_byte, Special, save_int-cases}
use pika_panlei.Dump.Words.{load_length-save_length}
use pika_panlei.Dump.Save.{save_length, save_plain, save_int, save_lzf_string, ◌then◌}
use pika_panlei.Dump.Load.{
  load_length, load_size, load_string, unpack, load_lzf_string, load_special_string_object,
  string_of,
}

-- The two writes of a chain that does not fail.
pub then-eq :
    (x y : Option PString) (bs : PString)
    → x then y ≡ some bs
    → (a : PString) × (b : PString) × (x ≡ some a) × (y ≡ some b) × (bs ≡ a ++ b)
then-eq none y bs e = cc
then-eq (some a) none bs e = cc
then-eq (some a) (some b) bs e = (a, b, refl, refl, ground arith)

packed-eq :
    (x y : Option PString) (packed bs : PString)
    → some (195 ∷ []) then x then y then some packed ≡ some bs
    → (a : PString) × (b : PString) × (x ≡ some a)
      × (y ≡ some b)
      × (bs ≡ 195 ∷ (a ++ (b ++ packed)))
packed-eq none y packed bs e = cc e
packed-eq (some a) none packed bs e = cc e
packed-eq (some a) (some b) packed bs e = (a, b, refl, refl, ground arith)

pub peek-text : (str rest : PString) → peek (length str) (str ++ rest) ≡ some (str, str ++ rest)
unfolding peek
peek-text [] rest = ground arith
peek-text (x ∷ str) rest = ap (λ t. some (x ∷ t, x ∷ (str ++ rest))) (take-append str rest)

pub skip-text : (str : PString) → Reads (skip (length str)) str tt
unfolding skip
skip-text str rest = ground (arith, length-append str rest, drop-append str rest)

-- `LoadString` of the length takes the text.
load_string-text : (str : PString) → Reads (load_string (length str)) str str
unfolding load_string
load_string-text str rest = rw (peek-text str rest, ◌>>=◌, skip-text str rest) refl

module _ {S : Type 0} (c : Codecs S) where
  -- As the LZF library documents: the packed bytes fit into the buffer, and unless they are empty
  -- they are unpacked to the string.
  pub record IsLossless : Type 0 where
    pub within : (str : PString) (n : ℕ) → length (c.compress str n) ≤ n
    pub unpacks :
        (str : PString) (n : ℕ)
        → is_empty (c.compress str n) ≡ false
        → c.decompress (c.compress str n) (length str) ≡ some str

  pub load_size-save_length :
      (len : ℕ) (bs : PString) → len < 2 ^ 32 → save_length len ≡ some bs → Reads load_size bs len
  unfolding load_size
  load_size-save_length len bs h e rest = rw (load_length-save_length len bs h e rest, ◌>>=◌) refl

  unpack-packed :
      (str packed : PString)
      → c.decompress packed (length str) ≡ some str
      → Reads (unpack c (length str) (length packed)) packed str
  unfolding unpack
  unpack-packed str packed e rest = rw (peek-text packed rest, ◌>>=◌, e, skip-text packed rest) refl

  load_lzf_string-packed :
      (str packed a b : PString)
      → length packed < 2 ^ 32
      → length str < 2 ^ 32
      → save_length (length packed) ≡ some a
      → save_length (length str) ≡ some b
      → c.decompress packed (length str) ≡ some str
      → Reads (load_lzf_string c) (a ++ (b ++ packed)) str
  unfolding load_lzf_string
  load_lzf_string-packed str packed a b k l p q e =
      Reads-bind load_size _ a (b ++ packed) (length packed) str
        (load_size-save_length (length packed) a k p)
        (Reads-bind load_size _ b packed (length str) str (load_size-save_length (length str) b l q)
          (unpack-packed str packed e))

  module _ {B : Type 0} (g : Value (SortedSet S) → B) (h : PString → B) where
    abbrev pub string_reader : Reader B
    string_reader = load_length >>= λ p. string_of c g h p.0 p.1

    Special-Reads :
        (bs : PString) (z : ℤ) → Special c bs z → Reads string_reader bs (g (Value.int z))
    unfolding string_of
    Special-Reads bs z s =
        subst (λ b. Reads string_reader b (g (Value.int z))) (sym s.shape)
          (Reads-bind load_length (λ p. string_of c g h p.0 p.1) ((192 + s.kind) ∷ []) s.bytes
            (true, s.kind) (g (Value.int z)) (special_byte s.kind s.kind_in)
            (Reads-last (load_special_string_object c s.kind) (λ obj. pure (g obj)) s.bytes
              (Value.int z) (g (Value.int z)) s.reads (λ rest. refl)))

    pub plain-Reads :
        (str bs : PString)
        → length str < 2 ^ 32
        → save_plain str ≡ some bs
        → Reads string_reader bs (h str)
    unfolding save_plain string_of
    plain-Reads str bs l e =
        let (a, b, p, q, r) = then-eq (save_length (length str)) (some str) bs e in
        let q' : b ≡ str = ground (arith, q) in
        subst (λ x. Reads string_reader x (h str)) (sym (r ∙ ap (◌++◌ a) q'))
          (Reads-bind load_length (λ p. string_of c g h p.0 p.1) a str (false, length str) (h str)
            (load_length-save_length (length str) a l p)
            (Reads-last (load_string (length str)) (λ s. pure (h s)) str str (h str)
              (load_string-text str) (λ rest. refl)))

    pub int-Reads :
        (z : ℤ) (bs : PString)
        → IsSmall z
        → save_int z ≡ some bs
        → g (Value.int z) ≡ h (print_int z)
        → Reads string_reader bs (g (Value.int z))
    int-Reads z bs s e q = elim (save_int-cases c z bs s e) [
      | inl x ↦ Special-Reads bs z x
      | inr x ↦
          subst (Reads string_reader bs) (sym q)
            (plain-Reads (print_int z) bs (omega (arith, length-print_int z s)) x)
    ]

    packed-Reads :
        (str bytes : PString)
        → Reads (load_lzf_string c) bytes str
        → Reads string_reader (195 ∷ bytes) (g (create_string str))
    unfolding string_of load_special_string_object
    packed-Reads str bytes e =
        Reads-bind load_length (λ p. string_of c g h p.0 p.1) (195 ∷ []) bytes (true, 3) _
          (special_byte 3 (omega arith))
          (Reads-last (load_special_string_object c 3) (λ obj. pure (g obj)) bytes
            (create_string str) _
            (Reads-last (load_lzf_string c) (λ t. pure (create_string t)) bytes str _ e
              (λ rest. refl))
            (λ rest. refl))

    pub lzf-Reads :
        (str bs : PString)
        → IsLossless
        → length str < 2 ^ 32
        → save_lzf_string c str ≡ some (some bs)
        → Reads string_reader bs (g (create_string str))
    unfolding save_lzf_string
    lzf-Reads str bs lossless l e =
        let n : length str % 2 ^ 32 ≡ length str = omega arith in
        let whole : take (length str % 2 ^ 32) str ≡ str =
          ap (λ k. take k str) n ∙ take-all (length str) str (omega arith) in
        let size = (length str - 4) % 2 ^ 32 in
        let packed = c.compress str size in
        let e' =
          subst
            (λ t.
              (if ltb (length str) 20
                then none
                else if is_empty (c.compress t size)
                then none
                else some (
                    some (195 ∷ [])
                    then save_length (length (c.compress t size))
                    then save_length (length str)
                    then some (c.compress t size)))
              ≡ some (some bs))
            whole e in
        let full : is_empty packed ≡ false = ground (arith, e') in
        let (a, b, p, q, shape) =
          packed-eq (save_length (length packed)) (save_length (length str)) packed bs
            (ground (arith, e')) in
        subst (λ t. Reads string_reader t (g (create_string str))) (sym shape)
          (packed-Reads str (a ++ (b ++ packed)) (
            load_lzf_string-packed str packed a b (omega (arith, lossless.within str size)) l p q
              (lossless.unpacks str size full)))
