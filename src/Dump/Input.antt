-- ===== src/Dump/Input.antt =====
-- `InputMemoryFile` of src/std/memory_file.h and src/std/memory_file.cc: the bytes behind the offset.
-- `none` stands for an assertion that fails, and for a read behind the end.
use pika_panlei.Base.{
  ℕ, zero, suc, ◌+◌, ◌*◌, ◌/◌, ◌%◌, ◌≤◌, ◌≡◌, ◌∙◌, sym, ap, Bool, ◌&&◌, Option, none, some, [], ◌∷◌,
  ◌++◌, append_assoc, PString, length, take, drop, ltb, if◌then◌else◌, arith, Option-cases, inl,
  inr,
}
use pika_panlei.Store.{is_empty}

abbrev pub Reader : Type 0 → Type 0
Reader A = PString → Option (A × PString)

abbrev pub pure : {A : Type 0} → A → Reader A
pure a bs = some (a, bs)

abbrev pub fail : {A : Type 0} → Reader A
fail bs = none

infixl 5 ◌>>=◌ ◌>>◌
abbrev pub ◌>>=◌ : {A B : Type 0} → Reader A → (A → Reader B) → Reader B
◌>>=◌ m f bs = elim (m bs) [ none ↦ none | some (a, rest) ↦ f a rest ]

abbrev pub ◌>>◌ : {B : Type 0} → Reader (Unit {0}) → Reader B → Reader B
m >> k = m >>= λ _. k

-- `assert`
abbrev pub check : Bool → Reader (Unit {0})
check b bs = if b then some (tt, bs) else none

-- `Read<uint8_t>`
unfoldable pub read_byte : Reader ℕ
read_byte [] = none
read_byte (b ∷ bs) = some (b, bs)

-- `Read<T>` of a type with that many bytes, the lowest first.
unfoldable pub read_word : ℕ → Reader ℕ
unfolding read_byte
read_word zero = pure 0
read_word (suc n) = do low ← read_byte; high ← read_word n; pure (low + 256 * high)

-- What `Read` returns: it cuts the length at the end of the file, and returns the null pointer with
-- the length as it was where the file is at its end.
unfoldable pub peek : ℕ → Reader PString
peek len bs = if is_empty bs && ltb 0 len then none else some (take len bs, bs)

unfoldable pub skip : ℕ → Reader (Unit {0})
skip len bs = if ltb (length bs) len then none else some (tt, drop len bs)

-- The bytes of a number, the lowest first.
unfoldable pub word : ℕ → ℕ → PString
word zero v = []
word (suc n) v = (v % 256) ∷ word n (v / 256)

-- The reader takes exactly these bytes, whatever stands behind them.
abbrev pub Reads : {A : Type 0} → Reader A → PString → A → Type 0
Reads m bs a = (rest : PString) → m (bs ++ rest) ≡ some (a, rest)

-- The reader puts nothing back.
abbrev pub Shrinks : {A : Type 0} → Reader A → Type 0
Shrinks {A} m =
    (bs : PString) (a : A) (rest : PString) → m bs ≡ some (a, rest) → length rest ≤ length bs

module _ {A B : Type 0} where
  >>=-eq :
      (m : Reader A) (f : A → Reader B) (bs rest : PString) (a : A)
      → m bs ≡ some (a, rest)
      → (m >>= f) bs ≡ f a rest
  >>=-eq m f bs rest a e = rw (e, ◌>>=◌)

  pub Reads-bind :
      (m : Reader A) (f : A → Reader B) (bs cs : PString) (a : A) (b : B)
      → Reads m bs a
      → Reads (f a) cs b
      → Reads (m >>= f) (bs ++ cs) b
  Reads-bind m f bs cs a b h k rest =
      ap (m >>= f) (append_assoc bs cs rest)
      ∙ >>=-eq m f (bs ++ (cs ++ rest)) (cs ++ rest) a (h (cs ++ rest))
      ∙ k rest

  pub Reads-last :
      (m : Reader A) (f : A → Reader B) (bs : PString) (a : A) (b : B)
      → Reads m bs a
      → ((rest : PString) → f a rest ≡ some (b, rest))
      → Reads (m >>= f) bs b
  Reads-last m f bs a b h k rest = >>=-eq m f (bs ++ rest) rest a (h rest) ∙ k rest

  pub Shrinks-bind :
      (m : Reader A) (f : A → Reader B) → Shrinks m → ((a : A) → Shrinks (f a)) → Shrinks (m >>= f)
  Shrinks-bind m f h k bs b rest e = elim (Option-cases (m bs)) [
    | inl n ↦ cc (e, n)
    | inr ((a, bs'), p) ↦
        let q = k a bs' b rest (sym (>>=-eq m f bs bs' a p) ∙ e) in
        let r = h bs a bs' p in omega arith
  ]
