-- ===== src/Strings/Ranges.antt =====
-- `setrange`, `setbit` and `bitcount` on texts.
use pika_panlei.Base.{
  All, ℕ, zero, suc, ◌+◌, ◌-◌, ◌*◌, ◌/◌, ◌%◌, ◌≤◌, ◌<◌, ◌≡◌, refl, sym, ap, ap₂, ◌∙◌, inl, inr,
  Bool, true, false, [], ◌∷◌, ◌++◌, PString, length, take, drop, get_or, set, replicate, ltb, ◌==◌,
  ==_iff, if◌then◌else◌, arith, length-append, length-take, length-replicate, take-append,
  drop-append, get_or-set_ne, get_or-set_self, Bool-cases,
}
use pika_panlei.Strings.{resized, replace_range, range_text}
use pika_panlei.Strings.Bits.{
  bits_in_byte, count_rounds, count_bytes, bit_count, bit_at, with_bit, text_bit, set_text_bit,
}

length-resized : (n : ℕ) (s : PString) → length s ≤ n → length (resized n s) ≡ n
unfolding resized
length-resized n s h =
    omega (
      arith,
      length-append s (replicate (n - length s) 0),
      length-replicate {A = ℕ} (n - length s) 0,
    )

-- A text written into the middle of another is found there.
inner_text :
    (front text back : PString)
    → take (length text) (drop (length front) (front ++ (text ++ back))) ≡ text
inner_text front text back =
    ap (take (length text)) (drop-append front (text ++ back)) ∙ take-append text back

range_text_at :
    (offset : ℕ) (text s : PString)
    → offset + length text ≤ length s
    → 0 < length text
    → range_text offset
        (offset + length text - 1)
        (take offset s ++ (text ++ drop (offset + length text) s))
      ≡ text
unfolding range_text
range_text_at offset text s h k =
    let front = take offset s in
    let n : offset + length text - 1 - offset + 1 ≡ length text = omega arith in
    let o : offset ≡ length front = omega (arith, length-take offset s) in
    ap₂ (λ m i. take m (drop i (front ++ (text ++ drop (offset + length text) s)))) n o
    ∙ inner_text front text (drop (offset + length text) s)

-- A text that is not empty and is written at an offset, as `setrange` writes it, is what `getrange`
-- finds at the same place.
pub range_text-replace_range :
    (offset : ℕ) (text s : PString)
    → 0 < length text
    → range_text offset (offset + length text - 1) (replace_range offset text s) ≡ text
unfolding replace_range
range_text-replace_range offset text s k =
    let n = offset + length text in
    elim (Bool-cases (ltb (length s) n)) [
      | inl h ↦ rw h (
          range_text_at offset text (resized n s) (omega (arith, length-resized n s (ground arith)))
            k)
      | inr h ↦ rw h (range_text_at offset text s (ground arith) k)
    ]

-- A test of all numbers below a limit, for tables that evaluation checks.
passes : (ℕ → Bool) → ℕ → Bool
passes test zero = true
passes test (suc limit) = if test limit then passes test limit else false

passes-at : (test : ℕ → Bool) (i limit : ℕ) → i < limit → passes test limit ≡ true → test i ≡ true
unfolding passes
passes-at test i zero small every = absurd (omega arith)
passes-at test i (suc limit) small every = ground (arith, passes-at test i limit)

abbrev bit_test : Bool → ℕ → ℕ → ℕ → Bool
bit_test on bits other byte =
    bit_at (with_bit byte bits on) other
    == (if bits == other then (if on then 1 else 0) else bit_at byte other)

abbrev byte_test : Bool → ℕ → ℕ → Bool
byte_test on bits other = passes (bit_test on bits other) 256

bit_table : (on : Bool) → passes (λ bits. passes (byte_test on bits) 8) 8 ≡ true
unfolding passes bit_at with_bit
bit_table true = refl
bit_table false = refl

-- A bit of a byte after another was written.
bit_at-with_bit :
    (on : Bool) (byte bits other : ℕ)
    → byte < 256
    → bits < 8
    → other < 8
    → bit_at (with_bit byte bits on) other
      ≡ (if bits == other then (if on then 1 else 0) else bit_at byte other)
bit_at-with_bit on byte bits other b k m =
    let row = passes-at (λ bits. passes (byte_test on bits) 8) bits 8 k (bit_table on) in
    (==_iff _ _).0
      (passes-at (bit_test on bits other) byte 256 b (passes-at (byte_test on bits) other 8 m row))

get_or-append :
    (xs ys : PString) (i : ℕ)
    → get_or (xs ++ ys) i 0
      ≡ (if ltb i (length xs) then get_or xs i 0 else get_or ys (i - length xs) 0)
get_or-append [] ys i =
    let e : i - 0 ≡ i = omega arith in ap (λ k. get_or ys k 0) (sym e) ∙ ground arith
get_or-append (x ∷ xs) ys zero = ground arith
get_or-append (x ∷ xs) ys (suc i) =
    let e : suc i - suc (length xs) ≡ i - length xs = omega arith in
    rw e (ground (arith, get_or-append xs ys i))

get_or-zeros : (n i : ℕ) → get_or {A = ℕ} (replicate n 0) i 0 ≡ 0
get_or-zeros zero i = refl
get_or-zeros (suc n) zero = refl
get_or-zeros (suc n) (suc i) = get_or-zeros n i

get_or-beyond : (xs : PString) (i : ℕ) → length xs ≤ i → get_or xs i 0 ≡ 0
get_or-beyond [] i h = refl
get_or-beyond (x ∷ xs) zero h = absurd (omega arith)
get_or-beyond (x ∷ xs) (suc i) h = get_or-beyond xs i (omega arith)

-- Zero bytes behind a text are not told from no bytes.
get_or-padded : (xs : PString) (n i : ℕ) → get_or (xs ++ replicate n 0) i 0 ≡ get_or xs i 0
get_or-padded xs n i = elim (Bool-cases (ltb i (length xs))) [
  | inl h ↦ get_or-append xs (replicate n 0) i ∙ rw h
  | inr h ↦
      get_or-append xs (replicate n 0) i
      ∙ rw h (get_or-zeros n (i - length xs) ∙ sym (get_or-beyond xs i (ground arith)))
]

byte-get_or : (xs : PString) (i : ℕ) → All (λ c. c < 256) xs → get_or xs i 0 < 256
byte-get_or [] i h = omega arith
byte-get_or (x ∷ xs) zero h = h.0
byte-get_or (x ∷ xs) (suc i) h = byte-get_or xs i h.1

text_bit_same :
    (i j : ℕ) (on : Bool) (s : PString)
    → (i / 8 == j / 8) ≡ true
    → All (λ c. c < 256) s
    → text_bit j (set_text_bit i on s) ≡ (if i == j then (if on then 1 else 0) else text_bit j s)
unfolding text_bit set_text_bit
text_bit_same i j on s h b =
    let bytes = i / 8 in
    let e : j / 8 ≡ bytes = ground arith in
    let padded = s ++ replicate (bytes + 1 - length s) 0 in
    let in_text : bytes < length padded = omega (
      arith,
      length-append s (replicate (bytes + 1 - length s) 0),
      length-replicate {A = ℕ} (bytes + 1 - length s) 0,
    ) in
    let old : get_or padded bytes 0 ≡ get_or s bytes 0 =
      get_or-padded s (bytes + 1 - length s) bytes in
    let same : (i % 8 == j % 8) ≡ (i == j) = ground arith in
    ap₂ bit_at
      (ap (λ k. get_or (set padded bytes (with_bit (get_or padded bytes 0) (i % 8) on)) k 0) e
        ∙ get_or-set_self padded bytes (with_bit (get_or padded bytes 0) (i % 8) on) 0 in_text)
      refl
    ∙ bit_at-with_bit on (get_or padded bytes 0) (i % 8) (j % 8) (rw old (byte-get_or s bytes b))
        (omega arith) (omega arith)
    ∙ ap₂ (λ c byte. if c then (if on then 1 else 0) else bit_at byte (j % 8)) same
        (old ∙ ap (λ k. get_or s k 0) (sym e))

text_bit_other :
    (i j : ℕ) (on : Bool) (s : PString)
    → (i / 8 == j / 8) ≡ false
    → text_bit j (set_text_bit i on s) ≡ text_bit j s
unfolding text_bit set_text_bit
text_bit_other i j on s h =
    let n = i / 8 + 1 - length s in
    ap (λ byte. bit_at byte (j % 8))
      (get_or-set_ne (s ++ replicate n 0) (i / 8) (j / 8) _ 0 (λ e. ground (arith, e, h))
        ∙ get_or-padded s n (j / 8))

-- In a text of bytes `getbit` finds the bit that `setbit` wrote, and every other bit as it was,
-- also where the text had to grow.
pub text_bit-set_text_bit :
    (i j : ℕ) (on : Bool) (s : PString)
    → All (λ c. c < 256) s
    → text_bit j (set_text_bit i on s) ≡ (if i == j then (if on then 1 else 0) else text_bit j s)
text_bit-set_text_bit i j on s b = elim (Bool-cases (i / 8 == j / 8)) [
  | inl h ↦ text_bit_same i j on s h b
  | inr h ↦ let e : (i == j) ≡ false = ground arith in text_bit_other i j on s h ∙ rw e refl
]

-- The lowest bits of a byte that are set.
unfoldable pub ones : ℕ → ℕ → ℕ
unfolding bit_at
ones zero byte = 0
ones (suc k) byte = bit_at byte k + ones k byte

unfoldable pub sum_of_bits : PString → ℕ
unfolding ones
sum_of_bits [] = 0
sum_of_bits (a ∷ s) = ones 8 a + sum_of_bits s

ones_table : passes (λ byte. bits_in_byte byte == ones 8 byte) 256 ≡ true
unfolding passes bits_in_byte ones
ones_table = refl

bits_in_byte-ones : (byte : ℕ) → byte < 256 → bits_in_byte byte ≡ ones 8 byte
bits_in_byte-ones byte h =
    (==_iff _ _).0 (passes-at (λ byte. bits_in_byte byte == ones 8 byte) byte 256 h ones_table)

-- The rounds take the bytes one after the other.
count_rounds-bytes : (k i : ℕ) (s : PString) → count_rounds k i s ≡ count_bytes (4 * k) (4 * i) s
unfolding count_rounds count_bytes
count_rounds-bytes zero i s = refl
count_rounds-bytes (suc k) i s =
    let four : 4 * suc k ≡ suc (suc (suc (suc (4 * k)))) = omega arith in
    let next : 4 * (i + 1) ≡ 4 * i + 1 + 1 + 1 + 1 = omega arith in
    let two : 4 * i + 2 ≡ 4 * i + 1 + 1 = omega arith in
    let three : 4 * i + 3 ≡ 4 * i + 1 + 1 + 1 = omega arith in
    rw (four, two, three, count_rounds-bytes k (i + 1) s, next) (omega arith)

count_bytes-append :
    (j k i : ℕ) (s : PString)
    → count_bytes (j + k) i s ≡ count_bytes j i s + count_bytes k (i + j) s
unfolding count_bytes
count_bytes-append zero k i s =
    let e : i + 0 ≡ i = omega arith in let z : 0 + k ≡ k = omega arith in rw (e, z) (omega arith)
count_bytes-append (suc j) k i s =
    let e : i + suc j ≡ i + 1 + j = omega arith in
    let z : suc j + k ≡ suc (j + k) = omega arith in
    rw (e, z) (omega (arith, count_bytes-append j k (i + 1) s))

count_bytes-suc : (k i a : ℕ) (s : PString) → count_bytes k (i + 1) (a ∷ s) ≡ count_bytes k i s
unfolding count_bytes
count_bytes-suc zero i a s = refl
count_bytes-suc (suc k) i a s =
    let e : i + 1 ≡ suc i = omega arith in
    ap₂ (λ x y. bits_in_byte x + y) (ap (λ j. get_or (a ∷ s) j 0) e) (count_bytes-suc k (i + 1) a s)

count_bytes-sum : (s : PString) → All (λ c. c < 256) s → count_bytes (length s) 0 s ≡ sum_of_bits s
unfolding count_bytes sum_of_bits
count_bytes-sum [] b = refl
count_bytes-sum (a ∷ s) b =
    ap₂ ◌+◌ (bits_in_byte-ones a b.0) (count_bytes-suc (length s) 0 a s ∙ count_bytes-sum s b.1)

-- `BitCount`, which takes four bytes a round, counts in a text of bytes the bits of every byte
-- that are set.
pub bit_count_lem : (s : PString) → All (λ c. c < 256) s → bit_count s ≡ sum_of_bits s
unfolding bit_count
bit_count_lem s b =
    let loop = length s / 4 in
    let whole : 4 * loop + length s % 4 ≡ length s = omega arith in
    let start : 4 * 0 ≡ 0 = omega arith in
    let behind : 0 + 4 * loop ≡ 4 * loop = omega arith in
    ap₂ ◌+◌ (count_rounds-bytes loop 0 s ∙ ap (λ i. count_bytes (4 * loop) i s) start)
      (ap (λ i. count_bytes (length s % 4) i s) (sym behind))
    ∙ sym (count_bytes-append (4 * loop) (length s % 4) 0 s)
    ∙ ap (λ n. count_bytes n 0 s) whole
    ∙ count_bytes-sum s b
