-- ===== src/Dump/Short.antt =====
-- The numbers that `Strtol` reads from less than ten bytes.
use pika_panlei.Base.{
  ℕ, zero, suc, ◌+◌, ◌*◌, ◌^◌, ◌<◌, ◌≤◌, ℤ, pos, negsuc, pos_part, neg_part, ◌≡◌, refl, sym, ap,
  ◌∙◌, ◌⊎◌, inl, inr, Bool, true, false, none, some, [], ◌∷◌, PString, length, ltb, Bool-cases,
  Option-cases, arith,
}
use pika_panlei.Common.Number.Print.{print_int}
use pika_panlei.Common.Number.Strtol.{
  skip_space, digit_value, digits_value, magnitude, in_range, strtol_signed, strtol,
}
use pika_panlei.Common.Number.Decimal.{IsLong, short_number}

-- The largest number of `k` more digits of base 16.
abbrev cap : ℕ → ℕ → ℕ
cap zero v = v
cap (suc k) v = cap k (v * 16 + 15)

cap_mono : (k v w : ℕ) → v ≤ w → cap k v ≤ cap k w
cap_mono zero v w h = h
cap_mono (suc k) v w h = cap_mono k (v * 16 + 15) (w * 16 + 15) (omega arith)

le-cap : (k v : ℕ) → v ≤ cap k v
le-cap zero v = omega arith
le-cap (suc k) v = omega (arith, le-cap k (v * 16 + 15))

cap_le : (k m v : ℕ) → k ≤ m → cap k v ≤ cap m v
cap_le zero m v h = le-cap m v
cap_le (suc k) zero v h = absurd (omega arith)
cap_le (suc k) (suc m) v h = cap_le k m (v * 16 + 15) (omega arith)

abbrev IsBase : ℕ → Type 0
IsBase base = (base ≡ 8) ⊎ (base ≡ 10) ⊎ (base ≡ 16)

step_le : (base v d : ℕ) → IsBase base → d < base → v * base + d ≤ v * 16 + 15
step_le base v d (inl e) h = rw e (let h' : d < 8 = omega (arith, e, h) in omega (arith, h'))
step_le base v d (inr (inl e)) h = rw e (let h' : d < 10 = omega (arith, e, h) in omega (arith, h'))
step_le base v d (inr (inr e)) h = rw e (let h' : d < 16 = omega (arith, e, h) in omega (arith, h'))

digits_value_le :
    (base v n : ℕ) (cs : PString)
    → IsBase base
    → digits_value base v cs ≡ some n
    → n ≤ cap (length cs) v
unfolding digits_value
digits_value_le base v n [] b e = ground arith
digits_value_le base v n (c ∷ cs) b e = elim (Bool-cases (ltb (digit_value c) base)) [
  | inl t ↦
      let w = v * base + digit_value c in
      let r = digits_value_le base w n cs b (ground arith) in
      let m =
        cap_mono (length cs) w (v * 16 + 15) (step_le base v (digit_value c) b (ground arith)) in
      omega (arith, r, m)
  | inr t ↦ ground arith
]

magnitude_le : (n : ℕ) (cs : PString) → magnitude cs ≡ some n → n ≤ cap (length cs) 0
unfolding magnitude
magnitude_le n [] e = ground arith
magnitude_le n (c ∷ []) e = digits_value_le 10 0 n (c ∷ []) (inr (inl refl)) e
magnitude_le n (c ∷ x ∷ []) e = ground (
  arith,
  digits_value_le 8 0 n (x ∷ []) (inl refl),
  digits_value_le 10 0 n (c ∷ x ∷ []) (inr (inl refl)),
  cap_le 1 2 0,
)
magnitude_le n (c ∷ x ∷ y ∷ ds) e =
    let shorter = cap_mono (length ds) 15 4095 (omega arith) in
    let short = cap_mono (length ds) 255 4095 (omega arith) in
    ground (
      arith,
      shorter,
      short,
      digits_value_le 16 0 n (y ∷ ds) (inr (inr refl)),
      digits_value_le 8 0 n (x ∷ y ∷ ds) (inl refl),
      digits_value_le 10 0 n (c ∷ x ∷ y ∷ ds) (inr (inl refl)),
    )

abbrev pub IsSmall : ℤ → Type 0
IsSmall z = (pos_part z < 2 ^ 40) × (neg_part z < 2 ^ 40)

in_range-none : (negative : Bool) → in_range negative none ≡ none
unfolding in_range
in_range-none negative = refl

in_range-some :
    (negative : Bool) (n : ℕ) (z : ℤ) → n < 2 ^ 40 → in_range negative (some n) ≡ some z → IsSmall z
unfolding in_range
in_range-some true n z h e = ground arith
in_range-some false n z h e = ground arith

in_range-IsSmall :
    (negative : Bool) (cs : PString) (z : ℤ)
    → length cs ≤ 9
    → in_range negative (magnitude cs) ≡ some z
    → IsSmall z
unfolding in_range
in_range-IsSmall negative cs z h e = elim (Option-cases (magnitude cs)) [
  | inl q ↦ cc (sym (ap (in_range negative) q ∙ in_range-none negative) ∙ e)
  | inr (n, q) ↦
      let b : n < 2 ^ 40 = omega (arith, magnitude_le n cs q, cap_le (length cs) 9 0 h) in
      in_range-some negative n z b (sym (ap (in_range negative) q) ∙ e)
]

length-skip_space : (s : PString) → length (skip_space s) ≤ length s
unfolding skip_space
length-skip_space [] = omega arith
length-skip_space (c ∷ s) = ground (arith, length-skip_space s)

strtol_signed-IsSmall : (s : PString) (z : ℤ) → length s ≤ 9 → strtol_signed s ≡ some z → IsSmall z
unfolding strtol_signed
strtol_signed-IsSmall [] z h e = cc e
strtol_signed-IsSmall (c ∷ cs) z h e = ground (
  arith,
  in_range-IsSmall true cs z (omega arith),
  in_range-IsSmall false cs z (omega arith),
  in_range-IsSmall false (c ∷ cs) z h,
)

pub strtol-IsSmall : (s : PString) (z : ℤ) → length s < 10 → strtol s ≡ some z → IsSmall z
unfolding strtol
strtol-IsSmall s z h e =
    ground (arith, strtol_signed-IsSmall (skip_space s) z (omega (arith, length-skip_space s)))

pub IsSmall-IsLong : (z : ℤ) → IsSmall z → IsLong z
IsSmall-IsLong (pos n) (h, k) = omega arith
IsSmall-IsLong (negsuc n) (h, k) = omega arith

pub length-print_int : (z : ℤ) → IsSmall z → length (print_int z) < 64
unfolding print_int
length-print_int (pos n) (h, k) = omega (arith, short_number n (omega arith))
length-print_int (negsuc n) (h, k) = omega (arith, short_number (suc n) (omega arith))
