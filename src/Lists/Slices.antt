-- ===== src/Lists/Slices.antt =====
-- The ranges of `lrange` and `ltrim` of src/list.cc, with a plain description of them.
use pika_panlei.Base.{
  ℕ, zero, suc, ◌+◌, ◌-◌, ◌≤◌, ◌<◌, min, ℤ, pos, negsuc, ◌+ℤ◌, ◌-ℤ◌, ◌≡◌, refl, sym, inl, inr, true,
  false, ◌==◌, List, [], ◌∷◌, PString, length, take, drop, ltb, if◌then◌else◌, arith, Bool-cases,
  length-take, take-drop, length-drop, ltb_ℤ,
}
use pika_panlei.Common.Index.{adjust_index}
use pika_panlei.Lists.{Range, index2iterator, get_range, range_of, trim, visit}

-- How many elements stand before the range, and before its end. A negative index counts from the
-- end of the list.
abbrev pub lower : ℤ → ℕ → ℕ
lower (pos i) n = i
lower (negsuc i) n = n - suc i

abbrev pub upper : ℤ → ℕ → ℕ
upper (pos i) n = min (suc i) n
upper (negsuc i) n = n - i

index2iterator_lem : (i n : ℕ) → i ≤ n → index2iterator i n ≡ i
unfolding index2iterator
index2iterator_lem i n h = ground arith

abbrev range : ℕ → ℕ → ℕ → Range
range len b e = record { len = len; begin_it = b; end_it = e }

-- On bounds in the list, either walk ends at the position.
get_range-pos : (a b n : ℕ) → a ≤ b → b < n → get_range (pos a) (pos b) n ≡ range (b - a + 1) a b
unfolding get_range
get_range-pos a b n h k = ground arith

get_range-empty : (a b : ℤ) (n : ℕ) → ltb_ℤ b a ≡ true → get_range a b n ≡ range 0 n n
unfolding get_range
get_range-empty a b n h = rw h

adjust_index-full :
    (start end : ℤ) (n : ℕ)
    → lower start n < upper end n
    → adjust_index start end n ≡ (pos (lower start n), pos (upper end n - 1))
unfolding adjust_index ◌+ℤ◌ ◌-ℤ◌
adjust_index-full (pos i) (pos j) n h = ground arith
adjust_index-full (pos i) (negsuc j) n h = ground arith
adjust_index-full (negsuc i) (pos j) n h = ground arith
adjust_index-full (negsuc i) (negsuc j) n h = ground arith

adjust_index-empty :
    (start end : ℤ) (n : ℕ)
    → upper end n ≤ lower start n
    → ltb_ℤ (adjust_index start end n).1 (adjust_index start end n).0 ≡ true
unfolding adjust_index ◌+ℤ◌ ◌-ℤ◌
adjust_index-empty (pos i) (pos j) n h = ground arith
adjust_index-empty (pos i) (negsuc j) n h = ground arith
adjust_index-empty (negsuc i) (pos j) n h = ground arith
adjust_index-empty (negsuc i) (negsuc j) n h = ground arith

upper_le : (end : ℤ) (n : ℕ) → upper end n ≤ n
upper_le (pos i) n = omega arith
upper_le (negsuc i) n = omega arith

upper-lt : {a : ℕ} (end : ℤ) (n : ℕ) → a < upper end n → upper end n - 1 < n
upper-lt end n h = omega (arith, upper_le end n)

-- The range as `ltrim` and `lrange` compute it.
pub range_of-full :
    (start end : ℤ) (n : ℕ)
    → lower start n < upper end n
    → range_of start end n ≡ range (upper end n - lower start n) (lower start n) (upper end n - 1)
unfolding range_of
range_of-full start end n h =
    let e : upper end n - 1 - lower start n + 1 ≡ upper end n - lower start n = omega arith in
    rw (
      adjust_index-full start end n h,
      get_range-pos (lower start n) (upper end n - 1) n (omega arith) (upper-lt end n h),
      e,
    )

pub range_of-empty :
    (start end : ℤ) (n : ℕ) → upper end n ≤ lower start n → range_of start end n ≡ range 0 n n
unfolding range_of
range_of-empty start end n h =
    get_range-empty (adjust_index start end n).0 (adjust_index start end n).1 n
      (adjust_index-empty start end n h)

drop_ge : (n : ℕ) (l : List PString) → length l ≤ n → drop n l ≡ []
drop_ge zero [] h = refl
drop_ge zero (x ∷ l) h = absurd (omega arith)
drop_ge (suc n) [] h = refl
drop_ge (suc n) (x ∷ l) h = drop_ge n l (omega arith)

drop-take_ge : (a b : ℕ) (l : List PString) → b ≤ a → drop a (take b l) ≡ []
drop-take_ge a b l h = drop_ge a (take b l) (omega (arith, length-take b l))

-- `LRANGE` visits the elements from the start to the end of the range, for any bounds: negative
-- ones, ones beyond the end, and ones that leave nothing.
pub visit-range_of :
    (start end : ℤ) (l : List PString)
    → visit (range_of start end (length l)) l
      ≡ drop (lower start (length l)) (take (upper end (length l)) l)
unfolding visit
visit-range_of start end l =
    elim (Bool-cases (ltb (lower start (length l)) (upper end (length l)))) [
      | inl h ↦
          rw (range_of-full start end (length l) (ground arith))
            (take-drop (lower start (length l)) (upper end (length l)) l)
      | inr h ↦
          let le : upper end (length l) ≤ lower start (length l) = ground arith in
          rw (range_of-empty start end (length l) le) (sym (drop-take_ge _ _ l le))
    ]

-- The number that `lrange` puts before the elements is theirs.
pub len-range_of :
    (start end : ℤ) (l : List PString)
    → (range_of start end (length l)).len
      ≡ length (drop (lower start (length l)) (take (upper end (length l)) l))
len-range_of start end l =
    let n = length l in
    let size : length (drop (lower start n) (take (upper end n) l)) ≡ upper end n - lower start n =
      omega (
        arith,
        length-drop (lower start n) (take (upper end n) l),
        length-take (upper end n) l,
        upper_le end n,
      ) in
    elim (Bool-cases (ltb (lower start n) (upper end n))) [
      | inl h ↦ rw (range_of-full start end n (ground arith)) (sym size)
      | inr h ↦ rw (range_of-empty start end n (ground arith)) (ground (arith, size))
    ]

-- `LTRIM` keeps the range, if it is not empty. If it is, the list stays as it is.
pub trim_lem :
    (start end : ℤ) (l : List PString)
    → trim start end l ≡ (
        if ltb (lower start (length l)) (upper end (length l))
        then drop (lower start (length l)) (take (upper end (length l)) l)
        else l)
unfolding trim
trim_lem start end l = elim (Bool-cases (ltb (lower start (length l)) (upper end (length l)))) [
  | inl h ↦
      let lt : lower start (length l) < upper end (length l) = ground arith in
      let e : upper end (length l) - 1 + 1 ≡ upper end (length l) = omega arith in
      let f : (lower start (length l) == length l) ≡ false =
        ground (arith, upper_le end (length l)) in
      rw (range_of-full start end (length l) lt, h, e, f) refl
  | inr h ↦
      let f : (length l == length l) ≡ true = ground arith in
      rw (range_of-empty start end (length l) (ground arith), h, f) refl
]
