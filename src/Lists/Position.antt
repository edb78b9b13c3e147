-- ===== src/Lists/Position.antt =====
-- An element of a list of src/list.cc by its index, found from the nearer end.
use pika_panlei.Base.{
  ℕ, zero, suc, ◌-◌, ◌<◌, ◌≡◌, refl, ap, ap₂, ◌∙◌, some, List, [], ◌∷◌, ◌++◌, PString, length,
  length-reverse, get_elem?, set, set-append, arith,
}
use mathlib.Core.List.{reverse, reverse-cons, reverse-append, reverse-reverse}
use pika_panlei.Lists.{at_index, set_index}

get_elem?-append_lt :
    (xs ys : List PString) (i : ℕ) → i < length xs → get_elem? (xs ++ ys) i ≡ get_elem? xs i
get_elem?-append_lt [] ys i h = absurd (omega arith)
get_elem?-append_lt (x ∷ xs) ys zero h = refl
get_elem?-append_lt (x ∷ xs) ys (suc i) h = get_elem?-append_lt xs ys i (omega arith)

get_elem?-append_at :
    (xs : List PString) (y : PString) → get_elem? (xs ++ (y ∷ [])) (length xs) ≡ some y
get_elem?-append_at [] y = refl
get_elem?-append_at (x ∷ xs) y = get_elem?-append_at xs y

get_elem?-reverse :
    (l : List PString) (i : ℕ)
    → i < length l
    → get_elem? (reverse l) (length l - 1 - i) ≡ get_elem? l i
get_elem?-reverse [] i h = absurd (omega arith)
get_elem?-reverse (x ∷ l) zero h =
    let n : suc (length l) - 1 - 0 ≡ length (reverse l) = omega (arith, length-reverse l) in
    ap₂ get_elem? (reverse-cons x l) n ∙ get_elem?-append_at (reverse l) x
get_elem?-reverse (x ∷ l) (suc i) h =
    let n : suc (length l) - 1 - suc i ≡ length l - 1 - i = omega arith in
    ap₂ get_elem? (reverse-cons x l) n
    ∙ get_elem?-append_lt (reverse l) (x ∷ []) (length l - 1 - i) (omega (arith, length-reverse l))
    ∙ get_elem?-reverse l i (omega arith)

set-append_lt :
    (xs ys : List PString) (i : ℕ) (v : PString)
    → i < length xs
    → set (xs ++ ys) i v ≡ set xs i v ++ ys
set-append_lt [] ys i v h = absurd (omega arith)
set-append_lt (x ∷ xs) ys zero v h = refl
set-append_lt (x ∷ xs) ys (suc i) v h = ap (◌∷◌ x) (set-append_lt xs ys i v (omega arith))

set-reverse :
    (l : List PString) (i : ℕ) (v : PString)
    → i < length l
    → reverse (set (reverse l) (length l - 1 - i) v) ≡ set l i v
set-reverse [] i v h = absurd (omega arith)
set-reverse (x ∷ l) zero v h =
    let n : suc (length l) - 1 - 0 ≡ length (reverse l) = omega (arith, length-reverse l) in
    ap₂ (λ r k. reverse (set r k v)) (reverse-cons x l) n
    ∙ ap reverse (set-append (reverse l) x [] v)
    ∙ reverse-append (reverse l) (v ∷ [])
    ∙ ap (◌∷◌ v) (reverse-reverse l)
set-reverse (x ∷ l) (suc i) v h =
    let n : suc (length l) - 1 - suc i ≡ length l - 1 - i = omega arith in
    let k = length l - 1 - i in
    ap₂ (λ r k. reverse (set r k v)) (reverse-cons x l) n
    ∙ ap reverse (set-append_lt (reverse l) (x ∷ []) k v (omega (arith, length-reverse l)))
    ∙ reverse-append (set (reverse l) k v) (x ∷ [])
    ∙ ap (◌∷◌ x) (set-reverse l i v (omega arith))

-- For an index in the list, the walk of `lindex` from the nearer end finds the element of that
-- index.
pub at_index_lem : (i : ℕ) (l : List PString) → i < length l → at_index i l ≡ get_elem? l i
unfolding at_index
at_index_lem i l h = ground (arith, get_elem?-reverse l i h)

-- For an index in the list, the walk of `lset` from the nearer end replaces the element of that
-- index and no other.
pub set_index_lem :
    (i : ℕ) (v : PString) (l : List PString) → i < length l → set_index i v l ≡ set l i v
unfolding set_index
set_index_lem i v l h = ground (arith, set-reverse l i v h)
