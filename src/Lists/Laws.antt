-- ===== src/Lists/Laws.antt =====
-- The list commands against the view of the database.
use pika_panlei.Base.{
  ℕ, zero, suc, ◌+◌, ◌≤◌, min, ℤ, pos, ◌≡◌, refl, ap, ap₂, ◌∙◌, false, Option, none, some, List, [],
  ◌∷◌, ◌++◌, PString, length, drop, take, ltb, if◌then◌else◌, arith, subst, str_eq,
}
use mathlib.Core.Path.{subst₂}
use pika_panlei.Common.{PType, PError}
use pika_panlei.Common.Number.Strtol.{strtol}
use pika_panlei.Common.Reply.{format_int, format_bulk, format_ok, pre_format_multi_bulk}
use pika_panlei.Store.{Value, Env, Store, is_empty, has_type}
use pika_panlei.Store.View.{visible, IsValid}
use pika_panlei.Store.Writes.{put, remove}
use pika_panlei.Command.{Response, cast_list, respond}
use pika_panlei.Command.Refines.{View, Present, Answers}
use pika_panlei.Command.Rules.{
  remove-put, put-lookup, answer-view, answer-write, answer-same, answer-delete, get_found,
  written-Ready,
}
use pika_panlei.Lists.{
  ListPosition, last_or, all_but_last, pop_end, trim, range_of, remove_by, remove_first, includes,
  visit, format_bulks,
}
use pika_panlei.Lists.Slices.{lower, upper, trim_lem, visit-range_of, len-range_of}
use pika_panlei.Lists.Commands.{pop, ltrim, lrange, lrem, write_popped}

unfoldable pub occurrences : PString → List PString → ℕ
occurrences text [] = 0
occurrences text (x ∷ l) = if str_eq x text then suc (occurrences text l) else occurrences text l

-- The head loop of `lrem` erases as many of the equal elements as it is asked for or all of
-- them, counts them, and the list gets shorter by that number.
pub count-remove_first :
    (count : ℕ) (text : PString) (l : List PString)
    → ((remove_first count text l).0 ≡ min count (occurrences text l))
      × ((remove_first count text l).0 + length (remove_first count text l).1 ≡ length l)
unfolding remove_first occurrences
count-remove_first zero text l = (omega arith, omega arith)
count-remove_first (suc count) text [] = (omega arith, omega arith)
count-remove_first (suc count) text (x ∷ l) =
    ground (arith, count-remove_first count text l, count-remove_first (suc count) text l)

-- Asked for the length of the list, it leaves none.
pub includes-remove_first :
    (count : ℕ) (text : PString) (l : List PString)
    → length l ≤ count
    → includes text (remove_first count text l).1 ≡ false
unfolding remove_first includes
includes-remove_first zero text [] h = refl
includes-remove_first zero text (x ∷ l) h = absurd (omega arith)
includes-remove_first (suc count) text [] h = refl
includes-remove_first (suc count) text (x ∷ l) h =
    ground (arith, includes-remove_first count text l, includes-remove_first (suc count) text l)

-- A list with an element at its front or at its back.
unfoldable pub with_end : ListPosition → PString → List PString → List PString
with_end ListPosition.head x rest = x ∷ rest
with_end ListPosition.tail x rest = rest ++ x ∷ []

last_or-append : (d x : PString) (rest : List PString) → last_or d (rest ++ x ∷ []) ≡ x
unfolding last_or
last_or-append d x [] = refl
last_or-append d x (y ∷ rest) = last_or-append y x rest

all_but_last-append : (x : PString) (rest : List PString) → all_but_last (rest ++ x ∷ []) ≡ rest
unfolding all_but_last
all_but_last-append x [] = refl
all_but_last-append x (y ∷ []) = refl
all_but_last-append x (y ∷ z ∷ rest) = ap (◌∷◌ y) (all_but_last-append x (z ∷ rest))

pop_end-with_end :
    (position : ListPosition) (x : PString) (rest : List PString)
    → pop_end position (with_end position x rest) ≡ some (x, rest)
unfolding pop_end with_end
pop_end-with_end ListPosition.head x rest = refl
pop_end-with_end ListPosition.tail x [] = refl
pop_end-with_end ListPosition.tail x (y ∷ rest) =
    ap₂ (λ r l. some (r, l)) (last_or-append y x rest) (all_but_last-append x (y ∷ rest))

module _ {Z : Type 0} where
  -- The run does not go wrong, and the response is as stated.
  abbrev pub Gives : Env Z → PError → PString → View Z → Option (Response Z) → Type 0
  Gives env e t f o = (r : Response Z) × (o ≡ some r) × Answers env e t f r

module _ {Z : Type 0} (env : Env Z) (s : Store Z) (valid : IsValid env s) where
  -- The view after a list was written back, and its key deleted if the list is empty.
  abbrev pub popped : PString → List PString → View Z
  popped key l =
      if is_empty l then remove key (visible env s) else put key (Value.list l) (visible env s)

  answer-write_popped :
      (key t : PString) (l : List PString) (s' : Store Z)
      → Present env key (visible env s) s'
      → Answers env PError.ok t (popped key l) (respond PError.ok t (write_popped key l s'))
  unfolding write_popped
  answer-write_popped key t [] s' p =
      answer-view (remove-put key (Value.list []) (visible env s))
        (answer-delete PError.ok t (written-Ready (Value.list []) p))
  answer-write_popped key t (x ∷ l) s' p = answer-write PError.ok t (Value.list (x ∷ l)) p

  -- On a valid store, where a key holds a list with an element in front of or behind others,
  -- `lpop` or `rpop` does not fail, answers this element, leaves the others, and deletes the key
  -- where there are none.
  pub pop-Answers :
      (position : ListPosition) (c key x : PString) (rest : List PString)
      → visible env s key ≡ some (Value.list (with_end position x rest))
      → Gives env PError.ok (format_bulk x) (popped key rest) (pop env position (c ∷ key ∷ []) s)
  unfolding pop cast_list has_type
  pop-Answers position c key x rest e =
      get_found (Gives env PError.ok (format_bulk x) (popped key rest)) env key PType.list s _ _
        valid (Value.list (with_end position x rest)) e refl
        (λ s' p.
          rw (pop_end-with_end position x rest)
            (_, refl, answer-write_popped key (format_bulk x) rest s' p))

  -- On an empty list they run into the failed assertion.
  pub pop-empty :
      (position : ListPosition) (c key : PString)
      → visible env s key ≡ some (Value.list [])
      → pop env position (c ∷ key ∷ []) s ≡ none
  unfolding pop cast_list has_type pop_end
  pop-empty position c key e =
      get_found (λ (o : Option (Response Z)). o ≡ none) env key PType.list s _ _ valid
        (Value.list []) e refl (λ s' p. refl)

  -- `LREM` writes what its loop leaves, and does not delete the key of an empty list.
  pub lrem-Answers :
      (c key count text : PString) (l : List PString) (z : ℤ) (n : ℕ) (l' : List PString)
      → visible env s key ≡ some (Value.list l)
      → strtol count ≡ some z
      → remove_by z text l ≡ some (n, l')
      → Gives env PError.ok
          (format_int (pos n))
          (put key (Value.list l') (visible env s))
          (lrem env (c ∷ key ∷ count ∷ text ∷ []) s)
  unfolding lrem cast_list has_type
  lrem-Answers c key count text l z n l' e h q =
      get_found (Gives env PError.ok (format_int (pos n)) (put key (Value.list l') (visible env s)))
        env key PType.list s _ _ valid (Value.list l) e refl
        (λ s' p. rw (h, q) (_, refl, answer-write PError.ok (format_int (pos n)) (Value.list l') p))

module _ {Z : Type 0} (env : Env Z) (s : Store Z) (valid : IsValid env s) where
  -- On a valid store, where `lrem` with a readable count erases all elements of a list, it answers
  -- their number and the next `lpop` or `rpop` of the key fails its assertion.
  pub pop-lrem :
      (position : ListPosition) (c c' key count text : PString) (l : List PString) (z : ℤ) (n : ℕ)
      → visible env s key ≡ some (Value.list l)
      → strtol count ≡ some z
      → remove_by z text l ≡ some (n, [])
      → (r : Response Z) × (lrem env (c ∷ key ∷ count ∷ text ∷ []) s ≡ some r)
        × (r.reply ≡ format_int (pos n))
        × (pop env position (c' ∷ key ∷ []) r.store ≡ none)
  pop-lrem position c c' key count text l z n e h q =
      let (r, d, a) = lrem-Answers env s valid c key count text l z n [] e h q in
      (
        r,
        d,
        a.reply,
        pop-empty env r.store a.valid position c' key
            (a.view key ∙ put-lookup key (Value.list []) (visible env s)),
      )

  -- On a valid store, where a key holds a list and both bounds read as numbers, `ltrim` leaves the
  -- range between the bounds, and the whole list if the range is empty.
  pub ltrim-Answers :
      (c key first last : PString) (l : List PString) (start end : ℤ)
      → visible env s key ≡ some (Value.list l)
      → strtol first ≡ some start
      → strtol last ≡ some end
      → Gives env PError.ok format_ok
          (put key
            (Value.list (
              if ltb (lower start (length l)) (upper end (length l))
              then drop (lower start (length l)) (take (upper end (length l)) l)
              else l))
            (visible env s))
          (ltrim env (c ∷ key ∷ first ∷ last ∷ []) s)
  unfolding ltrim cast_list has_type
  ltrim-Answers c key first last l start end e h k =
      subst
        (λ t.
          Gives env PError.ok format_ok (put key (Value.list t) (visible env s))
            (ltrim env (c ∷ key ∷ first ∷ last ∷ []) s))
        (trim_lem start end l)
        (get_found
          (Gives env PError.ok format_ok (put key (Value.list (trim start end l)) (visible env s)))
          env key PType.list s _ _ valid (Value.list l) e refl
          (λ s' p.
            rw (h, k)
              (_, refl, answer-write PError.ok format_ok (Value.list (trim start end l)) p)))

  -- On a valid store, where a key holds a list and both bounds read as numbers, `lrange` answers
  -- the number and the elements of the range between the bounds, negative ones counted from the end
  -- and others cut to the list, and changes no visible value.
  pub lrange-Answers :
      (c key first last : PString) (l : List PString) (start end : ℤ)
      → visible env s key ≡ some (Value.list l)
      → strtol first ≡ some start
      → strtol last ≡ some end
      → let t = drop (lower start (length l)) (take (upper end (length l)) l) in
        Gives env PError.ok
          (pre_format_multi_bulk (length t) ++ format_bulks t)
          (visible env s)
          (lrange env (c ∷ key ∷ first ∷ last ∷ []) s)
  unfolding lrange cast_list has_type
  lrange-Answers c key first last l start end e h k =
      subst₂
        (λ n t.
          Gives env PError.ok (pre_format_multi_bulk n ++ format_bulks t) (visible env s)
            (lrange env (c ∷ key ∷ first ∷ last ∷ []) s))
        (len-range_of start end l) (visit-range_of start end l)
        (get_found
          (Gives env PError.ok
            (pre_format_multi_bulk (range_of start end (length l)).len
              ++ format_bulks (visit (range_of start end (length l)) l))
            (visible env s))
          env key PType.list s _ _ valid (Value.list l) e refl
          (λ s' p. rw (h, k) (_, refl, answer-same PError.ok _ p.ready)))
