-- ===== src/Lists/Elements.antt =====
-- `lset` and `lindex` against the view of the database.
use pika_panlei.Base.{
  ℕ, zero, suc, ◌<◌, ℤ, pos, negsuc, ◌+ℤ◌, ◌≡◌, refl, ap, ◌∙◌, some, List, [], ◌∷◌, PString, length,
  length-set, get_elem?, set, ◌==◌, if◌then◌else◌, arith,
}
use pika_panlei.Common.{PType, PError}
use pika_panlei.Common.Number.{LongScan, try_str2long}
use pika_panlei.Common.Reply.{format_bulk, format_ok}
use pika_panlei.Store.{Value, Env, Store, has_type}
use pika_panlei.Store.View.{visible, IsValid}
use pika_panlei.Store.Writes.{put}
use pika_panlei.Command.{Response, cast_list}
use pika_panlei.Command.Rules.{put-lookup, answer-write, answer-same, answer-view, get_found}
use pika_panlei.Lists.{normal_index, at_index, set_index}
use pika_panlei.Lists.Commands.{lindex, lset}
use pika_panlei.Lists.Position.{at_index_lem, set_index_lem}
use pika_panlei.Lists.Laws.{Gives}

normal_index_lt : (idx : ℤ) (n i : ℕ) → normal_index idx n ≡ some i → i < n
unfolding normal_index ◌+ℤ◌
normal_index_lt (pos k) n i h = ground arith
normal_index_lt (negsuc k) n i h = ground arith

get_elem?-set :
    (l : List PString) (i j : ℕ) (v : PString)
    → i < length l
    → get_elem? (set l i v) j ≡ (if i == j then some v else get_elem? l j)
get_elem?-set [] i j v h = absurd (omega arith)
get_elem?-set (x ∷ l) zero zero v h = refl
get_elem?-set (x ∷ l) zero (suc j) v h = ground arith
get_elem?-set (x ∷ l) (suc i) zero v h = ground arith
get_elem?-set (x ∷ l) (suc i) (suc j) v h = ground (arith, get_elem?-set l i j v)

module _ {Z : Type 0} (env : Env Z) (s : Store Z) (valid : IsValid env s) where
  -- `LINDEX` answers the element of the index, which counts from the end if it is negative.
  pub lindex-Answers :
      (c key index x : PString) (l : List PString) (idx : ℤ) (i : ℕ)
      → visible env s key ≡ some (Value.list l)
      → try_str2long index ≡ LongScan.ok idx
      → normal_index idx (length l) ≡ some i
      → get_elem? l i ≡ some x
      → Gives env PError.ok (format_bulk x) (visible env s) (lindex env (c ∷ key ∷ index ∷ []) s)
  unfolding lindex cast_list has_type
  lindex-Answers c key index x l idx i e h n g =
      let at : at_index i l ≡ some x = at_index_lem i l (normal_index_lt idx (length l) i n) ∙ g in
      get_found (Gives env PError.ok (format_bulk x) (visible env s)) env key PType.list s _ _ valid
        (Value.list l) e refl
        (λ s' p. rw (h, n, at) (_, refl, answer-same PError.ok (format_bulk x) p.ready))

  -- `LSET` replaces the element of the index.
  pub lset-Answers :
      (c key index text : PString) (l : List PString) (idx : ℤ) (i : ℕ)
      → visible env s key ≡ some (Value.list l)
      → try_str2long index ≡ LongScan.ok idx
      → normal_index idx (length l) ≡ some i
      → Gives env PError.ok format_ok
          (put key (Value.list (set l i text)) (visible env s))
          (lset env (c ∷ key ∷ index ∷ text ∷ []) s)
  unfolding lset cast_list has_type
  lset-Answers c key index text l idx i e h n =
      let at : set_index i text l ≡ set l i text =
        set_index_lem i text l (normal_index_lt idx (length l) i n) in
      get_found
        (Gives env PError.ok format_ok (put key (Value.list (set l i text)) (visible env s))) env
        key PType.list s _ _ valid (Value.list l) e refl
        (λ s' p.
          rw (h, n, at) (_, refl, answer-write PError.ok format_ok (Value.list (set l i text)) p))

module _ {Z : Type 0} (env : Env Z) (s : Store Z) (valid : IsValid env s) where
  -- On a valid store, where a key holds a list and both indices read as numbers and are in it,
  -- `lindex` after `lset` answers the new text for the same element and the old one for any other,
  -- and no other key changes.
  pub lindex-lset :
      (c c' key index index' text y : PString) (l : List PString) (idx idx' : ℤ) (i j : ℕ)
      → visible env s key ≡ some (Value.list l)
      → try_str2long index ≡ LongScan.ok idx
      → normal_index idx (length l) ≡ some i
      → try_str2long index' ≡ LongScan.ok idx'
      → normal_index idx' (length l) ≡ some j
      → get_elem? l j ≡ some y
      → (r : Response Z) × (lset env (c ∷ key ∷ index ∷ text ∷ []) s ≡ some r)
        × (r.reply ≡ format_ok)
        × Gives env PError.ok
            (format_bulk (if i == j then text else y))
            (put key (Value.list (set l i text)) (visible env s))
            (lindex env (c' ∷ key ∷ index' ∷ []) r.store)
  lindex-lset c c' key index index' text y l idx idx' i j e h n h' n' g =
      let (r, d, a) = lset-Answers env s valid c key index text l idx i e h n in
      let (r', d', a') =
        lindex-Answers env r.store a.valid c' key index' (if i == j then text else y) (set l i text)
          idx' j (a.view key ∙ put-lookup key (Value.list (set l i text)) (visible env s)) h'
          (ap (normal_index idx') (length-set l i text) ∙ n')
          (get_elem?-set l i j text (normal_index_lt idx (length l) i n) ∙ ground (arith, g)) in
      (r, d, a.reply, (r', d', answer-view a.view a'))
