-- ===== src/Dump/Kept.antt =====
-- Objects that come back from a dump as they were.
use pika_panlei.Base.{
  ◌<◌, ◌≤◌, ◌≡◌, ◌≢◌, refl, sym, ap, ap₂, ◌∙◌, true, false, Option, none, some, List, [], ◌∷◌, ◌++◌,
  append_assoc, append-nil, map, PString, length, ltb, ◌==◌, ◌||◌, All, str_eq_iff, inl, inr,
  Bool-cases, Option-cases, arith,
}
use pika_panlei.Base.Dict
use pika_panlei.Base.Dict.{Dict, is_some}
use pika_panlei.Base.Members
use pika_panlei.Base.Members.{Members}
use pika_panlei.Common.Number.Print.{print_int}
use pika_panlei.Common.Number.Strtol.{strtol}
use pika_panlei.Common.Number.Decimal.{IsLong, strtol-print_int}
use pika_panlei.Store.{Value}
use pika_panlei.Strings.{create_string, decoded}
use pika_panlei.SortedSet.{SortedSet}
use pika_panlei.Dump.{Codecs}
use pika_panlei.Dump.Input.{Reads}
use pika_panlei.Dump.Save.{save_lzf_string, save_object, type_byte}
use pika_panlei.Dump.Load.{insert_new, load_object}
use pika_panlei.Dump.Packed.{IsLossless}
use pika_panlei.Dump.Texts.{
  saved_text, saved_text-packed, saved_text-plain, canonical-none, create_string-some,
}
use pika_panlei.Dump.Objects.{
  insert_all, insert_fields, saved_value, load_object-save_object, IsBrief, IsWritable,
}

strtol-long : (t : PString) → 20 < length t → strtol t ≡ none
unfolding strtol
strtol-long t h = let e : (length t == 0 || ltb 20 (length t)) ≡ true = ground arith in rw e refl

insert-absent :
    (k : PString) (s : Members) → Members.contains k s ≡ false → Members.insert k s ≡ s ++ k ∷ []
unfolding Members.insert Members.contains
insert-absent k [] h = refl
insert-absent k (x ∷ s) h = ground (arith, insert-absent k s)

insert-new :
    (k v : PString) (h : Dict PString)
    → is_some (Dict.lookup k h) ≡ false
    → Dict.insert k v h ≡ h ++ (k, v) ∷ []
unfolding Dict.insert Dict.lookup
insert-new k v [] e = refl
insert-new k v ((j, w) ∷ h) e = ground (arith, insert-new k v h)

fresh-insert :
    (x : PString) (xs s : Members)
    → Members.contains x xs ≡ false
    → All (λ y. Members.contains y s ≡ false) xs
    → All (λ y. Members.contains y (Members.insert x s) ≡ false) xs
unfolding Members.contains
fresh-insert x [] s h a = tt
fresh-insert x (y ∷ xs) s h (p, a) = (
  ground (arith, Members.contains-insert x y s, str_eq_iff x y, str_eq_iff y x),
  fresh-insert x xs s (ground arith) a,
)

insert_all-fresh :
    (xs s : Members)
    → Members.IsUnique xs
    → All (λ y. Members.contains y s ≡ false) xs
    → insert_all xs s ≡ s ++ xs
unfolding insert_all
insert_all-fresh [] s u a = sym (append-nil s)
insert_all-fresh (x ∷ xs) s (u, us) (p, a) =
    insert_all-fresh xs (Members.insert x s) us (fresh-insert x xs s u a)
    ∙ ap (λ t. t ++ xs) (insert-absent x s p)
    ∙ append_assoc s (x ∷ []) xs

nothing-fresh : (xs : Members) → All (λ y. Members.contains y [] ≡ false) xs
unfolding Members.contains
nothing-fresh [] = tt
nothing-fresh (x ∷ xs) = (refl, nothing-fresh xs)

-- No field of the first is one of the second.
abbrev IsApart : Dict PString → Dict PString → Type 0
IsApart [] acc = Unit
IsApart ((k, v) ∷ h) acc = (is_some (Dict.lookup k acc) ≡ false) × IsApart h acc

nothing-IsApart : (h : Dict PString) → IsApart h []
unfolding Dict.lookup
nothing-IsApart [] = tt
nothing-IsApart ((k, v) ∷ h) = (refl, nothing-IsApart h)

IsApart-insert :
    (k v : PString) (h acc : Dict PString)
    → is_some (Dict.lookup k h) ≡ false
    → IsApart h acc
    → IsApart h (Dict.insert k v acc)
unfolding Dict.lookup
IsApart-insert k v [] acc e a = tt
IsApart-insert k v ((j, w) ∷ h) acc e (p, a) = (
  ground (arith, Dict.lookup-insert k j v acc, str_eq_iff k j, str_eq_iff j k),
  IsApart-insert k v h acc (ground arith) a,
)

insert_new-absent :
    (k v : PString) (acc : Dict PString)
    → is_some (Dict.lookup k acc) ≡ false
    → insert_new k v acc ≡ Dict.insert k v acc
unfolding insert_new
insert_new-absent k v acc e = rw e refl

module _ {S : Type 0} (c : Codecs S) where
  long_packed :
      (t : PString) (w : Option PString)
      → length t ≢ 20
      → save_lzf_string c t ≡ some w
      → 20 < length t
  unfolding save_lzf_string
  long_packed t w n e = elim (Bool-cases (ltb (length t) 20)) [
    | inl l ↦ ground arith
    | inr l ↦ ground arith
  ]

  -- A text of at least ten bytes, but not 20, is kept.
  saved_text-long : (t : PString) → 10 ≤ length t → length t ≢ 20 → saved_text c t ≡ t
  unfolding saved_text
  saved_text-long t h n = elim (Option-cases (save_lzf_string c t)) [
    | inl e ↦ saved_text-plain c t (λ k. absurd (omega (arith, h, k))) e
    | inr (w, e) ↦
        let l : 20 < length t = long_packed t w n e in
        saved_text-packed c t w e ∙ canonical-none c t (strtol-long t l)
  ]

  abbrev AllFields : Dict PString → Type 0
  AllFields [] = Unit
  AllFields ((k, v) ∷ h) = (saved_text c k ≡ k) × (saved_text c v ≡ v) × AllFields h

  -- The texts keep their spelling, and no element, field or member stands twice.
  abbrev pub IsKept : Value (SortedSet S) → Type 0
  IsKept (Value.raw t) = strtol t ≡ none
  IsKept (Value.int z) = IsLong z
  IsKept (Value.list l) = All (λ t. saved_text c t ≡ t) l
  IsKept (Value.set s) = All (λ t. saved_text c t ≡ t) s × Members.IsUnique s
  IsKept (Value.hash h) = AllFields h × Dict.IsUnique h
  IsKept (Value.zset z) = ⊥

  map-kept : (l : List PString) → All (λ t. saved_text c t ≡ t) l → map (saved_text c) l ≡ l
  map-kept [] a = refl
  map-kept (x ∷ l) (e, a) = ap₂ ◌∷◌ e (map-kept l a)

  insert_fields-fresh :
      (h acc : Dict PString)
      → AllFields h
      → Dict.IsUnique h
      → IsApart h acc
      → insert_fields c h acc ≡ acc ++ h
  unfolding insert_fields insert_new
  insert_fields-fresh [] acc f u a = sym (append-nil acc)
  insert_fields-fresh ((k, v) ∷ h) acc (e, e', f) (u, us) (p, a) =
      let n = insert_new-absent k v acc p in
      ap₂ (λ x y. insert_fields c h (insert_new x y acc)) e e'
      ∙ ap (insert_fields c h) n
      ∙ insert_fields-fresh h (Dict.insert k v acc) f us (IsApart-insert k v h acc u a)
      ∙ ap (λ t. t ++ h) (insert-new k v acc p)
      ∙ append_assoc acc ((k, v) ∷ []) h

  create_string-none :
      (t : PString) → strtol t ≡ none → create_string {Z = SortedSet S} t ≡ Value.raw t
  unfolding create_string
  create_string-none t e = rw (e, create_string) refl

  pub saved_value-kept : (v : Value (SortedSet S)) → IsKept v → saved_value c v ≡ some v
  unfolding saved_value decoded
  saved_value-kept (Value.raw t) k = ap some (create_string-none t k)
  saved_value-kept (Value.int z) k =
      ap some (create_string-some c (print_int z) z (strtol-print_int z k))
  saved_value-kept (Value.list l) k = ap (λ x. some (Value.list x)) (map-kept l k)
  saved_value-kept (Value.set s) (k, u) =
      ap (λ x. some (Value.set (insert_all x []))) (map-kept s k)
      ∙ ap (λ x. some (Value.set x)) (insert_all-fresh s [] u (nothing-fresh s))
  saved_value-kept (Value.hash h) (f, u) =
      ap (λ x. some (Value.hash x)) (insert_fields-fresh h [] f u (nothing-IsApart h))
  saved_value-kept (Value.zset z) k = absurd k

  -- Where the compression loses nothing and `%.6g` prints less than 253 bytes, an object that is no
  -- sorted set, with texts and numbers of elements below 2^32, whose texts keep their spelling, whose text is not one that `Strtol` reads, and in
  -- which no element or field stands twice, comes back from `LoadObject` as it was when `SaveObject`
  -- writes it, and the bytes behind it are left.
  pub load_object-kept :
      (v : Value (SortedSet S)) (bs : PString)
      → IsLossless c
      → IsBrief c
      → IsWritable c v
      → IsKept v
      → save_object c v ≡ some bs
      → Reads (load_object c (type_byte v)) bs v
  load_object-kept v bs lossless brief s k e =
      load_object-save_object c v v bs lossless brief s (saved_value-kept v k) e
