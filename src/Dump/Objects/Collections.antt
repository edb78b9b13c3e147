-- ===== src/Dump/Objects/Collections.antt =====
-- Lists, sets and hashes are read as they were written, up to the spelling of the texts.
use pika_panlei.Base.{
  All, ◌^◌, ◌<◌, ◌≡◌, refl, sym, subst, Option, some, List, [], ◌∷◌, ◌++◌, append_assoc, append-nil,
  map, PString, length, if◌then◌else◌,
}
use pika_panlei.Base.Dict.{Dict}
use pika_panlei.Base.Members
use pika_panlei.Base.Members.{Members}
use pika_panlei.Dump.{Codecs}
use pika_panlei.Dump.Input.{Reader, Reads, Reads-bind, pure, ◌>>=◌}
use pika_panlei.Dump.Save.{save_string, save_strings, save_fields, ◌then◌}
use pika_panlei.Dump.Load.{load_generic_string, insert_new, load_list, load_set, load_hash}
use pika_panlei.Dump.Packed.{IsLossless, then-eq}
use pika_panlei.Dump.Texts.{saved_text, load_generic_string-save_string}

unfoldable pub insert_all : List PString → Members → Members
insert_all [] s = s
insert_all (x ∷ xs) s = insert_all xs (Members.insert x s)

pub nothing-Reads : {A : Type 0} (a : A) (bs : PString) → some [] ≡ some bs → Reads (pure a) bs a
nothing-Reads a [] e rest = refl
nothing-Reads a (b ∷ bs) e rest = cc e

module _ {S : Type 0} (c : Codecs S) where
  unfoldable pub insert_fields : Dict PString → Dict PString → Dict PString
  unfolding saved_text insert_new
  insert_fields [] h = h
  insert_fields ((k, v) ∷ rest) h =
      insert_fields rest (insert_new (saved_text c k) (saved_text c v) h)

  module _ (lossless : IsLossless c) where
    -- One string and what follows it.
    pub string-next :
        {B : Type 0} (f : PString → Reader B) (str bs : PString) (y : Option PString) (b : B)
        → length str < 2 ^ 32
        → save_string c str then y ≡ some bs
        → ((cs : PString) → y ≡ some cs → Reads (f (saved_text c str)) cs b)
        → Reads (load_generic_string c >>= f) bs b
    string-next f str bs y b s e k =
        let (a, cs, p, q, r) = then-eq (save_string c str) y bs e in
        subst (λ t. Reads (load_generic_string c >>= f) t b) (sym r)
          (Reads-bind (load_generic_string c) f a cs (saved_text c str) b
            (load_generic_string-save_string c str a lossless s p) (k cs q))

    pub load_list-save_strings :
        (xs l : List PString) (bs : PString)
        → All (λ x. length x < 2 ^ 32) xs
        → save_strings c xs ≡ some bs
        → Reads (load_list c (length xs) l) bs (l ++ map (saved_text c) xs)
    unfolding save_strings load_list
    load_list-save_strings [] l bs a e =
        subst (Reads (pure l) bs) (sym (append-nil l)) (nothing-Reads l bs e)
    load_list-save_strings (x ∷ xs) l bs a e =
        string-next (λ elem. load_list c (length xs) (l ++ elem ∷ [])) x bs (save_strings c xs) _
          a.0 e
          (λ cs q.
            subst (Reads (load_list c (length xs) (l ++ saved_text c x ∷ [])) cs)
              (append_assoc l (saved_text c x ∷ []) (map (saved_text c) xs))
              (load_list-save_strings xs (l ++ saved_text c x ∷ []) cs a.1 q))

    pub load_set-save_strings :
        (xs : List PString) (s : Members) (bs : PString)
        → All (λ x. length x < 2 ^ 32) xs
        → save_strings c xs ≡ some bs
        → Reads (load_set c (length xs) s) bs (insert_all (map (saved_text c) xs) s)
    unfolding save_strings load_set insert_all
    load_set-save_strings [] s bs a e = nothing-Reads s bs e
    load_set-save_strings (x ∷ xs) s bs a e =
        string-next (λ elem. load_set c (length xs) (Members.insert elem s)) x bs
          (save_strings c xs) _ a.0 e
          (λ cs q. load_set-save_strings xs (Members.insert (saved_text c x) s) cs a.1 q)

    pub load_hash-save_fields :
        (h acc : Dict PString) (bs : PString)
        → All (λ p. (length p.0 < 2 ^ 32) × (length p.1 < 2 ^ 32)) h
        → save_fields c h ≡ some bs
        → Reads (load_hash c (length h) acc) bs (insert_fields h acc)
    unfolding save_fields load_hash insert_fields
    load_hash-save_fields [] acc bs a e = nothing-Reads acc bs e
    load_hash-save_fields ((k, v) ∷ h) acc bs ((l, m), a) e =
        string-next _ k bs (save_string c v then save_fields c h) _ l e (λ cs q.
          string-next _ v cs (save_fields c h) _ m q (λ ds r.
            load_hash-save_fields h (insert_new (saved_text c k) (saved_text c v) acc) ds a r))
