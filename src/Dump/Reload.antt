-- ===== src/Dump/Reload.antt =====
-- `Load` of what `Save` wrote.
use pika_panlei.Base.{
  ℕ, zero, suc, ◌+◌, ◌<◌, ◌≤◌, ℤ, pos, negsuc, Option, ◌≡◌, refl, sym, ap, ap₂, ◌∙◌, false, some,
  [], ◌∷◌, ◌++◌, append_assoc, PString, codes, length, All, true, leb, subst, Bool-cases, ◌==◌, ltb,
  if◌then◌else◌, inl, inr, Option-cases, arith,
}
use pika_panlei.Common.Number.Strtol.{
  skip_space, digit_value, strtol, after_sign, number_base, hex_follows, goes_on, strtol_before,
}
use pika_panlei.Store.{Env, Store, db, select_db}
use pika_panlei.SortedSet.{SortedSet}
use pika_panlei.Dump.{Codecs}
use pika_panlei.Dump.Input.{word}
use pika_panlei.Dump.Save.{save_length, ◌then◌}
use pika_panlei.Dump.Packed.{IsLossless, then-eq}
use pika_panlei.Dump.Objects.{IsBrief, IsShort}
use pika_panlei.Dump.File.{
  ended, max_db_num, save_entries, save_db, save_next, save_dbs, save, with_crc, add_crc, load_from,
  load_version, load,
}
use pika_panlei.Dump.Stored.{IsReady}
use pika_panlei.Dump.Whole.{
  at_db, select-at_db, select_out, replay_db, replay_dbs, saved_db, length-replay_db, round_end,
}

-- The bytes begin with a byte that is no digit to any base, if with any.
abbrev pub IsMark : PString → Type 0
IsMark [] = Unit
IsMark (b ∷ bs) = leb 254 b ≡ true

IsMark-append : (xs ys : PString) → IsMark xs → IsMark ys → IsMark (xs ++ ys)
IsMark-append [] ys h k = k
IsMark-append (x ∷ xs) ys h k = h

module _ {S : Type 0} (c : Codecs S) (env : Env (SortedSet S)) where
  save_db-IsMark :
      (n : ℕ) (s : Store (SortedSet S)) (bs : PString) → save_db c env n s ≡ some bs → IsMark bs
  unfolding save_db
  save_db-IsMark n s bs e = elim (Bool-cases (length (db s) == 0)) [
    | inl z ↦ let b₀ : [] ≡ bs = ground (arith, e) in subst IsMark b₀ tt
    | inr z ↦
        let e' : some (254 ∷ []) then save_length n then save_entries c env (db s) s ≡ some bs =
          ground (arith, e) in
        let (x, y, p, q, shape) = then-eq (some (254 ∷ [])) _ bs e' in
        let x' : x ≡ 254 ∷ [] = ground (arith, p) in
        subst IsMark (sym (shape ∙ ap (λ t. t ++ y) x')) refl
  ]

  save_next-IsMark :
      (r : ℤ) (this rest : Option PString) (bs : PString)
      → ((xs : PString) → this ≡ some xs → IsMark xs)
      → ((xs : PString) → rest ≡ some xs → IsMark xs)
      → save_next c env r this rest ≡ some bs
      → IsMark bs
  unfolding save_next
  save_next-IsMark (negsuc n) this rest bs h k e =
      let b₀ : [] ≡ bs = ground (arith, e) in subst IsMark b₀ tt
  save_next-IsMark (pos n) this rest bs h k e =
      let (x, y, p, q, shape) = then-eq this rest bs e in
      subst IsMark (sym shape) (IsMark-append x y (h x p) (k y q))

  save_dbs-IsMark :
      (fuel n : ℕ) (s : Store (SortedSet S)) (bs : PString)
      → save_dbs c env fuel n s ≡ some bs
      → IsMark bs
  unfolding save_dbs
  save_dbs-IsMark zero n s bs e = cc e
  save_dbs-IsMark (suc fuel) n s bs e =
      let (r, s') = select_db (pos n) s in
      save_next-IsMark r (save_db c env n s') (save_dbs c env fuel (suc n) s') bs
        (save_db-IsMark n s') (save_dbs-IsMark fuel (suc n) s') e

module _ {S : Type 0} (c : Codecs S) where
  pub save_dbs-next :
      (env : Env (SortedSet S)) (fuel n : ℕ) (s : Store (SortedSet S))
      → n < length s.dbs
      → save_dbs c env (suc fuel) n s
        ≡ (save_db c env n (at_db n s) then save_dbs c env fuel (suc n) (at_db n s))
  unfolding save_dbs save_next
  save_dbs-next env fuel n s h =
      ap (λ p. save_next c env p.0 (save_db c env n p.1) (save_dbs c env fuel (suc n) p.1))
        (select-at_db n s h)

  pub save_dbs-end :
      (env : Env (SortedSet S)) (fuel n : ℕ) (s : Store (SortedSet S))
      → s.dbno < length s.dbs
      → length s.dbs ≤ n
      → save_dbs c env (suc fuel) n s ≡ some []
  unfolding save_dbs save_next
  save_dbs-end env fuel n s h k =
      ap (λ p. save_next c env p.0 (save_db c env n p.1) (save_dbs c env fuel (suc n) p.1))
        (select_out n s h k)

  module _ (env env' : Env (SortedSet S)) (lossless : IsLossless c) (brief : IsBrief c) where
    saved_dbs :
        (k n : ℕ) (s t t' : Store (SortedSet S)) (bs more : PString)
        → n + k ≡ length s.dbs
        → s.dbno < length s.dbs
        → length s.dbs ≤ length t.dbs
        → length s.dbs ≤ max_db_num
        → ((m : ℕ) → IsReady c env (at_db m s) (db (at_db m s)))
        → ((m : ℕ) → All (IsShort c) (db (at_db m s)))
        → replay_dbs c env' k n s t ≡ some t'
        → save_dbs c env (suc k) n s ≡ some bs
        → load_from c env' 0 t (bs ++ more) ≡ load_from c env' 0 t' more
    unfolding replay_dbs
    saved_dbs zero n s t t' bs more len h l m ready short r e =
        let e' = sym (save_dbs-end env zero n s h (omega (arith, len))) ∙ e in
        let t₀ : t ≡ t' = ground (arith, r) in
        let b₀ : bs ≡ [] = ground (arith, e') in ap₂ (λ x b. load_from c env' 0 x (b ++ more)) t₀ b₀
    saved_dbs (suc k) n s t t' bs more len h l m ready short r e =
        let n_in : n < length s.dbs = omega (arith, len) in
        elim (Option-cases (replay_db c env' n (at_db n s) t)) [
          | inl x ↦ ground (arith, r)
          | inr (t₁, x) ↦
              let r' : replay_dbs c env' k (suc n) (at_db n s) t₁ ≡ some t' = ground (arith, r) in
              let (a, b, p, q, shape) =
                then-eq (save_db c env n (at_db n s)) (save_dbs c env (suc k) (suc n) (at_db n s))
                  bs (sym (save_dbs-next env (suc k) n s n_in) ∙ e) in
              let same = length-replay_db c env' n (at_db n s) t t₁ x in
              ap (load_from c env' 0 t) (ap (λ z. z ++ more) shape ∙ append_assoc a b more)
              ∙ saved_db c env env' n (at_db n s) t t₁ a (b ++ more) lossless brief
                  (omega (arith, n_in, l)) (omega (arith, n_in, m)) (ready n) (short n) x p
              ∙ saved_dbs k (suc n) (at_db n s) t₁ t' b more (omega (arith, len)) n_in
                  (omega (arith, l, same)) m ready short r' q
        ]

    version_six : strtol (codes "0006") ≡ some (pos 6)
    unfolding strtol
    version_six = refl

    -- The version stands in front of a byte that is no digit.
    strtol_before-mark : (bs : PString) → IsMark bs → strtol_before (codes "0006") bs ≡ some (pos 6)
    unfolding strtol_before goes_on hex_follows number_base after_sign skip_space digit_value
    strtol_before-mark [] m = version_six
    strtol_before-mark (b ∷ bs) m = let d : digit_value b ≡ 36 = ground arith in rw d version_six

    load_magic :
        (t : Store (SortedSet S)) (bs : PString)
        → IsMark bs
        → load c env' (some (codes "REDIS0006" ++ bs)) t ≡ load_from c env' 0 t bs
    unfolding load load_version
    load_magic t bs mark =
        let v : strtol_before (codes "0006") bs ≡ some (pos 6) = strtol_before-mark bs mark in
        let l : ltb (length (codes "REDIS0006" ++ bs)) 9 ≡ false = ground arith in rw (l, v) refl

    -- The file without its checksum.
    file_bytes :
        (s : Store (SortedSet S)) (file : PString)
        → save c env s ≡ some file
        → (bs : PString) × (with_crc c env bs ≡ file)
          × (some (codes "REDIS0006")
                then save_dbs c env (suc (length s.dbs)) 0 s
                then some (255 ∷ [])
              ≡ some bs)
    unfolding save add_crc
    file_bytes s file e =
        elim (Option-cases (
          some (codes "REDIS0006")
          then save_dbs c env (suc (length s.dbs)) 0 s
          then some (255 ∷ []))) [
            | inl n ↦ cc (sym (ap (add_crc c env) n) ∙ e)
            | inr (bs, n) ↦ (bs, ground (arith, sym (ap (add_crc c env) n) ∙ e), n)
          ]

    -- Where the compression loses nothing and `%.6g` prints less than 253 bytes, for a store of at
    -- most 65536 databases whose entries are cached, have not expired and have expiry times below
    -- 2^63, and whose texts and numbers of elements are below 2^32, `Load` by a store with as many databases of the file that `Save` writes returns 0, and
    -- leaves the store with the databases' entries stored one after the other.
    pub load-save :
        (s t t' : Store (SortedSet S)) (file : PString)
        → s.dbno < length s.dbs
        → length s.dbs ≤ length t.dbs
        → length s.dbs ≤ max_db_num
        → ((m : ℕ) → IsReady c env (at_db m s) (db (at_db m s)))
        → ((m : ℕ) → All (IsShort c) (db (at_db m s)))
        → replay_dbs c env' (length s.dbs) 0 s t ≡ some t'
        → save c env s ≡ some file
        → load c env' (some file) t ≡ ended (pos 0) t'
    load-save s t t' file h l m ready short r e =
        let (bs, f, q) = file_bytes s file e in
        let (x, y, p, q', shape) = then-eq (some (codes "REDIS0006")) _ bs q in
        let (d, z, p', q'', shape') =
          then-eq (save_dbs c env (suc (length s.dbs)) 0 s) (some (255 ∷ [])) y q' in
        let x' : x ≡ codes "REDIS0006" = ground (arith, p) in
        let z' : z ≡ 255 ∷ [] = ground (arith, q'') in
        let crc = word 8 (c.crc64 bs) in
        ap (λ b. load c env' (some b) t)
          (sym f
            ∙ ap (λ b. b ++ crc) (shape ∙ ap₂ ◌++◌ x' (shape' ∙ ap (◌++◌ d) z'))
            ∙ append_assoc (codes "REDIS0006") (d ++ (255 ∷ [])) crc
            ∙ ap (◌++◌ (codes "REDIS0006")) (append_assoc d (255 ∷ []) crc))
        ∙ load_magic t (d ++ (255 ∷ crc))
            (IsMark-append d (255 ∷ crc) (save_dbs-IsMark c env _ 0 s d p') refl)
        ∙ saved_dbs (length s.dbs) 0 s t t' d (255 ∷ crc) (omega arith) h l m ready short r p'
        ∙ round_end c env' t' crc
