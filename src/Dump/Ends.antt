-- ===== src/Dump/Ends.antt =====
-- `Load` ends: each round of its loop takes a byte, and no read puts bytes back.
use pika_panlei.Base.{
  ℕ, zero, suc, ◌^◌, ◌<◌, ◌≤◌, ℤ, pos, negsuc, ◌≡◌, ◌≢◌, refl, Bool, true, false, Option, none,
  some, [], ◌∷◌, PString, length, take, drop, ltb, ltb_ℤ, leb, ◌==◌, if◌then◌else◌, inl, inr,
  Option-cases, arith,
}
use pika_panlei.Common.Number.Strtol.{strtol_before}
use pika_panlei.Store.{Env, Store, select_db}
use pika_panlei.SortedSet.{SortedSet}
use pika_panlei.Dump.{Codecs}
use pika_panlei.Dump.Input.{Reader, Shrinks, Shrinks-bind, read_word}
use pika_panlei.Dump.Load.{load_size, load_generic_string, load_object}
use pika_panlei.Dump.Shrinks.{
  pure-Shrinks, read_word-Shrinks, load_size-Shrinks, load_generic_string-Shrinks,
  load_object-Shrinks,
}
use pika_panlei.Dump.File.{
  Loaded, unfinished, Round, wrong, finish, again, load_aux, load_resize_db, load_entry, is_type,
  after, selected, select_loaded, load_round, continue, max_db_num, load_loop, load_version, load,
}

module _ {S : Type 0} (c : Codecs S) (env : Env (SortedSet S)) where
  load_aux-Shrinks : Shrinks (load_aux c env)
  unfolding load_aux
  load_aux-Shrinks = Shrinks-bind (load_generic_string c) _ (load_generic_string-Shrinks c) (λ k.
      Shrinks-bind (load_generic_string c) _ (load_generic_string-Shrinks c) (λ v. pure-Shrinks tt))

  load_resize_db-Shrinks : Shrinks (load_resize_db c env)
  unfolding load_resize_db
  load_resize_db-Shrinks =
      Shrinks-bind load_size _ load_size-Shrinks
        (λ d. Shrinks-bind load_size _ load_size-Shrinks (λ e. pure-Shrinks tt))

  load_entry-Shrinks : (type : ℕ) → Shrinks (load_entry c env type)
  unfolding load_entry
  load_entry-Shrinks type =
      Shrinks-bind (load_generic_string c) _ (load_generic_string-Shrinks c) (λ k.
        Shrinks-bind (load_object c type) _ (load_object-Shrinks c type) (λ v. pure-Shrinks (k, v)))

  -- A round that goes on leaves no more bytes.
  IsFalling : PString → Round (SortedSet S) → Type 0
  IsFalling bs wrong = Unit
  IsFalling bs (finish code s) = Unit
  IsFalling bs (again time s rest) = length rest ≤ length bs

  after-IsFalling :
      {A : Type 0} (m : Reader A) (k : A → PString → Round (SortedSet S)) (bs : PString)
      → Shrinks m
      → ((a : A) (rest : PString) → length rest ≤ length bs → IsFalling bs (k a rest))
      → IsFalling bs (after c env (m bs) k)
  unfolding IsFalling
  after-IsFalling m k bs h f = elim (Option-cases (m bs)) [
    | inl e ↦ rw e tt
    | inr ((a, rest), e) ↦ rw e (f a rest (h bs a rest e))
  ]

  if-IsFalling :
      (b : Bool) (x y : Round (SortedSet S)) (bs : PString)
      → IsFalling bs x
      → IsFalling bs y
      → IsFalling bs (if b then x else y)
  if-IsFalling true x y bs h k = h
  if-IsFalling false x y bs h k = k

  selected-IsFalling :
      (time : ℕ) (r : ℤ) (s s' : Store (SortedSet S)) (bs rest : PString)
      → length rest ≤ length bs
      → IsFalling bs (selected c env r time s s' rest)
  unfolding IsFalling selected
  selected-IsFalling time (pos n) s s' bs rest h = h
  selected-IsFalling time (negsuc n) s s' bs rest h = tt

  select_loaded-IsFalling :
      (time dbno : ℕ) (s : Store (SortedSet S)) (bs rest : PString)
      → length rest ≤ length bs
      → IsFalling bs (select_loaded c env time dbno s rest)
  unfolding IsFalling select_loaded
  select_loaded-IsFalling time dbno s bs rest h =
      if-IsFalling (ltb max_db_num dbno) _ _ bs tt
        (selected-IsFalling time (select_db (pos dbno) s).0 s (select_db (pos dbno) s).1 bs rest h)

  load_round-IsFalling :
      (indicator time : ℕ) (s : Store (SortedSet S)) (bs : PString)
      → IsFalling bs (load_round c env indicator time s bs)
  unfolding IsFalling load_round
  load_round-IsFalling i time s bs = if-IsFalling (i == 255) _ _ bs tt (
      if-IsFalling (i == 250) _ _ bs
        (after-IsFalling (load_aux c env) _ bs load_aux-Shrinks (λ u rest h. h))
        (if-IsFalling (i == 251) _ _ bs
          (after-IsFalling (load_resize_db c env) _ bs load_resize_db-Shrinks (λ u rest h. h))
          (if-IsFalling (i == 254) _ _ bs
            (after-IsFalling load_size _ bs load_size-Shrinks
              (λ dbno rest h. select_loaded-IsFalling time dbno s bs rest h))
            (if-IsFalling (i == 252) _ _ bs
              (after-IsFalling (read_word 8) _ bs (read_word-Shrinks 8) (λ t rest h. h))
              (if-IsFalling (i == 253) _ _ bs
                (after-IsFalling (read_word 8) _ bs (read_word-Shrinks 8) (λ t rest h. h))
                (if-IsFalling (is_type c env i) _ _ bs
                  (after-IsFalling (load_entry c env i) _ bs (load_entry-Shrinks i)
                    (λ e rest h. if-IsFalling (leb (2 ^ 63) time) _ _ bs tt h))
                  tt))))))

  continue-same :
      (p q : ℕ → Store (SortedSet S) → PString → Loaded (SortedSet S)) (r : Round (SortedSet S))
      (bs : PString)
      → IsFalling bs r
      → ((t : ℕ) (s : Store (SortedSet S)) (rest : PString)
          → length rest ≤ length bs
          → p t s rest ≡ q t s rest)
      → continue c env p r ≡ continue c env q r
  unfolding continue IsFalling
  continue-same p q wrong bs h k = refl
  continue-same p q (finish code s) bs h k = refl
  continue-same p q (again t s rest) bs h k = k t s rest h

  continue-ends :
      (p : ℕ → Store (SortedSet S) → PString → Loaded (SortedSet S)) (r : Round (SortedSet S))
      (bs : PString)
      → IsFalling bs r
      → ((t : ℕ) (s : Store (SortedSet S)) (rest : PString)
          → length rest ≤ length bs
          → p t s rest ≢ unfinished)
      → continue c env p r ≢ unfinished
  unfolding continue IsFalling
  continue-ends p wrong bs h k = λ e. cc e
  continue-ends p (finish code s) bs h k = λ e. cc e
  continue-ends p (again t s rest) bs h k = k t s rest h

  -- More fuel than bytes makes no difference.
  pub load_loop_enough :
      (f g time : ℕ) (s : Store (SortedSet S)) (bs : PString)
      → length bs < f
      → length bs < g
      → load_loop c env f time s bs ≡ load_loop c env g time s bs
  unfolding load_loop
  load_loop_enough zero g time s bs h k = absurd (omega arith)
  load_loop_enough (suc f) zero time s bs h k = absurd (omega arith)
  load_loop_enough (suc f) (suc g) time s [] h k = refl
  load_loop_enough (suc f) (suc g) time s (b ∷ bs) h k =
      continue-same (load_loop c env f) (load_loop c env g) (load_round c env b time s bs) bs
        (load_round-IsFalling b time s bs)
        (λ t s' rest l. load_loop_enough f g t s' rest (omega (arith, h, l)) (omega (arith, k, l)))

  -- With more fuel than bytes the loop ends.
  load_loop_ends :
      (f time : ℕ) (s : Store (SortedSet S)) (bs : PString)
      → length bs < f
      → load_loop c env f time s bs ≢ unfinished
  unfolding load_loop
  load_loop_ends zero time s bs h = absurd (omega arith)
  load_loop_ends (suc f) time s [] h = λ e. cc e
  load_loop_ends (suc f) time s (b ∷ bs) h =
      continue-ends (load_loop c env f) (load_round c env b time s bs) bs
        (load_round-IsFalling b time s bs)
        (λ t s' rest l. load_loop_ends f t s' rest (omega (arith, h, l)))

  if-ends :
      (b : Bool) (x y : Loaded (SortedSet S))
      → x ≢ unfinished
      → y ≢ unfinished
      → (if b then x else y) ≢ unfinished
  if-ends true x y h k = h
  if-ends false x y h k = k

  load_version-ends :
      (version : Option ℤ) (s : Store (SortedSet S)) (bs : PString)
      → load_version c env version s bs ≢ unfinished
  unfolding load_version
  load_version-ends none s bs = λ e. cc e
  load_version-ends (some version) s bs =
      if-ends (ltb_ℤ version (pos 6)) _ _ (λ e. cc e)
        (load_loop_ends (suc (length bs)) 0 s bs (omega arith))

  -- Whatever stands in the file, `Load` ends: it returns a number, or it stops at an assertion or
  -- behind the end of the file. A fuel of one more than the bytes is enough for its loop.
  pub load-ends : (file : Option PString) (s : Store (SortedSet S)) → load c env file s ≢ unfinished
  unfolding load
  load-ends none s = λ e. cc e
  load-ends (some []) s = λ e. cc e
  load-ends (some (b ∷ bs)) s =
      if-ends (ltb (length (b ∷ bs)) 9) _ _ (λ e. cc e)
        (load_version-ends (strtol_before (take 4 (drop 5 (b ∷ bs))) (drop 9 (b ∷ bs))) s
          (drop 9 (b ∷ bs)))
