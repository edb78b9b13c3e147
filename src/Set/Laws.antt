-- ===== src/Set/Laws.antt =====
-- The set commands against the view of the database.
use pika_panlei.Base.{
  ℕ, ◌+◌, pos, ◌≡◌, refl, ap, ◌∙◌, ◌&&◌, ◌||◌, not, Option, some, List, [], ◌∷◌, PString, length,
  if◌then◌else◌, arith,
}
use pika_panlei.Base.Members
use pika_panlei.Base.Members.{Members, contains}
use pika_panlei.Common.{PType, PError}
use pika_panlei.Common.Reply.{format_int, format_bulk}
use pika_panlei.Store.{Value, Env, Store, has_type, is_empty}
use pika_panlei.Store.View.{visible, IsValid}
use pika_panlei.Store.Writes.{put, remove}
use pika_panlei.Command.{Response, cast_set, respond}
use pika_panlei.Command.Refines.{View, Present, Answers}
use pika_panlei.Command.Rules.{
  value_or, put-put, put-lookup, remove-put, answer-view, answer-write, answer-delete,
  get_or_set_rule, get_found, written-Ready,
}
use pika_panlei.Set.{sadd, srem, spop, sismember, write_or_delete, add_members, rem_members}
use pika_panlei.Set.Algebra.{
  contains-add_members, count-add_members, contains-rem_members, count-rem_members,
}

module _ {Z : Type 0} (env : Env Z) (s : Store Z) (valid : IsValid env s) where
  -- The set under a key, a fresh one if there is none.
  abbrev pub SetAt : PString → Members → Type 0
  SetAt key m = value_or (Value.set []) PType.set (visible env s key) ≡ some (Value.set m)

  -- On a valid store, where a key holds a set or nothing, `sadd` answers how many members were new,
  -- the size grows by that number, and the members are the old ones and the named ones.
  pub sadd-Answers :
      (c key : PString) (ms : List PString) (m : Members)
      → SetAt key m
      → (n : ℕ) × (m' : Members) × Answers env PError.ok
          (format_int (pos n))
          (put key (Value.set m') (visible env s))
          (sadd env (c ∷ key ∷ ms) s)
        × (length m' ≡ n + length m)
        × ((j : PString) → contains j m' ≡ (contains j m || contains j ms))
  unfolding sadd cast_set
  sadd-Answers c key ms m e =
      let r = add_members ms 0 m in
      (
        r.0,
        r.1,
        get_or_set_rule
            (Answers env PError.ok (format_int (pos r.0)) (put key (Value.set r.1) (visible env s)))
            env key PType.set s (Value.set []) _ valid (Value.set m) e
            (λ s' p.
              answer-view (put-put key (Value.set r.1) (Value.set m) (visible env s))
                (answer-write PError.ok (format_int (pos r.0)) (Value.set r.1) p)),
        omega (arith, count-add_members ms 0 m),
        λ j. contains-add_members j ms 0 m,
      )

  -- The view after a set was written back, or its key deleted.
  abbrev pub shrunk : PString → Members → View Z
  shrunk key m =
      if is_empty m then remove key (visible env s) else put key (Value.set m) (visible env s)

  answer-write_or_delete :
      (key t : PString) (m : Members) (s' : Store Z)
      → Present env key (visible env s) s'
      → Answers env PError.ok t (shrunk key m) (respond PError.ok t (write_or_delete key m s'))
  unfolding write_or_delete
  answer-write_or_delete key t [] s' p =
      answer-view (remove-put key (Value.set []) (visible env s))
        (answer-delete PError.ok t (written-Ready (Value.set []) p))
  answer-write_or_delete key t (x ∷ m) s' p = answer-write PError.ok t (Value.set (x ∷ m)) p

  -- On a valid store, where a key holds a set without repetition, `srem` answers how many members
  -- it removed, the set keeps exactly the members that were not named, and the key of a set that
  -- gets empty is deleted.
  pub srem-Answers :
      (c key : PString) (ms : List PString) (m : Members)
      → visible env s key ≡ some (Value.set m)
      → Members.IsUnique m
      → (n : ℕ) × (m' : Members) × Answers env PError.ok
          (format_int (pos n))
          (shrunk key m')
          (srem env (c ∷ key ∷ ms) s)
        × (length m' + n ≡ length m)
        × ((j : PString) → contains j m' ≡ (contains j m && not (contains j ms)))
  unfolding srem cast_set has_type
  srem-Answers c key ms m e u =
      let r = rem_members ms 0 m in
      (
        r.0,
        r.1,
        get_found (Answers env PError.ok (format_int (pos r.0)) (shrunk key r.1)) env key PType.set
            s _ _ valid (Value.set m) e refl
            (λ s' p. answer-write_or_delete key (format_int (pos r.0)) r.1 s' p),
        omega (arith, count-rem_members ms 0 m u),
        λ j. contains-rem_members j ms 0 m,
      )

  -- On a valid store, where a key holds a set from which a member was picked, `spop` answers that
  -- member, removes it, and deletes the key of a set that gets empty.
  pub spop-Answers :
      (pick : Members → Option PString) (c key x : PString) (m : Members)
      → visible env s key ≡ some (Value.set m)
      → pick m ≡ some x
      → Answers env PError.ok
          (format_bulk x)
          (shrunk key (Members.erase x m))
          (spop env pick (c ∷ key ∷ []) s)
  unfolding spop cast_set has_type
  spop-Answers pick c key x m e q =
      get_found (Answers env PError.ok (format_bulk x) (shrunk key (Members.erase x m))) env key
        PType.set s _ _ valid (Value.set m) e refl
        (λ s' p. rw q (answer-write_or_delete key (format_bulk x) (Members.erase x m) s' p))

  -- On a valid store, where a key holds a set or nothing, `sismember` after `sadd` answers 1 for
  -- the old and the added members and 0 for any other.
  pub sismember-sadd :
      (c c' key j : PString) (ms : List PString) (m : Members)
      → SetAt key m
      → (sismember env (c' ∷ key ∷ j ∷ []) (sadd env (c ∷ key ∷ ms) s).store).reply
        ≡ (if contains j m || contains j ms then format_int (pos 1) else format_int (pos 0))
  unfolding sismember cast_set has_type
  sismember-sadd c c' key j ms m e =
      let (n, m', a, size, at) = sadd-Answers c key ms m e in
      let t = (sadd env (c ∷ key ∷ ms) s).store in
      get_found
        (λ (r : Response Z).
          r.reply
          ≡ (if contains j m || contains j ms then format_int (pos 1) else format_int (pos 0)))
        env key PType.set t _ _ a.valid (Value.set m')
        (a.view key ∙ put-lookup key (Value.set m') (visible env s)) refl
        (λ s' p. ap (λ b. if b then format_int (pos 1) else format_int (pos 0)) (at j))
