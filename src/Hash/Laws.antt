-- ===== src/Hash/Laws.antt =====
-- The hash commands against the view of the database.
use pika_panlei.Base.{
  ℕ, ◌+◌, ℤ, pos, ◌≡◌, refl, ap, ◌∙◌, false, none, some, List, [], ◌∷◌, PString, length,
  if◌then◌else◌, arith, str_eq,
}
use pika_panlei.Base.Dict
use pika_panlei.Base.Dict.{Dict, is_some}
use pika_panlei.Base.Members.{contains}
use pika_panlei.Hash.Fields.{lookup-del_fields, count-del_fields}
use pika_panlei.Common.{PType, PError}
use pika_panlei.Common.Number.Print.{print_int}
use pika_panlei.Common.Reply.{format_int, format_bulk, reply_error}
use pika_panlei.Store.{Value, Env, Store, has_type, write_value}
use pika_panlei.Store.View.{visible, IsValid}
use pika_panlei.Store.Writes.{put}
use pika_panlei.Command.{Response, cast_hash, respond}
use pika_panlei.Command.Refines.{Present, Answers}
use pika_panlei.Command.Rules.{
  value_or, put-put, put-lookup, answer-view, answer-write, answer-same, answer-refuse,
  get_or_set_rule, get_or_set_wrong, get_found, get_wrong,
}
use pika_panlei.Hash.{
  hset, hget, hdel, hincrby, hsetnx, format_found, set_hash_force, del_fields, incremented,
}

module _ {Z : Type 0} (env : Env Z) (s : Store Z) (valid : IsValid env s) where
  -- The hash under a key, a fresh one if there is none.
  abbrev pub HashAt : PString → Dict PString → Type 0
  HashAt key h = value_or (Value.hash []) PType.hash (visible env s key) ≡ some (Value.hash h)

  write_hash :
      (key t : PString) (h h' : Dict PString) (s' : Store Z)
      → Present env key (put key (Value.hash h) (visible env s)) s'
      → Answers env PError.ok t
          (put key (Value.hash h') (visible env s))
          (respond PError.ok t (write_value key (Value.hash h') s'))
  write_hash key t h h' s' p =
      answer-view (put-put key (Value.hash h') (Value.hash h) (visible env s))
        (answer-write PError.ok t (Value.hash h') p)

  -- `hset` writes one field of the hash.
  pub hset-Answers :
      (c key field val : PString) (h : Dict PString)
      → HashAt key h
      → Answers env PError.ok
          (format_int (pos 1))
          (put key (Value.hash (Dict.insert field val h)) (visible env s))
          (hset env (c ∷ key ∷ field ∷ val ∷ []) s)
  unfolding hset set_hash_force cast_hash
  hset-Answers c key field val h e =
      get_or_set_rule
        (Answers env PError.ok (format_int (pos 1))
          (put key (Value.hash (Dict.insert field val h)) (visible env s)))
        env key PType.hash s (Value.hash []) _ valid (Value.hash h) e
        (λ s' p. write_hash key _ h (Dict.insert field val h) s' p)

  -- On a valid store, where a key holds a hash or nothing, `hget` after `hset` answers the new
  -- value for the field that was written and the old value or null for any other field, and no
  -- other key of the database changes.
  pub hget-hset :
      (c c' key field val g : PString) (h : Dict PString)
      → HashAt key h
      → Answers env PError.ok
          (if str_eq field g then format_bulk val else format_found (Dict.lookup g h))
          (put key (Value.hash (Dict.insert field val h)) (visible env s))
          (hget env (c' ∷ key ∷ g ∷ []) (hset env (c ∷ key ∷ field ∷ val ∷ []) s).store)
  unfolding hget cast_hash format_found has_type
  hget-hset c c' key field val g h e =
      let h' = Dict.insert field val h in
      let f = put key (Value.hash h') (visible env s) in
      let a = hset-Answers c key field val h e in
      let t = (hset env (c ∷ key ∷ field ∷ val ∷ []) s).store in
      get_found
        (Answers env PError.ok
          (if str_eq field g then format_bulk val else format_found (Dict.lookup g h)) f)
        env key PType.hash t _ _ a.valid (Value.hash h')
        (a.view key ∙ put-lookup key (Value.hash h') (visible env s)) refl
        (λ s' p.
          let b = answer-same PError.ok (format_found (Dict.lookup g h')) p.ready in
          record {
            code = refl;
            reply = ap format_found (Dict.lookup-insert field g val h) ∙ ground arith;
            view = λ j. b.view j ∙ a.view j;
            valid = b.valid;
          })

  -- On a valid store, where a key holds a hash without repeated fields, `hdel` answers how many
  -- fields it removed, and exactly the named fields are gone.
  pub hdel-Answers :
      (c key : PString) (fields : List PString) (h : Dict PString)
      → visible env s key ≡ some (Value.hash h)
      → Dict.IsUnique h
      → (n : ℕ) × (h' : Dict PString) × Answers env PError.ok
          (format_int (pos n))
          (put key (Value.hash h') (visible env s))
          (hdel env (c ∷ key ∷ fields) s)
        × (n + length h' ≡ length h)
        × ((k : PString) → Dict.lookup k h' ≡ (if contains k fields then none else Dict.lookup k h))
  unfolding hdel cast_hash has_type
  hdel-Answers c key fields h e u =
      let r = del_fields fields 0 h in
      (
        r.0,
        r.1,
        get_found
            (Answers env PError.ok (format_int (pos r.0))
              (put key (Value.hash r.1) (visible env s)))
            env key PType.hash s _ _ valid (Value.hash h) e refl
            (λ s' p. answer-write PError.ok (format_int (pos r.0)) (Value.hash r.1) p),
        count-del_fields fields 0 h u ∙ omega arith,
        λ k. lookup-del_fields k fields 0 h,
      )

  -- On a valid store, where a key holds a hash or nothing and the field is missing or holds a
  -- number, `hincrby` stores the sum as decimal text and answers it.
  pub hincrby-Answers :
      (c key field delta : PString) (h : Dict PString) (z : ℤ)
      → HashAt key h
      → incremented (Dict.lookup field h) delta ≡ some z
      → Answers env PError.ok
          (format_int z)
          (put key (Value.hash (Dict.insert field (print_int z) h)) (visible env s))
          (hincrby env (c ∷ key ∷ field ∷ delta ∷ []) s)
  unfolding hincrby set_hash_force cast_hash
  hincrby-Answers c key field delta h z e q =
      get_or_set_rule
        (Answers env PError.ok (format_int z)
          (put key (Value.hash (Dict.insert field (print_int z) h)) (visible env s)))
        env key PType.hash s (Value.hash []) _ valid (Value.hash h) e
        (λ s' p. rw q (write_hash key _ h (Dict.insert field (print_int z) h) s' p))

  -- A field that holds no number is left as it is.
  pub hincrby-nan :
      (c key field delta : PString) (h : Dict PString)
      → HashAt key h
      → incremented (Dict.lookup field h) delta ≡ none
      → Answers env PError.nan
          (reply_error PError.nan)
          (put key (Value.hash h) (visible env s))
          (hincrby env (c ∷ key ∷ field ∷ delta ∷ []) s)
  unfolding hincrby cast_hash
  hincrby-nan c key field delta h e q =
      get_or_set_rule
        (Answers env PError.nan (reply_error PError.nan) (put key (Value.hash h) (visible env s)))
        env key PType.hash s (Value.hash []) _ valid (Value.hash h) e
        (λ s' p. rw q (answer-refuse PError.nan p.ready))

  abbrev pub Refused : Response Z → Type 0
  Refused = Answers env PError.type (reply_error PError.type) (visible env s)

  -- On a valid store, where a key holds a value of another type, `hset`, `hsetnx`, `hincrby`,
  -- `hget` and `hdel` return and answer the type error and change no visible value.
  pub hash_wrong_type :
      (c key a b : PString) (fields : List PString) (v : Value Z)
      → visible env s key ≡ some v
      → has_type PType.hash v ≡ false
      → Refused (hset env (c ∷ key ∷ a ∷ b ∷ []) s)
        × Refused (hsetnx env (c ∷ key ∷ a ∷ b ∷ []) s)
        × Refused (hincrby env (c ∷ key ∷ a ∷ b ∷ []) s)
        × Refused (hget env (c ∷ key ∷ a ∷ []) s)
        × Refused (hdel env (c ∷ key ∷ fields) s)
  unfolding hset hsetnx hincrby hget hdel value_or
  hash_wrong_type c key a b fields v q t =
      let other : value_or (Value.hash []) PType.hash (visible env s key) ≡ none =
        ap (value_or (Value.hash []) PType.hash) q ∙ rw t in
      (
        get_or_set_wrong Refused env key PType.hash s (Value.hash []) _ valid other
            (λ s' r. answer-refuse PError.type r),
        get_or_set_wrong Refused env key PType.hash s (Value.hash []) _ valid other
            (λ s' r. answer-refuse PError.type r),
        get_or_set_wrong Refused env key PType.hash s (Value.hash []) _ valid other
            (λ s' r. answer-refuse PError.type r),
        get_wrong Refused env key PType.hash s _ _ valid v q t
            (λ s' r. answer-refuse PError.type r),
        get_wrong Refused env key PType.hash s _ _ valid v q t
            (λ s' r. answer-refuse PError.type r),
      )
