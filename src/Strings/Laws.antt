-- ===== src/Strings/Laws.antt =====
-- The string commands against the view of the database.
use pika_panlei.Base.{ℤ, pos, ◌+ℤ◌, ◌≡◌, refl, ap, ◌∙◌, true, none, some, [], ◌∷◌, PString, arith}
use pika_panlei.Common.{PType, PError}
use pika_panlei.Common.Number.Print.{print_int}
use pika_panlei.Common.Number.Strtol.{strtol, wrap_long}
use pika_panlei.Common.Reply.{format_int, format_bulk, format_ok}
use pika_panlei.Store.{Value, Env, Store, has_type, clear_expire}
use pika_panlei.Store.View.{visible, IsValid}
use pika_panlei.Store.Writes.{put, visible-set_value, set_value-IsValid}
use pika_panlei.Store.Clearing.{IsTimed, clear_expire-Cleared}
use pika_panlei.Command.Refines.{Answers}
use pika_panlei.Command.Rules.{
  value_or, put-put, put-lookup, answer-view, answer-write, answer-same, get_found, get_or_set_rule,
}
use pika_panlei.Strings.{create_string, decoded, store_text}
use pika_panlei.Strings.Commands.{set, get}
use pika_panlei.Strings.Numbers.{add_to, change_int_value}

-- What `get` answers for a text that was set: a number in decimal, any other text as it is.
unfoldable pub canonical : PString → PString
canonical text = elim (strtol text) [ none ↦ text | some z ↦ print_int z ]

pub decoded-create_string :
    (Z : Type 0) (text : PString) → decoded {Z = Z} (create_string text) ≡ canonical text
unfolding decoded create_string canonical
decoded-create_string Z text = ground arith

string-create_string :
    (Z : Type 0) (text : PString) → has_type {Z = Z} PType.string (create_string text) ≡ true
unfolding has_type create_string
string-create_string Z text = ground arith

module _ {Z : Type 0} (env : Env Z) (s : Store Z) (valid : IsValid env s) where
  pub set-Answers :
      (c key text : PString)
      → IsTimed key s
      → Answers env PError.ok format_ok
          (put key (create_string text) (visible env s))
          (set env (c ∷ key ∷ text ∷ []) s)
  unfolding set store_text
  set-Answers c key text t =
      let a = clear_expire-Cleared env key s valid t in
      let s' = (clear_expire key s).1 in
      record {
        code = refl;
        reply = refl;
        view = λ j.
            visible-set_value env key j (create_string text) s' a.valid a.live
            ∙ a.put (create_string text) j;
        valid = set_value-IsValid env key (create_string text) s' a.valid;
      }

  -- On a valid store, for a key whose expiry time, if there is one, is below 2^64, `get` after
  -- `set` answers the text that was set, in decimal if it reads as a number, and no other key
  -- changes.
  pub get-set :
      (c c' key text : PString)
      → IsTimed key s
      → Answers env PError.ok
          (format_bulk (canonical text))
          (put key (create_string text) (visible env s))
          (get env (c' ∷ key ∷ []) (set env (c ∷ key ∷ text ∷ []) s).store)
  unfolding get
  get-set c c' key text t =
      let a = set-Answers c key text t in
      let f = put key (create_string text) (visible env s) in
      let s' = (set env (c ∷ key ∷ text ∷ []) s).store in
      get_found (Answers env PError.ok (format_bulk (canonical text)) f) env key PType.string s' _ _
        a.valid (create_string text)
        (a.view key ∙ put-lookup key (create_string text) (visible env s))
        (string-create_string Z text)
        (λ s'' p.
          let b =
            answer-same PError.ok (format_bulk (decoded {Z = Z} (create_string text))) p.ready in
          record {
            code = refl;
            reply = ap format_bulk (decoded-create_string Z text);
            view = λ j. b.view j ∙ a.view j;
            valid = b.valid;
          })

  -- On a valid store, where a key holds a number or nothing, `ChangeIntValue` stores the sum,
  -- wrapped around at 64 bits, and answers it, and no other key changes.
  pub change_int_value-Answers :
      (key : PString) (delta z : ℤ)
      → value_or (Value.int (pos 0)) PType.string (visible env s key) ≡ some (Value.int z)
      → Answers env PError.ok
          (format_int (wrap_long (z +ℤ delta)))
          (put key (Value.int (wrap_long (z +ℤ delta))) (visible env s))
          (change_int_value env key delta s)
  unfolding change_int_value add_to
  change_int_value-Answers key delta z e =
      let v : Value Z = Value.int (wrap_long (z +ℤ delta)) in
      get_or_set_rule
        (Answers env PError.ok (format_int (wrap_long (z +ℤ delta))) (put key v (visible env s)))
        env key PType.string s (Value.int (pos 0)) _ valid (Value.int z) e
        (λ s' p.
          answer-view (put-put key v (Value.int z) (visible env s))
            (answer-write PError.ok (format_int (wrap_long (z +ℤ delta))) v p))
