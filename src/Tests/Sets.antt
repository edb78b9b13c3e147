-- ===== src/Tests/Sets.antt =====
-- Set commands on the database of Tests/Keys.antt.
use pika_panlei.Base.{
  ℕ, ◌+◌, pos, ◌≡◌, refl, not, ◌&&◌, ◌||◌, Option, some, [], ◌∷◌, PString, length, codes, str_eq,
}
use pika_panlei.Base.Dict
use pika_panlei.Base.Dict.{Dict, is_some}
use pika_panlei.Base.Members
use pika_panlei.Base.Members.{Members, contains}
use pika_panlei.Common.{PError}
use pika_panlei.Tests.Keys.{env, members, store, valid, see_set}
use pika_panlei.Common.Reply.{format_int}
use pika_panlei.Store.{Value, has_type}
use pika_panlei.Store.View.{visible}
use pika_panlei.Store.Writes.{put}
use pika_panlei.Command.Refines.{Answers}
use pika_panlei.Command.Rules.{value_or}
use pika_panlei.Set.{sadd, srem}
use pika_panlei.Set.Laws.{SetAt, shrunk, sadd-Answers, srem-Answers}

set_at : SetAt env store valid (codes "s") members
unfolding visible value_or has_type Dict.lookup str_eq
set_at = refl

sadd-Answers_example :
    (n : ℕ) × (m' : Members) × Answers env PError.ok
      (format_int (pos n))
      (put (codes "s") (Value.set m') (visible env store))
      (sadd env (codes "sadd" ∷ codes "s" ∷ codes "c" ∷ []) store)
    × (length m' ≡ n + length members)
    × ((j : PString) → contains j m' ≡ (contains j members || contains j (codes "c" ∷ [])))
sadd-Answers_example =
    sadd-Answers env store valid (codes "sadd") (codes "s") (codes "c" ∷ []) members set_at

members-IsUnique : Members.IsUnique members
unfolding contains str_eq
members-IsUnique = (refl, (refl, tt))

srem-Answers_example :
    (n : ℕ) × (m' : Members) × Answers env PError.ok
      (format_int (pos n))
      (shrunk env store valid (codes "s") m')
      (srem env (codes "srem" ∷ codes "s" ∷ codes "a" ∷ codes "b" ∷ []) store)
    × (length m' + n ≡ length members)
    × ((j : PString)
        → contains j m' ≡ (contains j members && not (contains j (codes "a" ∷ codes "b" ∷ []))))
srem-Answers_example =
    srem-Answers env store valid (codes "srem") (codes "s") (codes "a" ∷ codes "b" ∷ []) members
      see_set members-IsUnique

abbrev pick_a : Members → Option PString
pick_a m = some (codes "a")
