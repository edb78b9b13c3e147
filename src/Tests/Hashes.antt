-- ===== src/Tests/Hashes.antt =====
-- Hash commands on the database of Tests/Keys.antt.
use pika_panlei.Base.{
  ℕ, ◌+◌, pos, ◌+ℤ◌, ◌≡◌, refl, false, none, some, [], ◌∷◌, PString, length, codes, str_eq,
  if◌then◌else◌,
}
use pika_panlei.Base.Dict
use pika_panlei.Base.Dict.{Dict, is_some}
use pika_panlei.Base.Members.{contains}
use pika_panlei.Common.{PType, PError}
use pika_panlei.Tests.Keys.{env, fields, elements, store, valid, see_hash, see_list}
use pika_panlei.Common.Number.Strtol.{strtol, atoi, wrap_long}
use pika_panlei.Common.Reply.{format_int, format_bulk}
use pika_panlei.Store.{Value, has_type}
use pika_panlei.Store.View.{visible}
use pika_panlei.Store.Writes.{put}
use pika_panlei.Command.Refines.{Answers}
use pika_panlei.Command.Rules.{value_or}
use pika_panlei.Hash.{hset, hget, hdel, hincrby, hsetnx, format_found, incremented}
use pika_panlei.Hash.Laws.{HashAt, hget-hset, hdel-Answers, hash_wrong_type, Refused}

hash_at : HashAt env store valid (codes "h") fields
unfolding visible value_or has_type Dict.lookup str_eq
hash_at = refl

hget-hset_example :
    Answers env PError.ok
      (if str_eq (codes "f") (codes "g")
        then format_bulk (codes "2")
        else format_found (Dict.lookup (codes "g") fields))
      (put
        (codes "h")
        (Value.hash (Dict.insert (codes "f") (codes "2") fields))
        (visible env store))
      (hget env
        (codes "hget" ∷ codes "h" ∷ codes "g" ∷ [])
        (hset env (codes "hset" ∷ codes "h" ∷ codes "f" ∷ codes "2" ∷ []) store).store)
hget-hset_example =
    hget-hset env store valid (codes "hset") (codes "hget") (codes "h") (codes "f") (codes "2")
      (codes "g") fields hash_at

fields-IsUnique : Dict.IsUnique fields
unfolding Dict.lookup str_eq
fields-IsUnique = (refl, (refl, tt))

hdel-Answers_example :
    (n : ℕ) × (h' : Dict PString) × Answers env PError.ok
      (format_int (pos n))
      (put (codes "h") (Value.hash h') (visible env store))
      (hdel env (codes "hdel" ∷ codes "h" ∷ codes "f" ∷ []) store)
    × (n + length h' ≡ length fields)
    × ((k : PString)
        → Dict.lookup k h' ≡ (if contains k (codes "f" ∷ []) then none else Dict.lookup k fields))
hdel-Answers_example =
    hdel-Answers env store valid (codes "hdel") (codes "h") (codes "f" ∷ []) fields see_hash
      fields-IsUnique

five : incremented (Dict.lookup (codes "f") fields) (codes "4") ≡ some (pos 5)
unfolding incremented Dict.lookup str_eq strtol wrap_long atoi ◌+ℤ◌
five = refl

abbrev a_list : Value ℕ
a_list = Value.list elements

list_is_no_hash : has_type PType.hash a_list ≡ false
unfolding has_type
list_is_no_hash = refl

hash_wrong_type_example :
    Refused env store valid (hset env (codes "c" ∷ codes "l" ∷ codes "a" ∷ codes "b" ∷ []) store)
    × Refused env store valid
        (hsetnx env (codes "c" ∷ codes "l" ∷ codes "a" ∷ codes "b" ∷ []) store)
    × Refused env store valid
        (hincrby env (codes "c" ∷ codes "l" ∷ codes "a" ∷ codes "b" ∷ []) store)
    × Refused env store valid (hget env (codes "c" ∷ codes "l" ∷ codes "a" ∷ []) store)
    × Refused env store valid (hdel env (codes "c" ∷ codes "l" ∷ codes "a" ∷ []) store)
hash_wrong_type_example =
    hash_wrong_type env store valid (codes "c") (codes "l") (codes "a") (codes "b") (codes "a" ∷ [])
      a_list see_list list_is_no_hash
