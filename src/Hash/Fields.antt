-- ===== src/Hash/Fields.antt =====
-- The loops of the hash commands over the fields.
use pika_panlei.Base.{
  ℕ, ◌+◌, ◌≡◌, refl, ap, ◌∙◌, Option, none, some, List, [], ◌∷◌, PString, length, if◌then◌else◌,
  arith, str_eq, str_eq_iff,
}
use pika_panlei.Base.Dict
use pika_panlei.Base.Dict.{Dict, is_some}
use pika_panlei.Base.Members.{contains}
use pika_panlei.Hash.{set_pairs, del_fields}

-- The values of the fields after `set_pairs`: the last of the pairs with the field counts.
pub last_value : PString → List PString → Option PString → Option PString
last_value k (field ∷ val ∷ rest) old = last_value k rest (if str_eq field k then some val else old)
last_value k _ old = old

-- After the loop of `hmset` a field has the last value that is given for it, or its old one.
pub lookup-set_pairs :
    (k : PString) (params : List PString) (h : Dict PString)
    → Dict.lookup k (set_pairs params h) ≡ last_value k params (Dict.lookup k h)
unfolding set_pairs last_value
lookup-set_pairs k [] h = refl
lookup-set_pairs k (field ∷ []) h = refl
lookup-set_pairs k (field ∷ val ∷ rest) h =
    lookup-set_pairs k rest (Dict.insert field val h)
    ∙ ap (last_value k rest) (Dict.lookup-insert field k val h)

-- `hmset` never gives a field two values.
pub set_pairs-IsUnique :
    (params : List PString) (h : Dict PString)
    → Dict.IsUnique h
    → Dict.IsUnique (set_pairs params h)
unfolding set_pairs
set_pairs-IsUnique [] h u = u
set_pairs-IsUnique (field ∷ []) h u = u
set_pairs-IsUnique (field ∷ val ∷ rest) h u =
    set_pairs-IsUnique rest (Dict.insert field val h) (Dict.insert-IsUnique field val h u)

-- `hdel` removes the named fields and no other.
pub lookup-del_fields :
    (k : PString) (fields : List PString) (n : ℕ) (h : Dict PString)
    → Dict.lookup k (del_fields fields n h).1
      ≡ (if contains k fields then none else Dict.lookup k h)
unfolding del_fields contains
lookup-del_fields k [] n h = refl
lookup-del_fields k (field ∷ rest) n h = ground (
  arith,
  lookup-del_fields k rest n h,
  lookup-del_fields k rest (n + 1) (Dict.erase field h),
  Dict.lookup-erase field k h,
  str_eq_iff field k,
)

-- It counts as many fields as it removes.
pub count-del_fields :
    (fields : List PString) (n : ℕ) (h : Dict PString)
    → Dict.IsUnique h
    → (del_fields fields n h).0 + length (del_fields fields n h).1 ≡ n + length h
unfolding del_fields
count-del_fields [] n h u = refl
count-del_fields (field ∷ rest) n h u = ground (
  arith,
  count-del_fields rest n h,
  count-del_fields rest (n + 1) (Dict.erase field h),
  Dict.erase-IsUnique field h u,
  Dict.length-erase field h u,
)

pub del_fields-IsUnique :
    (fields : List PString) (n : ℕ) (h : Dict PString)
    → Dict.IsUnique h
    → Dict.IsUnique (del_fields fields n h).1
unfolding del_fields
del_fields-IsUnique [] n h u = u
del_fields-IsUnique (field ∷ rest) n h u = ground (
  arith,
  del_fields-IsUnique rest n h,
  del_fields-IsUnique rest (n + 1) (Dict.erase field h),
  Dict.erase-IsUnique field h u,
)
