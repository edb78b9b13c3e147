-- ===== src/Tests/Keys.antt =====
-- A database with a hash, a set, a list and an expired key.
use pika_panlei.Base.{ℕ, ◌≡◌, refl, inl, false, some, List, [], ◌∷◌, PString, codes, str_eq, arith}
use pika_panlei.Base.Dict
use pika_panlei.Base.Dict.{Dict}
use pika_panlei.Base.Members.{Members}
use pika_panlei.Store.{Value, Object, Env, Store}
use pika_panlei.Store.View.{visible, IsValid}

abbrev pub env : Env ℕ
env = record { backends = []; now = 1000; saving = false }

abbrev pub fields : Dict PString
fields = (codes "f", codes "1") ∷ (codes "g", codes "x") ∷ []

abbrev pub members : Members
members = codes "a" ∷ codes "b" ∷ []

abbrev pub elements : List PString
elements = codes "a" ∷ codes "b" ∷ codes "a" ∷ []

abbrev pub object : Value ℕ → Object ℕ
object v = record { lru = 0; value = v }

abbrev pub store : Store ℕ
store = record {
  dbs =
      ((codes "h", object (Value.hash fields))
        ∷ (codes "s", object (Value.set members))
        ∷ (codes "l", object (Value.list elements))
        ∷ (codes "t", object (Value.raw (codes "old")))
        ∷ [])
      ∷ []
      ∷ [];
  expired_dbs = ((codes "t", 900) ∷ []) ∷ [] ∷ [];
  wait_sync = [];
  dbno = 0;
  lruclock = 7;
}

pub valid : IsValid env store
valid = record { db_in = omega arith; expire_in = omega arith; sync_in = inl refl }

pub see_hash : visible env store (codes "h") ≡ some (Value.hash fields)
unfolding visible Dict.lookup str_eq
see_hash = refl

pub see_set : visible env store (codes "s") ≡ some (Value.set members)
unfolding visible Dict.lookup str_eq
see_set = refl

pub see_list : visible env store (codes "l") ≡ some (Value.list elements)
unfolding visible Dict.lookup str_eq
see_list = refl
