-- ===== src/Tests/Databases.antt =====
-- Lookups and expiry times in the database of Tests/Keys.antt.
use pika_panlei.Base.{◌≡◌, refl, true, some, codes, str_eq, arith}
use pika_panlei.Base.Dict
use pika_panlei.Base.Dict.{Dict, is_some}
use pika_panlei.Common.{PType}
use pika_panlei.Tests.Keys.{env, store, valid}
use pika_panlei.Store.{get_value_by_type, clear_expire, expire_keys}
use pika_panlei.Store.View.{visible}
use pika_panlei.Store.Fetch.{Fetches, get_value_by_type-Fetches}
use pika_panlei.Store.Writes.{remove}
use pika_panlei.Store.Expiry.{clear_expire-deletes}

get_value_by_type-Fetches_example :
    Fetches env
      (codes "t")
      PType.string
      store
      (get_value_by_type env (codes "t") PType.string true store)
get_value_by_type-Fetches_example =
    get_value_by_type-Fetches env (codes "t") PType.string true store valid

old_time : Dict.lookup (codes "t") (expire_keys store) ≡ some 900
unfolding Dict.lookup str_eq
old_time = refl

clear_expire-deletes_example :
    ((clear_expire (codes "t") store).0 ≡ true)
    × (visible env (clear_expire (codes "t") store).1 (codes "t")
        ≡ remove (codes "t") (visible env store) (codes "t"))
clear_expire-deletes_example =
    clear_expire-deletes env (codes "t") (codes "t") 900 store valid old_time (omega arith)
