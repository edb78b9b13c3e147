-- ===== src/Tests/Elements.antt =====
-- List commands on the database of Tests/Keys.antt.
use pika_panlei.Base.{ℕ, pos, negsuc, ◌+ℤ◌, ◌≡◌, refl, some, [], ◌∷◌, ◌++◌, codes}
use pika_panlei.Common.{PError}
use pika_panlei.Tests.Keys.{env, elements, store, valid, see_list}
use pika_panlei.Common.Number.Strtol.{strtol}
use pika_panlei.Common.Reply.{format_bulk, format_ok, pre_format_multi_bulk}
use pika_panlei.Store.{Value}
use pika_panlei.Store.View.{visible}
use pika_panlei.Store.Writes.{put}
use pika_panlei.Command.{Response}
use pika_panlei.Lists.{normal_index, ListPosition, format_bulks}
use pika_panlei.Lists.Elements.{lindex-lset}
use pika_panlei.Common.Number.{LongScan, try_str2long}
use pika_panlei.Lists.Commands.{lset, lindex, pop, ltrim, lrange}
use pika_panlei.Lists.Laws.{Gives, with_end, popped, pop-Answers, ltrim-Answers, lrange-Answers}

pop-Answers_example :
    Gives env PError.ok
      (format_bulk (codes "a"))
      (popped env store valid (codes "l") (codes "a" ∷ codes "b" ∷ []))
      (pop env ListPosition.tail (codes "rpop" ∷ codes "l" ∷ []) store)
unfolding with_end
pop-Answers_example =
    pop-Answers env store valid ListPosition.tail (codes "rpop") (codes "l") (codes "a")
      (codes "a" ∷ codes "b" ∷ []) see_list

one : strtol (codes "1") ≡ some (pos 1)
unfolding strtol
one = refl

minus_one_read : strtol (codes "-1") ≡ some (negsuc 0)
unfolding strtol
minus_one_read = refl

lrange-Answers_example :
    Gives env PError.ok
      (pre_format_multi_bulk 2 ++ format_bulks (codes "b" ∷ codes "a" ∷ []))
      (visible env store)
      (lrange env (codes "lrange" ∷ codes "l" ∷ codes "1" ∷ codes "-1" ∷ []) store)
lrange-Answers_example =
    lrange-Answers env store valid (codes "lrange") (codes "l") (codes "1") (codes "-1") elements
      (pos 1) (negsuc 0) see_list one minus_one_read

ltrim-Answers_example :
    Gives env PError.ok format_ok
      (put (codes "l") (Value.list (codes "b" ∷ codes "a" ∷ [])) (visible env store))
      (ltrim env (codes "ltrim" ∷ codes "l" ∷ codes "1" ∷ codes "-1" ∷ []) store)
ltrim-Answers_example =
    ltrim-Answers env store valid (codes "ltrim") (codes "l") (codes "1") (codes "-1") elements
      (pos 1) (negsuc 0) see_list one minus_one_read

zero_read : try_str2long (codes "0") ≡ LongScan.ok (pos 0)
unfolding try_str2long
zero_read = refl

last_read : try_str2long (codes "-1") ≡ LongScan.ok (negsuc 0)
unfolding try_str2long
last_read = refl

first_index : normal_index (pos 0) 3 ≡ some 0
unfolding normal_index
first_index = refl

last_index : normal_index (negsuc 0) 3 ≡ some 2
unfolding normal_index ◌+ℤ◌
last_index = refl

lindex-lset_example :
    (r : Response ℕ) × (lset env (codes "lset" ∷ codes "l" ∷ codes "0" ∷ codes "z" ∷ []) store
      ≡ some r)
    × (r.reply ≡ format_ok)
    × Gives env PError.ok
        (format_bulk (codes "a"))
        (put (codes "l") (Value.list (codes "z" ∷ codes "b" ∷ codes "a" ∷ [])) (visible env store))
        (lindex env (codes "lindex" ∷ codes "l" ∷ codes "-1" ∷ []) r.store)
lindex-lset_example =
    lindex-lset env store valid (codes "lset") (codes "lindex") (codes "l") (codes "0") (codes "-1")
      (codes "z") (codes "a") elements (pos 0) (negsuc 0) 0 2 see_list zero_read first_index
      last_read last_index refl
