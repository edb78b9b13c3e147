-- ===== src/Multi/Stale.antt =====
-- A client that watches nothing any more stands in the lists of `PMulti` still.
use pika_panlei.Base.{
  ℕ, ◌≡◌, pos, refl, ap, ◌∙◌, inl, inr, Bool, true, false, ◌||◌, none, some, List, [], ◌∷◌, ◌++◌,
  PString, ◌==◌, ==_iff, Bool-cases, if◌then◌else◌, arith,
}
use pika_panlei.Base.Dict
use pika_panlei.Base.Dict.{Dict}
use pika_panlei.Base.Members
use pika_panlei.Base.Members.{Members}
use pika_panlei.Base.Table.{Table, find, put, find-put}
use pika_panlei.Clients.{Client, watch_key, watched_in, clear_watch}
use pika_panlei.Multi.{
  World, Watches, keys_of, watchers, update, watch_for, unwatch_for, mark_all, mark_keys,
  notify_dirty_all,
}

unfoldable is_in : ℕ → List ℕ → Bool
is_in id [] = false
is_in id (i ∷ ids) = (i == id) || is_in id ids

unfoldable listed : ℕ → Dict (List ℕ) → Bool
unfolding is_in
listed id [] = false
listed id ((key, ids) ∷ rest) = is_in id ids || listed id rest

is_in-append : (id : ℕ) (ids : List ℕ) → is_in id (ids ++ id ∷ []) ≡ true
unfolding is_in
is_in-append id [] = ground arith
is_in-append id (i ∷ ids) = ground (arith, is_in-append id ids)

listed-insert :
    (id : ℕ) (key : PString) (ids : List ℕ) (m : Dict (List ℕ))
    → is_in id ids ≡ true
    → listed id (Dict.insert key ids m) ≡ true
unfolding listed Dict.insert
listed-insert id key ids [] h = ground arith
listed-insert id key ids ((k, js) ∷ m) h = ground (arith, listed-insert id key ids m)

find-update :
    (f : Client → Client) (id j : ℕ) (c : Client) (cs : Table Client)
    → find j cs ≡ some c
    → find j (update f id cs) ≡ some (if id == j then f c else c)
unfolding update find
find-update f id j c cs e = elim (Bool-cases (id == j)) [
  | inl h ↦
      let e' : find id cs ≡ some c = ap (λ n. find n cs) ((==_iff id j).0 h) ∙ e in
      rw (e', update) (find-put id j (f c) cs ∙ rw h refl)
  | inr h ↦
      elim (find id cs)
          as (λ o. find id cs ≡ o → find j (update f id cs) ≡ some (if id == j then f c else c)) [
            | none ↦ λ e'. rw (e', update, h) e
            | some d ↦ λ e'. rw (e', update) (find-put id j (f d) cs ∙ rw h e)
          ]
        refl
]

abbrev made_dirty : Bool → Client → Client
made_dirty true c = record c { dirty = true }
made_dirty false c = c

find-mark_all :
    (id : ℕ) (ids : List ℕ) (c : Client) (cs : Table Client)
    → find id cs ≡ some c
    → find id (mark_all ids cs) ≡ some (made_dirty (is_in id ids) c)
unfolding mark_all is_in
find-mark_all id [] c cs e = e
find-mark_all id (i ∷ ids) c cs e =
    let u = find-update (made_dirty true) i id c cs e in
    elim (Bool-cases (i == id)) [
      | inl h ↦ find-mark_all id ids _ _ u ∙ ap some (rw h (marked (is_in id ids) c))
      | inr h ↦ find-mark_all id ids _ _ u ∙ rw h refl
    ]
  where
    marked : (b : Bool) (c : Client) → made_dirty b (made_dirty true c) ≡ made_dirty true c
    marked true c = refl
    marked false c = refl

find-mark_keys :
    (id : ℕ) (keys : Dict (List ℕ)) (c : Client) (cs : Table Client)
    → find id cs ≡ some c
    → find id (mark_keys keys cs) ≡ some (made_dirty (listed id keys) c)
unfolding mark_keys listed
find-mark_keys id [] c cs e = e
find-mark_keys id ((key, ids) ∷ rest) c cs e =
    find-mark_keys id rest _ _ (find-mark_all id ids c cs e)
    ∙ ap some (both (is_in id ids) (listed id rest) c)
  where
    both : (a b : Bool) (c : Client) → made_dirty b (made_dirty a c) ≡ made_dirty (a || b) c
    both true true c = refl
    both true false c = refl
    both false b c = refl

keys_of-put : (dbno : ℕ) (m : Dict (List ℕ)) (ws : Watches) → keys_of dbno (put dbno m ws) ≡ m
unfolding keys_of
keys_of-put dbno m ws = ground (arith, find-put dbno dbno m ws)

module _ (id dbno : ℕ) (key : PString) (c : Client) (w : World) where
  -- A client that is alive, watches a key that it did not watch and then unwatches all its keys is
  -- dirty after `NotifyDirtyAll` of the database, though it watches nothing.
  pub notify_dirty_all-unwatched :
      find id w.clients ≡ some c
      → Members.contains key (watched_in dbno c) ≡ false
      → find id (notify_dirty_all (pos dbno) (unwatch_for id (watch_for id dbno key w))).clients
        ≡ some (record c { watch_keys = []; dirty = true })
  unfolding notify_dirty_all unwatch_for clear_watch watch_for find watch_key
  notify_dirty_all-unwatched e h =
      let w' = watch_for id dbno key w in
      let c' = (watch_key dbno key c).1 in
      let ids = watchers dbno key w.watched ++ id ∷ [] in
      let e' : find id w'.clients ≡ some c' =
        rw (e, watch_for) (find-put id id c' w.clients ∙ ground arith) in
      let l : listed id (keys_of dbno w'.watched) ≡ true =
        rw (e, watch_for, watch_key, h)
          (rw (keys_of-put dbno (Dict.insert key ids (keys_of dbno w.watched)) w.watched) (
            listed-insert id key ids (keys_of dbno w.watched)
              (is_in-append id (watchers dbno key w.watched)))) in
      find-mark_keys id (keys_of dbno w'.watched) _ _
        (find-update clear_watch id id c' w'.clients e')
      ∙ rw l (ground arith)
