-- ===== src/Multi.antt =====
-- `PMulti` of src/multi.h and src/multi.cc: the clients that watch a key. A client is a number; a
-- `weak_ptr` to it can be locked while the table of clients holds it.
pub mod Notify
pub mod Stale
use pika_panlei.Base.{
  ℕ, ◌≡◌, ℤ, pos, negsuc, Bool, true, false, not, ◌&&◌, Option, none, some, List, [], ◌∷◌, ◌++◌,
  PString, ◌==◌, if◌then◌else◌,
}
use pika_panlei.Base.Dict
use pika_panlei.Base.Dict.{Dict}
use pika_panlei.Base.Table.{Table, find, put}
use pika_panlei.Store.{is_empty}
use pika_panlei.Clients.{Client, watch_key, notify_client, clear_watch}

abbrev pub Watches : Type 0
Watches = Table (Dict (List ℕ))

pub record World : Type 0 where
  pub clients : Table Client
  pub watched : Watches

-- `clients_[dbno]`
unfoldable pub keys_of : ℕ → Watches → Dict (List ℕ)
keys_of dbno ws = elim (find dbno ws) [ none ↦ [] | some m ↦ m ]

-- `clients_[dbno][key]`
unfoldable pub watchers : ℕ → PString → Watches → List ℕ
unfolding keys_of
watchers dbno key ws = elim (Dict.lookup key (keys_of dbno ws)) [ none ↦ [] | some l ↦ l ]

-- What a change does to one client.
unfoldable pub update : (Client → Client) → ℕ → Table Client → Table Client
update f id cs = elim (find id cs) [ none ↦ cs | some c ↦ put id (f c) cs ]

-- `PMulti::Watch` of a client that is alive.
unfoldable pub watch_for : ℕ → ℕ → PString → World → World
unfolding watchers keys_of
watch_for id dbno key w = elim (find id w.clients) [
  | none ↦ w
  | some c ↦
      let (inserted, c') = watch_key dbno key c in
      let ids = watchers dbno key w.watched ++ id ∷ [] in
      record {
        clients = put id c' w.clients;
        watched =
            if inserted
            then put dbno (Dict.insert key ids (keys_of dbno w.watched)) w.watched
            else w.watched;
      }
]

-- `ClearWatch` of a client, which stays in the lists of `clients_`.
unfoldable pub unwatch_for : ℕ → World → World
unfolding update
unwatch_for id w = record w { clients = update clear_watch id w.clients }

-- `client.get() != PClient::Current()`
unfoldable pub is_current : Option ℕ → ℕ → Bool
is_current none id = false
is_current (some n) id = n == id

-- `++itCli`
unfoldable pub keep : ℕ → Option (List ℕ × Table Client) → Option (List ℕ × Table Client)
keep id none = none
keep id (some (ids, cs)) = some (id ∷ ids, cs)

-- The loop of `NotifyDirty`: which clients stay in the list. `none` stands for `erase` at the end.
unfoldable pub notify_loop :
    Option ℕ → ℕ → PString → List ℕ → Table Client → Option (List ℕ × Table Client)
unfolding is_current keep
notify_loop current dbno key [] cs = some ([], cs)
notify_loop current dbno key (id ∷ []) cs = elim (find id cs) [
  | none ↦ some ([], cs)
  | some c ↦
      let (notified, c') = notify_client dbno key c in
      if is_current current id
      then some (id ∷ [], cs)
      else if notified
      then none
      else some (id ∷ [], put id c' cs)
]
notify_loop current dbno key (id ∷ next ∷ rest) cs = elim (find id cs) [
  | none ↦ notify_loop current dbno key (next ∷ rest) cs
  | some c ↦
      let (notified, c') = notify_client dbno key c in
      let kept = keep id (notify_loop current dbno key (next ∷ rest) cs) in
      if is_current current id
      then kept
      else if notified
      then notify_loop current dbno key rest (put id c' cs)
      else kept
]

unfoldable pub notify_dirty : Option ℕ → ℕ → PString → World → Option World
unfolding notify_loop keys_of
notify_dirty current dbno key w = elim (Dict.lookup key (keys_of dbno w.watched)) [
  | none ↦ some w
  | some cls ↦ elim (notify_loop current dbno key cls w.clients) [
    | none ↦ none
    | some (ids, cs) ↦
        let keys = keys_of dbno w.watched in
        some (record {
          clients = cs;
          watched =
              put dbno (if is_empty ids then Dict.erase key keys else Dict.insert key ids keys)
                w.watched;
        })
  ]
]

-- `SetFlag(ClientFlag_dirty)` of the clients of a list that are alive.
unfoldable pub mark_all : List ℕ → Table Client → Table Client
unfolding update
mark_all [] cs = cs
mark_all (id ∷ ids) cs = mark_all ids (update (λ c. record c { dirty = true }) id cs)

unfoldable pub mark_keys : Dict (List ℕ) → Table Client → Table Client
unfolding mark_all
mark_keys [] cs = cs
mark_keys ((key, ids) ∷ rest) cs = mark_keys rest (mark_all ids cs)

unfoldable pub mark_dbs : Watches → Table Client → Table Client
unfolding mark_keys
mark_dbs [] cs = cs
mark_dbs ((dbno, keys) ∷ rest) cs = mark_dbs rest (mark_keys keys cs)

unfoldable pub notify_dirty_all : ℤ → World → World
unfolding mark_dbs mark_keys keys_of
notify_dirty_all (negsuc ℕ.zero) w = record w { clients = mark_dbs w.watched w.clients }
notify_dirty_all (negsuc (ℕ.suc n)) w = w
notify_dirty_all (pos dbno) w = record w { clients = mark_keys (keys_of dbno w.watched) w.clients }
