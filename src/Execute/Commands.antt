-- ===== src/Execute/Commands.antt =====
-- The commands of src/multi.cc.
use pika_panlei.Base.{
  ℕ, not, Option, none, some, List, [], ◌∷◌, ◌++◌, PString, codes, crlf, drop, if◌then◌else◌,
}
use pika_panlei.Base.Table.{find}
use pika_panlei.Common.{PError}
use pika_panlei.Common.Reply.{format_ok, reply_error}
use pika_panlei.Clients.{Client, start_multi, clear_multi, clear_watch}
use pika_panlei.Multi.{World, watch_for, unwatch_for}
use pika_panlei.Execute.{Server, Outcome, Parts, answer, refuse, update_current, exec_queue}

-- The loop of `watch`.
unfoldable pub watch_all : ℕ → ℕ → List PString → World → World
watch_all id dbno [] w = w
watch_all id dbno (key ∷ keys) w = watch_all id dbno keys (watch_for id dbno key w)

module _ {D : Type 0} where
  -- `PClient::Current()`, which has to point to a client.
  unfoldable pub with_client :
      (ℕ → Client → Server D → Option (Outcome D)) → Server D → Option (Outcome D)
  with_client f s = elim s.current [
    | none ↦ none
    | some id ↦ elim (find id s.world.clients) [ none ↦ none | some c ↦ f id c s ]
  ]

  unfoldable pub multi : List PString → Server D → Option (Outcome D)
  unfolding with_client start_multi update_current
  multi params = with_client λ id c s.
      if c.multi
      then answer PError.ok (codes "-ERR MULTI calls can not be nested" ++ crlf) s
      else answer PError.ok format_ok (update_current (λ (d : Client). (start_multi d).1) s)

  unfoldable pub unwatch : List PString → Server D → Option (Outcome D)
  unfolding with_client unwatch_for
  unwatch params =
      with_client λ id c s. answer PError.ok format_ok (record s { world = unwatch_for id s.world })

  unfoldable pub discard : List PString → Server D → Option (Outcome D)
  unfolding with_client update_current
  discard params = with_client λ id c s.
      if not c.multi
      then answer PError.ok (codes "-ERR DISCARD without MULTI" ++ crlf) s
      else answer PError.ok format_ok
          (update_current (λ (d : Client). clear_watch (clear_multi d)) s)

module _ {D : Type 0} (parts : Parts D) where
  unfoldable pub watch : List PString → Server D → Option (Outcome D)
  unfolding with_client watch_all
  watch params = with_client λ id c s.
      if c.multi
      then refuse PError.watch s
      else answer PError.ok format_ok
          (record s { world = watch_all id (parts.current_db s.state) (drop 1 params) s.world })

  unfoldable pub exec : List PString → Server D → Option (Outcome D)
  unfolding with_client exec_queue
  exec params = with_client λ id c s.
      if not c.multi then refuse PError.no_multi s else elim (exec_queue parts c s) [
        | none ↦ none
        | some (accepted, reply, s') ↦
            if accepted
            then some (record { code = PError.ok; reply = reply; direct = reply; server = s' })
            else answer PError.dirty_exec (reply ++ reply_error PError.dirty_exec) s'
      ]
