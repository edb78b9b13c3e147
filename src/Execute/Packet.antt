-- ===== src/Execute/Packet.antt =====
-- The packet of `exec`: what `handlePacket` makes of what `Exec` returns.
use pika_panlei.Base.{
  ℕ, ◌≡◌, refl, ap, ◌∙◌, Bool, true, false, Option, none, some, List, [], ◌∷◌, ◌++◌, PString, All,
  codes, length, str_eq, if◌then◌else◌, arith,
}
use pika_panlei.Base.Table.{find, put, find-put}
use pika_panlei.Common.{PError}
use pika_panlei.Common.Reply.{format_null_array, pre_format_multi_bulk, reply_error}
use pika_panlei.Clients.{Client, clear_multi, clear_watch}
use pika_panlei.Multi.{update}
use pika_panlei.Common.Case.{is_word}
use pika_panlei.Command.{param}
use pika_panlei.Store.{is_empty}
use pika_panlei.Execute.{
  Server, Outcome, CommandInfo, Parts, answer, muted, check_params_count, is_control,
  update_current, execute_cmd, after_command, run_command, run_queue, exec_queue, handle_params,
  handle_packet,
}
use pika_panlei.Execute.Commands.{with_client, exec}
use pika_panlei.Execute.Transaction.{Entered, Only, serve}
use pika_panlei.Execute.Table.{with_table, IsExec, run_queue-table}

-- The client after `exec`: no transaction, no commands and no keys that it watches.
unfoldable pub finished : Client → Client
unfolding clear_watch clear_multi
finished c = clear_watch (clear_multi c)

-- The server when the packet is done.
unfoldable pub done : {D : Type 0} → Server D → Server D
done s = record s { current = none }

unfoldable pub ran : {D : Type 0} → ℕ → Option (PString × Server D) → Option (Outcome D)
unfolding done
ran n none = none
ran n (some (replies, s)) = some (record {
  code = PError.ok;
  reply = pre_format_multi_bulk n ++ replies;
  direct = pre_format_multi_bulk n ++ replies;
  server = done (update_current finished s);
})

module _ {D : Type 0} (parts : Parts D) (id : ℕ) (params : List PString) where
  unfoldable pub cleared : Client → Server D → Server D
  unfolding finished
  cleared c s = record s {
    current = none;
    world = record s.world { clients = put id (finished c) s.world.clients };
  }

  pub cleared-Only :
      (c c' : Client) (s s' : Server D)
      → finished c' ≡ finished c
      → Only id c' s s'
      → Only id (finished c) s (cleared c' s')
  unfolding cleared
  cleared-Only c c' s s' e o = record {
    client = find-put id id (finished c') s'.world.clients ∙ rw e (ground arith);
    state = o.state;
    dirty_keys = o.dirty_keys;
    changes = o.changes;
    watched = o.watched;
    others = λ j h. find-put id j (finished c') s'.world.clients ∙ rw h (o.others j h);
  }

  pub update_current-finished :
      (c : Client) (s : Server D)
      → find id s.world.clients ≡ some c
      → done (update_current finished (serve id s)) ≡ cleared c s
  unfolding update_current update serve cleared done
  update_current-finished c s e = rw (e, update) refl

  -- The answer of `handlePacket` to what `Exec` returns, for a master or not.
  unfoldable pub decided : Bool → Option (Bool × PString × Server D) → Option (Outcome D)
  decided master none = none
  decided master (some (true, reply, s)) =
      some (record { code = PError.ok; reply = reply; direct = reply; server = done s })
  decided master (some (false, reply, s)) = some (record {
    code = PError.dirty_exec;
    reply = if master then [] else reply ++ reply_error PError.dirty_exec;
    direct = [];
    server = done s;
  })

  -- What the command, the muting and the end of the packet make of it.
  packet_end : Bool → Option (Outcome D) → Option (Outcome D)
  unfolding muted
  packet_end master o = elim (muted master o) [
    | none ↦ none
    | some p ↦ some (record p { server = record p.server { current = none } })
  ]

  decided-eq :
      (master : Bool) (o : Option (Bool × PString × Server D))
      → packet_end master (elim o [
        | none ↦ none
        | some (accepted, reply, s') ↦
            if accepted
            then some (record { code = PError.ok; reply = reply; direct = reply; server = s' })
            else answer PError.dirty_exec (reply ++ reply_error PError.dirty_exec) s'
      ])
        ≡ decided master o
  unfolding decided packet_end muted done
  decided-eq master none = refl
  decided-eq true (some (true, reply, s)) = refl
  decided-eq false (some (true, reply, s)) = refl
  decided-eq true (some (false, reply, s)) = refl
  decided-eq false (some (false, reply, s)) = refl

  exec-eq :
      (table : PString → Option (CommandInfo D)) (c : Client) (s : Server D)
      → find id s.world.clients ≡ some c
      → c.multi ≡ true
      → packet_end c.master (exec (with_table table parts) params (serve id s))
        ≡ decided c.master (exec_queue (with_table table parts) c (serve id s))
  unfolding exec with_client serve
  exec-eq table c s e m =
      rw (e, exec, with_client)
        (rw m (decided-eq c.master (exec_queue (with_table table parts) c (serve id s))))

  after-read :
      (cmd : List PString) (info : CommandInfo D) (o : Option (Outcome D))
      → info.write ≡ false
      → (elim o [ none ↦ none | some p ↦ after_command parts cmd (some info) p ]) ≡ o
  unfolding after_command
  after-read cmd info none w = refl
  after-read cmd info (some p) w = ground arith

  execute_cmd-handler :
      (cmd : List PString) (info : CommandInfo D) (s : Server D)
      → is_empty cmd ≡ false
      → check_params_count info.params (length cmd) ≡ true
      → execute_cmd cmd (some info) s ≡ info.handler cmd s
  unfolding execute_cmd
  execute_cmd-handler [] info s n f = cc n
  execute_cmd-handler (x ∷ cmd) info s n f = rw f refl

  word-inside :
      (cmd : List PString) → is_word (param 0 cmd) (codes "exec") ≡ true → is_empty cmd ≡ false
  unfolding is_word str_eq
  word-inside [] h = ground (arith, h)
  word-inside (x ∷ cmd) h = refl

  run_command-exec :
      (s : Server D) (i : IsExec parts params)
      → run_command parts params s ≡ exec (with_table i.table parts) params s
  unfolding run_command
  run_command-exec s i =
      ap
        (λ (x : Option (CommandInfo D)). elim (execute_cmd params x s) [
          | none ↦ none
          | some o ↦ after_command parts params x o
        ])
        i.entry
      ∙ rw (execute_cmd-handler params i.info s (word-inside params i.name) i.fit) (
          after-read params i.info (i.info.handler params s) i.reads
          ∙ ap (λ h. h params s) i.handler)

  -- `exec` is not queued.
  exec-is_control : IsExec parts params → is_control (param 0 params) ≡ true
  unfolding is_control
  exec-is_control i = ground (arith, i.name)

  handle_params-exec :
      (c : Client) (s : Server D)
      → IsExec parts params
      → handle_params parts c params s ≡ muted c.master (run_command parts params s)
  unfolding handle_params
  handle_params-exec c s i =
      rw (i.entry, handle_params) (rw (exec-is_control i, i.reads) (ground arith))

  pub handle_packet-exec :
      (c : Client) (s : Server D)
      → find id s.world.clients ≡ some c
      → c.multi ≡ true
      → (i : IsExec parts params)
      → handle_packet parts id params s
        ≡ decided c.master (exec_queue (with_table i.table parts) c (serve id s))
  unfolding handle_packet packet_end serve
  handle_packet-exec c s e m i =
      rw (e, handle_packet)
        (rw
          (handle_params-exec c (serve id s) i
            ∙ ap (muted c.master) (run_command-exec (serve id s) i))
          refl)
      ∙ exec-eq i.table c s e m

  pub exec_queue-wrong_exec :
      (table : PString → Option (CommandInfo D)) (c : Client) (s : Server D)
      → c.wrong_exec ≡ true
      → exec_queue (with_table table parts) c s ≡ some (false, [], update_current finished s)
  unfolding exec_queue finished
  exec_queue-wrong_exec table c s w = rw (w, exec_queue) refl

  pub exec_queue-dirty :
      (table : PString → Option (CommandInfo D)) (c : Client) (s : Server D)
      → c.wrong_exec ≡ false
      → c.dirty ≡ true
      → exec_queue (with_table table parts) c s
        ≡ some (true, format_null_array, update_current finished s)
  unfolding exec_queue finished
  exec_queue-dirty table c s w d = rw (w, exec_queue) (rw d refl)

  pub exec_queue-runs :
      (c : Client) (s : Server D) (i : IsExec parts params)
      → All (Entered parts) c.queue_cmds
      → c.wrong_exec ≡ false
      → c.dirty ≡ false
      → decided c.master (exec_queue (with_table i.table parts) c s)
        ≡ ran (length c.queue_cmds) (run_queue parts c.queue_cmds s)
  unfolding exec_queue finished ran decided done
  exec_queue-runs c s i h w d =
      rw (w, exec_queue)
        (rw (d, run_queue-table parts params c.queue_cmds s i h)
          (ran-eq c.master (length c.queue_cmds) (run_queue parts c.queue_cmds s)))
    where
      ran-eq :
          (master : Bool) (n : ℕ) (o : Option (PString × Server D))
          → decided master (elim o [
            | none ↦ none
            | some (replies, s') ↦
                some (true, pre_format_multi_bulk n ++ replies, update_current finished s')
          ])
            ≡ ran n o
      ran-eq master n none = refl
      ran-eq master n (some (replies, s)) = refl
