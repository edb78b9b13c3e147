-- ===== src/Execute.antt =====
-- How a command is run: `CheckParamsCount` and `ExecuteCmd` of src/command.cc, `Propagate` of
-- src/store.cc, and of src/client.cc the queue of a transaction and the last part of
-- `handlePacket`. The table of commands, the database and the slaves are a record of operations.
pub mod Commands
pub mod Transaction
pub mod Table
pub mod Packet
pub mod Exec
use pika_panlei.Base.{
  ℕ, zero, suc, ◌+◌, ℤ, pos, negsuc, Bool, true, false, not, ◌&&◌, ◌||◌, Option, none, some, List,
  [], ◌∷◌, ◌++◌, PString, codes, crlf, length, leb, ltb, ◌==◌, if◌then◌else◌,
}
use pika_panlei.Base.Table.{find}
use pika_panlei.Common.{PError}
use pika_panlei.Common.Case.{is_word}
use pika_panlei.Common.Reply.{format_null_array, pre_format_multi_bulk, reply_error}
use pika_panlei.Store.{is_empty}
use pika_panlei.Command.{param}
use pika_panlei.Clients.{Client, queue_command, clear_multi, clear_watch}
use pika_panlei.Multi.{World, update, notify_dirty}

-- `current` is `PClient::Current()`, `dirty_keys` is `g_dirtyKeys`, `changes` is `PStore::dirty_`.
pub record Server (D : Type 0) : Type 0 where
  pub world : World
  pub current : Option ℕ
  pub dirty_keys : List PString
  pub changes : ℕ
  pub state : D

-- `reply` is all that is answered, `direct` the part that `Exec` appends to `reply_` by itself.
pub record Outcome (D : Type 0) : Type 0 where
  pub code : PError
  pub reply : PString
  pub direct : PString
  pub server : Server D

-- `write` is the attribute `PAttr_write`. `none` stands for a failed assertion or undefined behaviour.
pub record CommandInfo (D : Type 0) : Type 0 where
  pub write : Bool
  pub params : ℤ
  pub handler : List PString → Server D → Option (Outcome D)

-- `command` is `GetCommandInfo`, `read_only` tells whether the server is a slave.
pub record Parts (D : Type 0) : Type 0 where
  pub command : PString → Option (CommandInfo D)
  pub read_only : D → Bool
  pub current_db : D → ℕ
  pub add_dirty_key : PString → D → D
  pub send_to_slaves : List PString → D → D
  pub handle_new : List PString → Server D → Option (Outcome D)

unfoldable pub check_params_count : ℤ → ℕ → Bool
check_params_count (pos zero) n = true
check_params_count (pos (suc params)) n = suc params == n
check_params_count (negsuc params) n = leb (suc params) n

abbrev pub is_ok : PError → Bool
is_ok PError.ok = true
is_ok e = false

module _ {D : Type 0} where
  abbrev pub answer : PError → PString → Server D → Option (Outcome D)
  answer code reply s = some (record { code = code; reply = reply; direct = []; server = s })

  abbrev pub refuse : PError → Server D → Option (Outcome D)
  refuse e s = answer e (reply_error e) s

  -- `ExecuteCmd` with the entry of the table, or none.
  unfoldable pub execute_cmd : List PString → Option (CommandInfo D) → Server D → Option (Outcome D)
  unfolding check_params_count
  execute_cmd [] info s = refuse PError.param s
  execute_cmd (cmd ∷ args) none s = refuse PError.unknow_cmd s
  execute_cmd (cmd ∷ args) (some info) s =
      if not (check_params_count info.params (length (cmd ∷ args)))
      then refuse PError.param s
      else info.handler (cmd ∷ args) s

  -- A change of the client that is served.
  unfoldable pub update_current : (Client → Client) → Server D → Server D
  update_current f s = elim s.current [
    | none ↦ s
    | some id ↦ record s { world = record s.world { clients = update f id s.world.clients } }
  ]

  -- A command of a master has no reply to append to, but `reply_` is sent.
  unfoldable pub muted : Bool → Option (Outcome D) → Option (Outcome D)
  muted master none = none
  muted master (some o) = some (record o { reply = if master then o.direct else o.reply })

  -- The branch of `handlePacket` for a command in a transaction.
  unfoldable pub queue_packet : List PString → CommandInfo D → Server D → Option (Outcome D)
  queue_packet params info s =
      let fits = check_params_count info.params (length params) in
      let s' = update_current (queue_command fits params) s in
      if fits
      then answer PError.ok (codes "+QUEUED" ++ crlf) s'
      else answer PError.ok (reply_error PError.param) s'

-- The commands that are not queued.
unfoldable pub is_control : PString → Bool
is_control cmd =
    is_word cmd (codes "multi")
    || is_word cmd (codes "exec")
    || is_word cmd (codes "watch")
    || is_word cmd (codes "unwatch")
    || is_word cmd (codes "discard")

module _ {D : Type 0} (parts : Parts D) where
  -- One key of `Propagate`.
  unfoldable pub propagate_key : PString → Server D → Option (Server D)
  propagate_key k s = elim (notify_dirty s.current (parts.current_db s.state) k s.world) [
    | none ↦ none
    | some w ↦
        some
          (record s { world = w; changes = s.changes + 1; state = parts.add_dirty_key k s.state })
  ]

  unfoldable pub propagate_keys : List PString → Server D → Option (Server D)
  unfolding propagate_key
  propagate_keys [] s = some s
  propagate_keys (k ∷ keys) s = elim (propagate_key k s) [
    | none ↦ none
    | some s' ↦ propagate_keys keys s'
  ]

  unfoldable pub sent : List PString → Option (Server D) → Option (Server D)
  sent params none = none
  sent params (some s) = some (record s { state = parts.send_to_slaves params s.state })

  unfoldable pub propagate : List PString → Server D → Option (Server D)
  unfolding propagate_keys sent
  propagate params s =
      if not (is_empty s.dirty_keys)
      then sent params (elim (propagate_keys s.dirty_keys s) [
        | none ↦ none
        | some s' ↦ some (record s' { dirty_keys = [] })
      ])
      else if ltb 1 (length params)
      then sent params (propagate_key (param 1 params) s)
      else sent params (some s)

  -- A command that changed the data is propagated.
  unfoldable pub after_command :
      List PString → Option (CommandInfo D) → Outcome D → Option (Outcome D)
  unfolding propagate
  after_command params none o = some o
  after_command params (some info) o =
      if is_ok o.code && info.write
      then elim (propagate params o.server) [
        | none ↦ none
        | some s ↦ some (record o { server = s })
      ]
      else some o

  unfoldable pub run_command : List PString → Server D → Option (Outcome D)
  unfolding execute_cmd after_command
  run_command params s = elim (execute_cmd params (parts.command (param 0 params)) s) [
    | none ↦ none
    | some o ↦ after_command params (parts.command (param 0 params)) o
  ]

  -- The loop of `Exec`, and the replies of the commands.
  unfoldable pub run_queue : List (List PString) → Server D → Option (PString × Server D)
  unfolding run_command
  run_queue [] s = some ([], s)
  run_queue (cmd ∷ cmds) s = elim (run_command cmd s) [
    | none ↦ none
    | some o ↦ elim (run_queue cmds o.server) [
      | none ↦ none
      | some (replies, s') ↦ some (o.reply ++ replies, s')
    ]
  ]

  -- `PClient::Exec`: whether the transaction was accepted, and the reply.
  unfoldable pub exec_queue : Client → Server D → Option (Bool × PString × Server D)
  unfolding run_queue update_current
  exec_queue c s =
      let clear = update_current (λ (c : Client). clear_watch (clear_multi c)) in
      if c.wrong_exec
      then some (false, [], clear s)
      else if c.dirty
      then some (true, format_null_array, clear s)
      else elim (run_queue c.queue_cmds s) [
        | none ↦ none
        | some (replies, s') ↦
            some (true, pre_format_multi_bulk (length c.queue_cmds) ++ replies, clear s')
      ]

  -- `handlePacket` of a client that has authenticated, from the lookup of the command on.
  unfoldable pub handle_params : Client → List PString → Server D → Option (Outcome D)
  unfolding queue_packet is_control run_command muted
  handle_params c params s = elim (parts.command (param 0 params)) [
    | none ↦ parts.handle_new params s
    | some info ↦
        if c.multi && not (is_control (param 0 params))
        then queue_packet params info s
        else if parts.read_only s.state && not c.master && info.write
        then refuse PError.readonly_slave s
        else muted c.master (run_command params s)
  ]

  -- `handlePacket` for the client with a number. `s_current` is set, and cleared by `reset`.
  unfoldable pub handle_packet : ℕ → List PString → Server D → Option (Outcome D)
  unfolding handle_params
  handle_packet id params s = elim (find id s.world.clients) [
    | none ↦ none
    | some c ↦ elim (handle_params c params (record s { current = some id })) [
      | none ↦ none
      | some o ↦ some (record o { server = record o.server { current = none } })
    ]
  ]

  -- `HandlePackets`, once the bytes are parsed: the replies are sent together.
  unfoldable pub handle_packets : ℕ → List (List PString) → Server D → Option (PString × Server D)
  unfolding handle_packet
  handle_packets id [] s = some ([], s)
  handle_packets id (params ∷ rest) s = elim (handle_packet id params s) [
    | none ↦ none
    | some o ↦ elim (handle_packets id rest o.server) [
      | none ↦ none
      | some (replies, s') ↦ some (o.reply ++ replies, s')
    ]
  ]
