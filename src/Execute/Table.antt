-- ===== src/Execute/Table.antt =====
-- `exec` in the table of commands: what it runs, runs as with the table itself.
use pika_panlei.Base.{
  ◌≡◌, refl, ap, ◌∙◌, true, false, Option, none, some, List, [], ◌∷◌, ◌++◌, PString, All, codes,
  length,
}
use pika_panlei.Common.Case.{is_word}
use pika_panlei.Command.{param}
use pika_panlei.Execute.{
  Server, Outcome, CommandInfo, Parts, check_params_count, is_control, propagate_key,
  propagate_keys, propagate, execute_cmd, after_command, run_command, run_queue,
}
use pika_panlei.Execute.Commands.{exec}
use pika_panlei.Execute.Transaction.{Entered}

-- The same operations with another table of commands.
abbrev pub with_table : {D : Type 0} → (PString → Option (CommandInfo D)) → Parts D → Parts D
with_table table parts = record parts { command = table }

-- The command is `exec`: the table has it with its handler, as a command that writes nothing. The
-- table that the handler reads is the same for all commands that are queued.
pub record IsExec {D : Type 0} (parts : Parts D) (params : List PString) : Type 0 where
  pub table : PString → Option (CommandInfo D)
  pub same : (name : PString) → is_control name ≡ false → table name ≡ parts.command name
  pub info : CommandInfo D
  pub name : is_word (param 0 params) (codes "exec") ≡ true
  pub entry : parts.command (param 0 params) ≡ some info
  pub handler : info.handler ≡ exec (with_table table parts)
  pub fit : check_params_count info.params (length params) ≡ true
  pub reads : info.write ≡ false

module _ {D : Type 0} (parts : Parts D) (params : List PString) where
  -- What is queued runs with the table that `exec` reads as with the table itself.
  propagate_keys-table :
      (table : PString → Option (CommandInfo D)) (keys : List PString) (s : Server D)
      → propagate_keys (with_table table parts) keys s ≡ propagate_keys parts keys s
  unfolding propagate_keys propagate_key
  propagate_keys-table table [] s = refl
  propagate_keys-table table (k ∷ keys) s =
      ap
        (λ (f : Server D → Option (Server D)). elim (propagate_key parts k s) [
          | none ↦ none
          | some s' ↦ f s'
        ])
        (λ i s'. propagate_keys-table table keys s' i)

  after_command-table :
      (table : PString → Option (CommandInfo D)) (cmd : List PString)
      (info : Option (CommandInfo D)) (o : Outcome D)
      → after_command (with_table table parts) cmd info o ≡ after_command parts cmd info o
  unfolding after_command propagate propagate_key
  after_command-table table cmd none o = refl
  after_command-table table cmd (some info) o =
      rw (propagate_keys-table table o.server.dirty_keys o.server) refl

  run_command-table :
      (table : PString → Option (CommandInfo D)) (cmd : List PString) (s : Server D)
      → table (param 0 cmd) ≡ parts.command (param 0 cmd)
      → run_command (with_table table parts) cmd s ≡ run_command parts cmd s
  unfolding run_command
  run_command-table table cmd s e =
      ap
        (λ (x : Option (CommandInfo D)). elim (execute_cmd cmd x s) [
          | none ↦ none
          | some o ↦ after_command (with_table table parts) cmd x o
        ])
        e
      ∙ ap
          (λ (f : Outcome D → Option (Outcome D)).
            elim (execute_cmd cmd (parts.command (param 0 cmd)) s) [ none ↦ none | some o ↦ f o ])
          (λ j o. after_command-table table cmd (parts.command (param 0 cmd)) o j)

  pub run_queue-table :
      (cmds : List (List PString)) (s : Server D) (i : IsExec parts params)
      → All (Entered parts) cmds
      → run_queue (with_table i.table parts) cmds s ≡ run_queue parts cmds s
  unfolding run_queue
  run_queue-table [] s i h = refl
  run_queue-table (cmd ∷ cmds) s i (h, hs) =
      ap
        (λ (x : Option (Outcome D)). elim x [
          | none ↦ none
          | some o ↦ elim (run_queue (with_table i.table parts) cmds o.server) [
            | none ↦ none
            | some (replies, s') ↦ some (o.reply ++ replies, s')
          ]
        ])
        (run_command-table i.table cmd s (i.same (param 0 cmd) h.queued))
      ∙ ap
          (λ (f : Server D → Option (PString × Server D)). elim (run_command parts cmd s) [
            | none ↦ none
            | some o ↦ elim (f o.server) [
              | none ↦ none
              | some (replies, s') ↦ some (o.reply ++ replies, s')
            ]
          ])
          (λ j s'. run_queue-table cmds s' i hs j)
