-- ===== src/Execute/Exec.antt =====
-- What `exec` does with the commands that a client has sent since `multi`.
use pika_panlei.Base.{
  ℕ, ◌≡◌, refl, ap, subst, ◌∙◌, Bool, true, false, Option, none, some, List, [], ◌∷◌, ◌++◌, PString,
  All, if◌then◌else◌, arith,
}
use pika_panlei.Base.Table.{find}
use pika_panlei.Common.{PError}
use pika_panlei.Common.Reply.{format_null_array, reply_error}
use pika_panlei.Clients.{Client, queue_command, flag_exec_wrong}
use pika_panlei.Execute.{Server, Outcome, Parts, handle_packet, handle_packets}
use pika_panlei.Execute.Transaction.{
  Entered, Only, fits, all_fit, queue_all, handle_packets-queue, queue_all-fit, queue_all-unfit,
  queue_all-multi,
}
use pika_panlei.Execute.Table.{IsExec}
use pika_panlei.Execute.Packet.{
  finished, cleared, cleared-Only, update_current-finished, decided, handle_packet-exec,
  exec_queue-wrong_exec, exec_queue-dirty,
}

-- The client sends the commands and then one more, `exec`.
unfoldable pub send_transaction :
    {D : Type 0} → Parts D → ℕ → List (List PString) → List PString → Server D → Option (Outcome D)
send_transaction parts id cmds params s = elim (handle_packets parts id cmds s) [
  | none ↦ none
  | some (replies, s') ↦ handle_packet parts id params s'
]

finished-either :
    (b : Bool) (c d d' : Client)
    → finished d ≡ finished c
    → finished d' ≡ finished c
    → finished (if b then d else d') ≡ finished c
finished-either true c d d' h h' = h
finished-either false c d d' h h' = h'

queue_command-finished :
    (b : Bool) (cmd : List PString) (c : Client) → finished (queue_command b cmd c) ≡ finished c
unfolding queue_command flag_exec_wrong finished
queue_command-finished true cmd c =
    finished-either c.wrong_exec c c (record c { queue_cmds = c.queue_cmds ++ cmd ∷ [] }) refl refl
queue_command-finished false cmd c =
    finished-either c.multi c (record c { wrong_exec = true }) c refl refl

queue_all-finished :
    {D : Type 0} (parts : Parts D) (cmds : List (List PString)) (c : Client)
    → finished (queue_all parts cmds c) ≡ finished c
unfolding queue_all
queue_all-finished parts [] c = refl
queue_all-finished parts (cmd ∷ cmds) c =
    queue_all-finished parts cmds _ ∙ queue_command-finished (fits parts cmd) cmd c

module _ {D : Type 0} (parts : Parts D) (id : ℕ) (params : List PString) where
  queue_command-master :
      (b : Bool) (cmd : List PString) (d : Client) → (queue_command b cmd d).master ≡ d.master
  unfolding queue_command flag_exec_wrong
  queue_command-master b cmd d = ground arith

  queue_all-master :
      (sent : List (List PString)) (d : Client) → (queue_all parts sent d).master ≡ d.master
  unfolding queue_all
  queue_all-master [] d = refl
  queue_all-master (cmd ∷ sent) d =
      queue_all-master sent _ ∙ queue_command-master (fits parts cmd) cmd d

  module _ (cmds : List (List PString)) (c : Client) (s : Server D)
      (alive : find id s.world.clients ≡ some c) (in_multi : c.multi ≡ true)
      (entered : All (Entered parts) cmds) (last : IsExec parts params) where
    -- Where a client in a transaction sends commands of the table, one of them with a wrong number
    -- of parameters, and then `exec`, which the table has with its handler, the packet of `exec`
    -- refuses the transaction with the error of an aborted one, which a master is not told, and
    -- nothing changes but that client, which leaves the transaction and watches nothing: no data,
    -- no other client, no dirty key and no count of changes.
    pub transaction-refused :
        all_fit parts cmds ≡ false
        → (o : Outcome D) × (send_transaction parts id cmds params s ≡ some o)
          × (o.code ≡ PError.dirty_exec)
          × (o.reply ≡ (if c.master then [] else reply_error PError.dirty_exec))
          × Only id (finished c) s o.server
    unfolding send_transaction decided
    transaction-refused h =
        let (r, e, o) = handle_packets-queue parts id cmds c s alive in_multi entered in
        let c' = queue_all parts cmds c in
        let same : c'.master ≡ c.master = queue_all-master cmds c in
        (
          record {
            code = PError.dirty_exec;
            reply = if c'.master then [] else reply_error PError.dirty_exec;
            direct = [];
            server = cleared parts id params c' r.1;
          },
          rw (e, send_transaction)
              (handle_packet-exec parts id params c' r.1 o.client
                  (queue_all-multi parts id cmds c ∙ in_multi) last
                ∙ ap (decided parts id params c'.master) (
                    exec_queue-wrong_exec parts id params last.table c' _
                      (queue_all-unfit parts id cmds c h in_multi))
                ∙ ap
                    (λ t. some (record {
                      code = PError.dirty_exec;
                      reply = if c'.master then [] else reply_error PError.dirty_exec;
                      direct = [];
                      server = t;
                    }))
                    (update_current-finished parts id params c' r.1 o.client)),
          refl,
          ap (λ b. if b then [] else reply_error PError.dirty_exec) same,
          cleared-Only parts id params c c' s r.1 (queue_all-finished parts cmds c) o,
        )

    module _ (fit : all_fit parts cmds ≡ true) (right : c.wrong_exec ≡ false) where
      -- Where a client is dirty, in a transaction without a mistake, and sends commands with the
      -- right numbers of parameters and then `exec`, which the table has with its handler, the
      -- packet of `exec` answers the null array, runs none of them, and nothing changes but that
      -- client, which leaves the transaction and watches nothing: no data, no other client, no
      -- dirty key and no count of changes.
      pub transaction-dirty :
          c.dirty ≡ true
          → (o : Outcome D) × (send_transaction parts id cmds params s ≡ some o)
            × (o.code ≡ PError.ok)
            × (o.reply ≡ format_null_array)
            × Only id (finished c) s o.server
      unfolding send_transaction decided finished
      transaction-dirty d =
          let (r, e, o) = handle_packets-queue parts id cmds c s alive in_multi entered in
          let c' : Client = record c { queue_cmds = c.queue_cmds ++ cmds } in
          let same = queue_all-fit parts id cmds c fit right in
          let found : find id r.1.world.clients ≡ some c' = o.client ∙ ap some same in
          (
            record {
              code = PError.ok;
              reply = format_null_array;
              direct = format_null_array;
              server = cleared parts id params c' r.1;
            },
            rw (e, send_transaction)
                (handle_packet-exec parts id params c' r.1 found in_multi last
                  ∙ ap (decided parts id params c'.master)
                      (exec_queue-dirty parts id params last.table c' _ right d)
                  ∙ ap
                      (λ t. some (record {
                        code = PError.ok;
                        reply = format_null_array;
                        direct = format_null_array;
                        server = t;
                      }))
                      (update_current-finished parts id params c' r.1 found)),
            refl,
            refl,
            cleared-Only parts id params c c' s r.1 refl (subst (λ d. Only id d s r.1) same o),
          )
