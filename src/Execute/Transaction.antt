-- ===== src/Execute/Transaction.antt =====
-- A client that has sent `multi` sends commands and then `exec`.
use pika_panlei.Base.{
  ℕ, ◌≡◌, refl, sym, ap, ◌∙◌, inl, inr, Bool, true, false, ◌&&◌, none, some, List, [], ◌∷◌, ◌++◌,
  PString, All, codes, crlf, length, append_assoc, append-nil, ◌==◌, Bool-cases, if◌then◌else◌,
  arith,
}
use pika_panlei.Base.Table.{find, put, find-put}
use pika_panlei.Common.{PError}
use pika_panlei.Common.Reply.{reply_error}
use pika_panlei.Command.{param}
use pika_panlei.Clients.{Client, queue_command, flag_exec_wrong}
use pika_panlei.Multi.{update}
use pika_panlei.Execute.{
  Server, Outcome, CommandInfo, Parts, check_params_count, update_current, is_control, queue_packet,
  handle_params, handle_packet, handle_packets,
}

-- The command is in the table, and is not one of those that are not queued.
pub record Entered {D : Type 0} (parts : Parts D) (params : List PString) : Type 0 where
  pub info : CommandInfo D
  pub entry : parts.command (param 0 params) ≡ some info
  pub queued : is_control (param 0 params) ≡ false

-- The table knows the command, and the number of its parameters is right.
unfoldable pub fits : {D : Type 0} → Parts D → List PString → Bool
fits parts params = elim (parts.command (param 0 params)) [
  | none ↦ false
  | some info ↦ check_params_count info.params (length params)
]

unfoldable pub all_fit : {D : Type 0} → Parts D → List (List PString) → Bool
unfolding fits
all_fit parts [] = true
all_fit parts (cmd ∷ cmds) = fits parts cmd && all_fit parts cmds

unfoldable pub queue_all : {D : Type 0} → Parts D → List (List PString) → Client → Client
unfolding fits
queue_all parts [] c = c
queue_all parts (cmd ∷ cmds) c = queue_all parts cmds (queue_command (fits parts cmd) cmd c)

-- The client is as given; nothing else has changed but who is served.
pub record Only {D : Type 0} (id : ℕ) (c : Client) (s s' : Server D) : Type 0 where
  pub client : find id s'.world.clients ≡ some c
  pub state : s'.state ≡ s.state
  pub dirty_keys : s'.dirty_keys ≡ s.dirty_keys
  pub changes : s'.changes ≡ s.changes
  pub watched : s'.world.watched ≡ s.world.watched
  pub others : (j : ℕ) → (id == j) ≡ false → find j s'.world.clients ≡ find j s.world.clients

unfoldable pub serve : {D : Type 0} → ℕ → Server D → Server D
serve id s = record s { current = some id }

module _ {D : Type 0} (parts : Parts D) (id : ℕ) where
  -- The server behind a command that was queued or refused.
  queued_server : Client → Server D → Server D
  queued_server c s = record s {
    current = none;
    world = record s.world { clients = put id c s.world.clients };
  }

  queued_server-Only : (c : Client) (s : Server D) → Only id c s (queued_server c s)
  unfolding queued_server
  queued_server-Only c s = record {
    client = find-put id id c s.world.clients ∙ ground arith;
    state = refl;
    dirty_keys = refl;
    changes = refl;
    watched = refl;
    others = λ j h. find-put id j c s.world.clients ∙ rw h refl;
  }

  queued_reply : Bool → PString
  queued_reply b = if b then codes "+QUEUED" ++ crlf else reply_error PError.param

  handle_params-queue :
      (cmd : List PString) (c : Client) (s : Server D) (info : CommandInfo D)
      → c.multi ≡ true
      → parts.command (param 0 cmd) ≡ some info
      → is_control (param 0 cmd) ≡ false
      → handle_params parts c cmd s ≡ queue_packet cmd info s
  unfolding handle_params
  handle_params-queue cmd c s info m i k = rw (i, handle_params) (rw (m, k) refl)

  queue_packet-eq :
      (cmd : List PString) (c : Client) (s : Server D) (info : CommandInfo D) (b : Bool)
      → find id s.world.clients ≡ some c
      → check_params_count info.params (length cmd) ≡ b
      → queue_packet cmd info (serve id s)
        ≡ some (record {
          code = PError.ok;
          reply = queued_reply b;
          direct = [];
          server = record s {
            current = some id;
            world = record s.world { clients = put id (queue_command b cmd c) s.world.clients };
          };
        })
  unfolding serve queue_packet update_current update queued_reply
  queue_packet-eq cmd c s info true e h = rw (h, queue_packet) (rw (e, update) refl)
  queue_packet-eq cmd c s info false e h = rw (h, queue_packet) (rw (e, update) refl)

  handle_packet-eq :
      (cmd : List PString) (c : Client) (s : Server D) (info : CommandInfo D) (b : Bool)
      → find id s.world.clients ≡ some c
      → c.multi ≡ true
      → parts.command (param 0 cmd) ≡ some info
      → is_control (param 0 cmd) ≡ false
      → check_params_count info.params (length cmd) ≡ b
      → handle_packet parts id cmd s
        ≡ some (record {
          code = PError.ok;
          reply = queued_reply b;
          direct = [];
          server = queued_server (queue_command b cmd c) s;
        })
  unfolding serve handle_packet queued_server
  handle_packet-eq cmd c s info b e m i k h =
      let s₁ = serve id s in
      rw (e, handle_packet)
        (rw (handle_params-queue cmd c s₁ info m i k ∙ queue_packet-eq cmd c s info b e h) refl)

  handle_packet-queues :
      (cmd : List PString) (c : Client) (s : Server D)
      → find id s.world.clients ≡ some c
      → c.multi ≡ true
      → Entered parts cmd
      → (o : Outcome D) × (handle_packet parts id cmd s ≡ some o)
        × Only id (queue_command (fits parts cmd) cmd c) s o.server
  unfolding fits check_params_count
  handle_packet-queues cmd c s e m entered =
      let f : check_params_count entered.info.params (length cmd) ≡ fits parts cmd =
        rw (entered.entry, fits) refl in
      (
        record {
          code = PError.ok;
          reply = queued_reply (fits parts cmd);
          direct = [];
          server = queued_server (queue_command (fits parts cmd) cmd c) s;
        },
        handle_packet-eq cmd c s entered.info (fits parts cmd) e m entered.entry entered.queued f,
        queued_server-Only (queue_command (fits parts cmd) cmd c) s,
      )

  queue_command-multi :
      (b : Bool) (cmd : List PString) (c : Client) → (queue_command b cmd c).multi ≡ c.multi
  unfolding queue_command flag_exec_wrong
  queue_command-multi b cmd c = ground arith

  pub handle_packets-queue :
      (cmds : List (List PString)) (c : Client) (s : Server D)
      → find id s.world.clients ≡ some c
      → c.multi ≡ true
      → All (Entered parts) cmds
      → (r : PString × Server D) × (handle_packets parts id cmds s ≡ some r)
        × Only id (queue_all parts cmds c) s r.1
  unfolding handle_packets queue_all
  handle_packets-queue [] c s e m entered = (
    ([], s),
    refl,
    record {
      client = e;
      state = refl;
      dirty_keys = refl;
      changes = refl;
      watched = refl;
      others = λ j h. refl;
    },
  )
  handle_packets-queue (cmd ∷ cmds) c s e m entered =
      let (o, p, q) = handle_packet-queues cmd c s e m entered.0 in
      let (r, p', q') =
        handle_packets-queue cmds _ o.server q.client
          (queue_command-multi (fits parts cmd) cmd c ∙ m) entered.1 in
      (
        (o.reply ++ r.0, r.1),
        rw (p, handle_packets) (rw p' refl),
        record {
          client = q'.client;
          state = q'.state ∙ q.state;
          dirty_keys = q'.dirty_keys ∙ q.dirty_keys;
          changes = q'.changes ∙ q.changes;
          watched = q'.watched ∙ q.watched;
          others = λ j h. q'.others j h ∙ q.others j h;
        },
      )

  pub queue_all-fit :
      (cmds : List (List PString)) (c : Client)
      → all_fit parts cmds ≡ true
      → c.wrong_exec ≡ false
      → queue_all parts cmds c ≡ record c { queue_cmds = c.queue_cmds ++ cmds }
  unfolding all_fit queue_all queue_command
  queue_all-fit [] c h w = ap (λ q. record c { queue_cmds = q }) (sym (append-nil c.queue_cmds))
  queue_all-fit (cmd ∷ cmds) c h w =
      let f : fits parts cmd ≡ true = ground arith in
      let rest : all_fit parts cmds ≡ true = ground arith in
      let c' = record c { queue_cmds = c.queue_cmds ++ cmd ∷ [] } in
      let e : queue_command (fits parts cmd) cmd c ≡ c' = rw (f, w) refl in
      ap (queue_all parts cmds) e
      ∙ queue_all-fit cmds c' rest w
      ∙ ap (λ q. record c { queue_cmds = q }) (append_assoc c.queue_cmds (cmd ∷ []) cmds)

  pub queue_all-wrong :
      (cmds : List (List PString)) (c : Client)
      → c.wrong_exec ≡ true
      → (queue_all parts cmds c).wrong_exec ≡ true
  unfolding queue_all queue_command flag_exec_wrong
  queue_all-wrong [] c w = w
  queue_all-wrong (cmd ∷ cmds) c w = queue_all-wrong cmds _ (ground arith)

  pub queue_all-unfit :
      (cmds : List (List PString)) (c : Client)
      → all_fit parts cmds ≡ false
      → c.multi ≡ true
      → (queue_all parts cmds c).wrong_exec ≡ true
  unfolding all_fit queue_all queue_command flag_exec_wrong
  queue_all-unfit [] c h m = absurd (ground arith)
  queue_all-unfit (cmd ∷ cmds) c h m = elim (Bool-cases (fits parts cmd)) [
    | inl f ↦ queue_all-unfit cmds _ (ground arith) (queue_command-multi (fits parts cmd) cmd c ∙ m)
    | inr f ↦ queue_all-wrong cmds _ (rw (f, m) refl)
  ]

  pub queue_all-multi :
      (cmds : List (List PString)) (c : Client) → (queue_all parts cmds c).multi ≡ c.multi
  unfolding queue_all
  queue_all-multi [] c = refl
  queue_all-multi (cmd ∷ cmds) c =
      queue_all-multi cmds _ ∙ queue_command-multi (fits parts cmd) cmd c
