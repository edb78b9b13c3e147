-- ===== src/Clients.antt =====
-- What src/client.h and src/client.cc keep of a client for its transaction: the flags of `flag_`,
-- `watchKeys_` and `queueCmds_`.
pub mod Inline
use pika_panlei.Base.{
  ℕ, ◌≡◌, Bool, true, false, not, ◌||◌, Option, none, some, List, [], ◌∷◌, ◌++◌, PString,
  if◌then◌else◌,
}
use pika_panlei.Base.Members
use pika_panlei.Base.Members.{Members}
use pika_panlei.Base.Table.{Table, find, put}

pub record Client : Type 0 where
  pub multi : Bool
  pub dirty : Bool
  pub wrong_exec : Bool
  pub master : Bool
  pub watch_keys : Table Members
  pub queue_cmds : List (List PString)

-- A client that has just connected.
unfoldable pub new_client : Client
new_client = record {
  multi = false;
  dirty = false;
  wrong_exec = false;
  master = false;
  watch_keys = [];
  queue_cmds = [];
}

-- `watchKeys_[dbno]`
unfoldable pub watched_in : ℕ → Client → Members
watched_in dbno c = elim (find dbno c.watch_keys) [ none ↦ [] | some m ↦ m ]

-- `PClient::Watch`
unfoldable pub watch_key : ℕ → PString → Client → Bool × Client
unfolding watched_in
watch_key dbno key c =
    let m = watched_in dbno c in
    (
      not (Members.contains key m),
      record c { watch_keys = put dbno (Members.insert key m) c.watch_keys },
    )

-- `PClient::NotifyDirty`
unfoldable pub notify_client : ℕ → PString → Client → Bool × Client
unfolding watched_in
notify_client dbno key c =
    if c.dirty
    then (true, c)
    else if Members.contains key (watched_in dbno c)
    then (true, record c { dirty = true })
    else (false, c)

unfoldable pub flag_exec_wrong : Client → Client
flag_exec_wrong c = if c.multi then record c { wrong_exec = true } else c

unfoldable pub clear_multi : Client → Client
clear_multi c = record c { queue_cmds = []; multi = false; wrong_exec = false }

unfoldable pub clear_watch : Client → Client
clear_watch c = record c { watch_keys = []; dirty = false }

-- `PMulti::Multi`
unfoldable pub start_multi : Client → Bool × Client
unfolding clear_multi
start_multi c = if c.multi then (false, c) else (true, record (clear_multi c) { multi = true })

-- A command in a transaction, whose number of parameters is right or not.
unfoldable pub queue_command : Bool → List PString → Client → Client
unfolding flag_exec_wrong
queue_command fits params c =
    if fits
    then (if c.wrong_exec then c else record c { queue_cmds = c.queue_cmds ++ params ∷ [] })
    else flag_exec_wrong c
