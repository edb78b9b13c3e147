-- ===== src/Tests/Transactions.antt =====
-- Four clients, an inline command, and a table with one command that counts.
use pika_panlei.Base.{
  ℕ, ◌+◌, ◌≡◌, refl, pos, true, false, none, some, List, [], ◌∷◌, ◌++◌, PString, All, codes, crlf,
  length, str_eq, arith, if◌then◌else◌,
}
use pika_panlei.Base.Members
use pika_panlei.Base.Table.{Table, find}
use pika_panlei.Common.{PError}
use pika_panlei.Common.Case.{is_word}
use pika_panlei.Common.Reply.{format_ok, format_null_array, reply_error}
use pika_panlei.Clients.{Client, new_client, watched_in, notify_client}
use pika_panlei.Store.{is_empty}
use pika_panlei.Clients.Inline.{
  is_blank, IsLetter, IsWord, line, process_inline_cmd, process_inline_cmd-line,
}
use pika_panlei.Multi.{World, is_current, notify_loop, notify_dirty_all, watch_for, unwatch_for}
use pika_panlei.Multi.Notify.{Alerted, is_first, notify_loop-odd, notify_loop-even}
use pika_panlei.Multi.Stale.{notify_dirty_all-unwatched}
use pika_panlei.Execute.{
  Server, Outcome, CommandInfo, Parts, answer, check_params_count, is_control,
}
use pika_panlei.Execute.Commands.{exec}
use pika_panlei.Execute.Transaction.{Entered, Only, fits, all_fit}
use pika_panlei.Execute.Table.{IsExec}
use pika_panlei.Execute.Packet.{finished}
use pika_panlei.Execute.Exec.{send_transaction, transaction-refused, transaction-dirty}

-- `mset` with one pair, in the store of Tests/Keys.antt, for a number that is counted up.
abbrev counter : CommandInfo ℕ
counter = record {
  write = true;
  params = pos 3;
  handler = λ params s. answer PError.ok format_ok (record s { state = s.state + 1 });
}

-- A table without `exec`, which `exec` needs for the commands that it runs.
abbrev bare : Parts ℕ
bare = record {
  command = λ name. if str_eq name (codes "set") then some counter else none;
  read_only = λ d. false;
  current_db = λ d. 0;
  add_dirty_key = λ k d. d;
  send_to_slaves = λ params d. d;
  handle_new = λ params s. answer PError.unknow_cmd (reply_error PError.unknow_cmd) s;
}

abbrev exec_info : CommandInfo ℕ
exec_info = record { write = false; params = pos 1; handler = exec bare }

abbrev parts : Parts ℕ
parts = record bare {
  command = λ name. if is_word name (codes "exec") then some exec_info else bare.command name;
}

abbrev watching : Client
watching = record new_client { watch_keys = (0, codes "k" ∷ []) ∷ [] }

abbrev in_multi : Client
in_multi = record watching { multi = true }

abbrev told : Client
told = record in_multi { dirty = true }

abbrev clients : Table Client
clients = (1, watching) ∷ (2, watching) ∷ (3, in_multi) ∷ (4, told) ∷ []

abbrev world : World
world = record { clients = clients; watched = (0, (codes "k", 1 ∷ 2 ∷ 3 ∷ []) ∷ []) ∷ [] }

abbrev server : Server ℕ
server = record { world = world; current = none; dirty_keys = []; changes = 0; state = 5 }

first : Alerted (some 9) 0 (codes "k") clients 1
unfolding find is_current notify_client watched_in new_client str_eq Members.contains
first = record { client = watching; alive = refl; told = refl; other = refl }

second : Alerted (some 9) 0 (codes "k") clients 2
unfolding find is_current notify_client watched_in new_client str_eq Members.contains
second = record { client = watching; alive = refl; told = refl; other = refl }

third : Alerted (some 9) 0 (codes "k") clients 3
unfolding find is_current notify_client watched_in new_client str_eq Members.contains
third = record { client = in_multi; alive = refl; told = refl; other = refl }

notify_loop-odd_example : notify_loop (some 9) 0 (codes "k") (1 ∷ 2 ∷ 3 ∷ []) clients ≡ none
notify_loop-odd_example =
    notify_loop-odd (some 9) 0 (codes "k") (1 ∷ 2 ∷ 3 ∷ []) clients (first, (second, (third, _)))
      refl

notify_loop-even_example :
    (cs' : Table Client) × (notify_loop (some 9) 0 (codes "k") (1 ∷ 2 ∷ []) clients
      ≡ some ([], cs'))
    × ((j : ℕ) → is_first j (1 ∷ 2 ∷ []) ≡ false → find j cs' ≡ find j clients)
notify_loop-even_example =
    notify_loop-even (some 9) 0 (codes "k") (1 ∷ 2 ∷ []) clients (first, (second, _)) refl

notify_dirty_all-unwatched_example :
    find 2 (notify_dirty_all (pos 0) (unwatch_for 2 (watch_for 2 0 (codes "j") world))).clients
    ≡ some (record watching { watch_keys = []; dirty = true })
unfolding find watched_in new_client str_eq Members.contains
notify_dirty_all-unwatched_example =
    notify_dirty_all-unwatched 2 0 (codes "j") watching world refl refl

abbrev set_a : List PString
set_a = codes "set" ∷ codes "a" ∷ codes "1" ∷ []

abbrev set_b : List PString
set_b = codes "set" ∷ codes "b" ∷ []

enters : (args : List PString) → Entered parts (codes "set" ∷ args)
unfolding is_control is_word str_eq
enters args = record { info = counter; entry = refl; queued = refl }

table-IsExec : IsExec parts (codes "exec" ∷ [])
unfolding is_control check_params_count is_word str_eq
table-IsExec = record {
  table = bare.command;
  same = λ name h. ground (arith, h);
  info = exec_info;
  name = refl;
  entry = refl;
  handler = refl;
  fit = refl;
  reads = refl;
}

transaction-refused_example :
    (o : Outcome ℕ) × (send_transaction parts 3 (set_a ∷ set_b ∷ []) (codes "exec" ∷ []) server
      ≡ some o)
    × (o.code ≡ PError.dirty_exec)
    × (o.reply ≡ (if false then [] else reply_error PError.dirty_exec))
    × Only 3 (finished in_multi) server o.server
unfolding find new_client all_fit fits str_eq check_params_count is_word
transaction-refused_example =
    transaction-refused parts 3 (codes "exec" ∷ []) (set_a ∷ set_b ∷ []) in_multi server refl refl
      (enters _, (enters _, _)) table-IsExec refl

transaction-dirty_example :
    (o : Outcome ℕ) × (send_transaction parts 4 (set_a ∷ []) (codes "exec" ∷ []) server ≡ some o)
    × (o.code ≡ PError.ok)
    × (o.reply ≡ format_null_array)
    × Only 4 (finished told) server o.server
unfolding find new_client all_fit fits str_eq check_params_count is_word
transaction-dirty_example =
    transaction-dirty parts 4 (codes "exec" ∷ []) (set_a ∷ []) told server refl refl (enters _, _)
      table-IsExec refl refl refl

one-IsWord : (w : PString) → is_empty w ≡ false → All IsLetter w → IsWord w
one-IsWord w e l = record { letters = l; inside = e }

process_inline_cmd-line_example :
    process_inline_cmd (line (codes "get" ∷ codes "k" ∷ []) ++ (crlf ++ codes "ping"))
    ≡ (pos (length (line (codes "get" ∷ codes "k" ∷ [])) + 2), codes "get" ∷ codes "k" ∷ [])
unfolding is_blank line
process_inline_cmd-line_example =
    process_inline_cmd-line (codes "get" ∷ codes "k" ∷ []) (codes "ping") (omega arith) (
      one-IsWord (codes "get") refl ((refl, refl), ((refl, refl), ((refl, refl), _))),
      (one-IsWord (codes "k") refl ((refl, refl), _), _),
    )
