-- ===== src/SlowLog.antt =====
-- `PSlowLog` of src/slow_log.h and src/slow_log.cc, and the command `slowlog` of
-- src/server_command.cc. The times are those that `gettimeofday` gives, in microseconds.
use pika_panlei.Base.{
  ℕ, zero, suc, ◌-◌, ◌%◌, ◌^◌, ◌≤◌, ℤ, pos, negsuc, ltb_ℤ, Bool, true, false, ◌||◌, none, some,
  List, [], ◌∷◌, ◌++◌, PString, codes, str_eq, length, take, length-take, ltb, ◌==◌, if◌then◌else◌,
  arith,
}
use pika_panlei.Common.{PError}
use pika_panlei.Common.Number.Strtol.{strtol, long_bits}
use pika_panlei.Common.Reply.{format_int, format_ok, pre_format_multi_bulk, reply_error}
use pika_panlei.Command.{param}
use pika_panlei.Lists.{format_bulks}

pub record SlowLogItem : Type 0 where
  pub used : ℕ
  pub cmds : List PString

pub record SlowLog : Type 0 where
  pub threshold : ℕ
  pub begin_us : ℕ
  pub log_max_count : ℕ
  pub logs : List SlowLogItem

unfoldable pub begin : ℕ → SlowLog → SlowLog
begin now l = if l.threshold == 0 then l else record l { begin_us = now }

-- `emplace_front`, and `pop_back` of a log that is too long.
unfoldable pub log_item : SlowLogItem → SlowLog → SlowLog
log_item item l =
    let logs = item ∷ l.logs in
    record l {
      logs = if ltb l.log_max_count (length logs) then take (length l.logs) logs else logs;
    }

-- The clock does not go back.
unfoldable pub end_and_stat : ℕ → List PString → SlowLog → SlowLog
unfolding log_item
end_and_stat now cmds l =
    let used = now - l.begin_us in
    if l.threshold == 0 || l.begin_us == 0
    then l
    else if ltb used l.threshold
    then l
    else if str_eq (param 0 cmds) (codes "slowlog")
    then l
    else log_item (record { used = used % 2 ^ 32; cmds = cmds }) l

-- The loop of `slowlog get`. A negative count does not get to 0.
unfoldable pub format_items : ℤ → List SlowLogItem → PString
format_items n [] = []
format_items (pos zero) (item ∷ items) = []
format_items (pos (suc n)) (item ∷ items) =
    pre_format_multi_bulk 2
    ++ format_int (pos item.used)
    ++ pre_format_multi_bulk (length item.cmds)
    ++ format_bulks item.cmds
    ++ format_items (pos n) items
format_items (negsuc n) (item ∷ items) =
    pre_format_multi_bulk 2
    ++ format_int (pos item.used)
    ++ pre_format_multi_bulk (length item.cmds)
    ++ format_bulks item.cmds
    ++ format_items (negsuc (suc n)) items

-- `slowlog get` with a count.
unfoldable pub reply_items : ℤ → SlowLog → PString
unfolding format_items
reply_items n l =
    let limit = pos (length l.logs) in
    let real = if ltb_ℤ limit n then limit else n in
    pre_format_multi_bulk (long_bits real) ++ format_items real l.logs

-- The code, the reply and the log.
unfoldable pub slowlog : List PString → SlowLog → PError × PString × SlowLog
unfolding reply_items
slowlog params l =
    let count =
      if length params == 3 then strtol (param 2 params) else some (pos (length l.logs)) in
    if str_eq (param 1 params) (codes "len")
    then (PError.ok, format_int (pos (length l.logs)), l)
    else if str_eq (param 1 params) (codes "reset")
    then (PError.ok, format_ok, record l { logs = [] })
    else if str_eq (param 1 params) (codes "get")
    then elim count [
      | none ↦ (PError.syntax, reply_error PError.syntax, l)
      | some n ↦ (PError.ok, reply_items n l, l)
    ]
    else (PError.syntax, reply_error PError.syntax, l)

-- The log is not longer than its limit.
abbrev pub IsBounded : SlowLog → Type 0
IsBounded l = length l.logs ≤ l.log_max_count

log_item-IsBounded : (item : SlowLogItem) (l : SlowLog) → IsBounded l → IsBounded (log_item item l)
unfolding log_item
log_item-IsBounded item l h = ground (arith, length-take (length l.logs) (item ∷ l.logs))

either-IsBounded :
    (b : Bool) (l l' : SlowLog) → IsBounded l → IsBounded l' → IsBounded (if b then l else l')
either-IsBounded true l l' h h' = h
either-IsBounded false l l' h h' = h'

-- The log stays within its limit.
pub end_and_stat-IsBounded :
    (now : ℕ) (cmds : List PString) (l : SlowLog)
    → IsBounded l
    → IsBounded (end_and_stat now cmds l)
unfolding end_and_stat
end_and_stat-IsBounded now cmds l h =
    let item : SlowLogItem = record { used = (now - l.begin_us) % 2 ^ 32; cmds = cmds } in
    let named = str_eq (param 0 cmds) (codes "slowlog") in
    let short = ltb (now - l.begin_us) l.threshold in
    let off = l.threshold == 0 || l.begin_us == 0 in
    let l₁ = log_item item l in
    let l₂ : SlowLog = if named then l else l₁ in
    let l₃ : SlowLog = if short then l else l₂ in
    either-IsBounded off l l₃ h
      (either-IsBounded short l l₂ h (either-IsBounded named l l₁ h (log_item-IsBounded item l h)))
