-- ===== src/Exit.antt =====
-- kernel/exit.c: signals to processes and to process groups; the process tree is in the children
-- `Tree` and `Wait`.
pub mod Protection
pub mod Delivery
pub mod Tree
pub mod Wait
pub mod Siblings
pub mod Unlink
pub mod Release
pub mod Birth
pub mod Reap
pub mod Links
pub mod Line
pub mod Adoption
pub mod Orphans
mod Tests
use linux.Common.{
  ℕ, zero, suc, ◌+◌, ◌-◌, ◌%◌, ◌^◌, Bool, true, false, not, ◌&&◌, ◌||◌, Option, none, some, List,
  [], ltb, leb, ◌==◌, ◌!=◌, if◌then◌else◌, get_or, set, bit_and, bit_or,
}
use linux.Common.Bits.{bit_not32}
use linux.Common.Int.{ℤ, pos, negsuc, ◌-ℤ◌, ltb_ℤ, leb_ℤ, to_u32, wrap32, pos_part, neg_part}
use linux.Sched.{TaskState, nr_tasks, sigkill, sigstop}
use linux.Signal.{sigcont, sigtstp, sigttin, sigttou, einval}

abbrev pub eperm : ℤ
eperm = negsuc 0

abbrev pub esrch : ℤ
esrch = negsuc 2

-- The fields of `struct task_struct` that these functions read. `sa_handler` is indexed like
-- `sigaction`: outside 0 to 31 it is what stands beside the array. A pointer to a task is the number
-- of its slot: `parent` is `p_pptr`, and `cptr`, `ysptr` and `osptr` are the other links.
pub record Task : Type 0 where
  pub state : TaskState
  pub signal : ℕ
  pub exit_code : ℤ
  pub sa_handler : ℤ → ℕ
  pub euid : ℕ
  pub pid : ℤ
  pub pgrp : ℤ
  pub session : ℤ
  pub leader : Bool
  pub parent : ℕ
  pub cptr : Option ℕ
  pub ysptr : Option ℕ
  pub osptr : Option ℕ
  pub utime : ℕ
  pub stime : ℕ
  pub cutime : ℕ
  pub cstime : ℕ
  pub blocked : ℕ
  pub tty : ℤ

-- `task[]`: an empty slot is a null pointer.
abbrev pub Table : Type 0
Table = List (Option Task)

abbrev pub slot : Table → ℕ → Option Task
slot ts i = get_or ts i none

-- A field read through a null pointer is read at address 0, where the kernel has its page
-- directory: `null` is what stands there.
abbrev pub deref : Task → Option Task → Task
deref null none = null
deref null (some t) = t

abbrev pub same : ℤ → ℤ → Bool
same a b = pos_part a == pos_part b && neg_part a == neg_part b

unfoldable pub is_stopped : TaskState → Bool
is_stopped TaskState.stopped = true
is_stopped _ = false

unfoldable pub is_zombie : TaskState → Bool
is_zombie TaskState.zombie = true
is_zombie _ = false

-- `1<<(sig-1)`: the processor takes the count modulo 32.
unfoldable pub signal_bit : ℤ → ℕ
signal_bit sig = 2 ^ (to_u32 (sig -ℤ pos 1) % 32)

abbrev pub job_stops : ℕ
job_stops = 2 ^ (sigstop - 1) + 2 ^ (sigtstp - 1) + 2 ^ (sigttin - 1) + 2 ^ (sigttou - 1)

-- SIGKILL and SIGCONT take the process out of its stop.
unfoldable pub continued : ℤ → Task → Task
continued sig p =
    if same sig (pos sigkill) || same sig (pos sigcont)
    then record p {
      state = if is_stopped p.state then TaskState.running else p.state;
      exit_code = pos 0;
      signal = bit_and p.signal (bit_not32 job_stops);
    }
    else p

-- The signal's bit, unless the signal is ignored. A stop clears a waiting SIGCONT.
unfoldable pub post : ℤ → Task → Task
post sig p =
    let waiting =
      (if leb_ℤ (pos sigstop) sig && leb_ℤ sig (pos sigttou)
        then bit_and p.signal (bit_not32 (2 ^ (sigcont - 1)))
        else p.signal) in
    if p.sa_handler (sig -ℤ pos 1) == 1
    then p
    else record p { signal = bit_or waiting (signal_bit sig) }

-- `euid` is the caller's; the result is the error and what `p` points to.
unfoldable pub send_sig : ℕ → ℤ → Option Task → Bool → ℤ × Option Task
send_sig euid sig none priv = (einval, none)
send_sig euid sig (some p) priv =
    if not priv && euid != p.euid && not (euid == 0)
    then (eperm, some p)
    else (pos 0, some (post sig (continued sig p)))

-- A pass over the slots from the last one down to 1, at slot `i`.
unfoldable pub session_from : Task → Table → ℤ → ℕ → ℤ
session_from null ts pgrp zero = negsuc 0
session_from null ts pgrp (suc i) =
    let rest = session_from null ts pgrp i in
    let p = deref null (slot ts (suc i)) in if same p.pgrp pgrp then p.session else rest

unfoldable pub session_of_pgrp : Task → Table → ℤ → ℤ
session_of_pgrp null ts pgrp = session_from null ts pgrp (nr_tasks - 1)

-- `task`, `retval` and `found` on the way.
pub record Sweep : Type 0 where
  pub task : Table
  pub retval : ℤ
  pub found : ℕ

-- One slot gets the signal.
unfoldable pub send_to : ℕ → ℤ → Bool → ℕ → Sweep → Sweep
send_to euid sig priv i s =
    let r = send_sig euid sig (slot s.task i) priv in
    let ts = set s.task i r.1 in
    if same r.0 (pos 0)
    then record s { task = ts; found = suc s.found }
    else record s { task = ts; retval = r.0 }

unfoldable pub pg_step : Task → ℕ → ℤ → ℤ → Bool → ℕ → Sweep → Sweep
pg_step null euid pgrp sig priv i s =
    if same (deref null (slot s.task i)).pgrp pgrp then send_to euid sig priv i s else s

unfoldable pub pg_from : Task → ℕ → ℤ → ℤ → Bool → ℕ → Sweep → Sweep
pg_from null euid pgrp sig priv zero s = s
pg_from null euid pgrp sig priv (suc i) s =
    pg_from null euid pgrp sig priv i (pg_step null euid pgrp sig priv (suc i) s)

unfoldable pub out_of_range : ℤ → Bool
out_of_range sig = ltb_ℤ sig (pos 1) || ltb_ℤ (pos 32) sig

unfoldable pub kill_pg : Task → ℕ → ℤ → ℤ → Bool → Table → ℤ × Table
kill_pg null euid pgrp sig priv ts =
    let start : Sweep = record { task = ts; retval = esrch; found = 0 } in
    let s = pg_from null euid pgrp sig priv (nr_tasks - 1) start in
    if out_of_range sig || leb_ℤ pgrp (pos 0)
    then (einval, ts)
    else (if s.found != 0 then pos 0 else s.retval, s.task)

unfoldable pub proc_from : Task → ℕ → ℤ → ℤ → Bool → Table → ℕ → ℤ × Table
proc_from null euid pid sig priv ts zero = (esrch, ts)
proc_from null euid pid sig priv ts (suc i) =
    let rest = proc_from null euid pid sig priv ts i in
    let r = send_sig euid sig (slot ts (suc i)) priv in
    if same (deref null (slot ts (suc i))).pid pid then (r.0, set ts (suc i) r.1) else rest

unfoldable pub kill_proc : Task → ℕ → ℤ → ℤ → Bool → Table → ℤ × Table
kill_proc null euid pid sig priv ts =
    let r = proc_from null euid pid sig priv ts (nr_tasks - 1) in
    if out_of_range sig then (einval, ts) else r

unfoldable pub all_from : ℕ → ℤ → ℕ → Sweep → Sweep
all_from euid sig zero s = s
all_from euid sig (suc i) s = all_from euid sig i (send_to euid sig false (suc i) s)

-- `current` is a task of the table, given with its slot's contents.
unfoldable pub sys_kill : Task → Task → ℤ → ℤ → Table → ℤ × Table
sys_kill null current pid sig ts =
    let start : Sweep = record { task = ts; retval = pos 0; found = 0 } in
    let s = all_from current.euid sig (nr_tasks - 1) start in
    if same pid (pos 0)
    then kill_pg null current.euid current.pid sig false ts
    else if same pid (negsuc 0)
    then (s.retval, s.task)
    else if ltb_ℤ pid (pos 0)
    then kill_pg null current.euid (wrap32 (pos 0 -ℤ pid)) sig false ts
    else kill_proc null current.euid pid sig false ts

-- Does the task in a slot tie its group to another group of the session?
unfoldable pub ties : Task → Table → ℤ → Option Task → Bool
ties null ts pgrp none = false
ties null ts pgrp (some p) =
    let parent = deref null (slot ts p.parent) in
    if not (same p.pgrp pgrp) || is_zombie p.state || same parent.pid (pos 1)
    then false
    else not (same parent.pgrp pgrp) && same parent.session p.session

unfoldable pub orphaned_from : Task → Table → ℤ → ℕ → Bool
orphaned_from null ts pgrp zero = true
orphaned_from null ts pgrp (suc i) =
    let rest = orphaned_from null ts pgrp i in
    if ties null ts pgrp (slot ts (suc i)) then false else rest

unfoldable pub is_orphaned_pgrp : Task → Table → ℤ → Bool
is_orphaned_pgrp null ts pgrp = orphaned_from null ts pgrp (nr_tasks - 1)

unfoldable pub stopped_from : Task → Table → ℤ → ℕ → Bool
stopped_from null ts pgrp zero = false
stopped_from null ts pgrp (suc i) =
    let rest = stopped_from null ts pgrp i in
    let p = deref null (slot ts (suc i)) in
    if not (same p.pgrp pgrp) then rest else if is_stopped p.state then true else rest

unfoldable pub has_stopped_jobs : Task → Table → ℤ → Bool
has_stopped_jobs null ts pgrp = stopped_from null ts pgrp (nr_tasks - 1)
