-- ===== src/Exit/Tree.antt =====
-- kernel/exit.c and kernel/fork.c: the links of the process tree, the end of a process, and the wait
-- for children.
use linux.Common.{
  ℕ, zero, suc, ◌-◌, ◌*◌, ◌%◌, ◌^◌, true, false, not, ◌&&◌, ◌||◌, Option, none, some, ltb, leb,
  ◌==◌, if◌then◌else◌, set, bit_or,
}
use mathlib.Core.Option
use linux.Common.Int.{ℤ, pos, negsuc, ltb_ℤ, to_u32, pos_part}
use linux.Sched.{TaskState, nr_tasks}
use linux.Signal.{sigchld, sigcont}
use linux.Exit.{
  Task, Table, slot, deref, same, is_zombie, kill_pg, is_orphaned_pgrp, has_stopped_jobs,
}

-- A store through a pointer to a task; in an empty slot there is nothing to change.
abbrev pub change : ℕ → (Task → Task) → Table → Table
change i f ts = set ts i (Option.map f (slot ts i))

abbrev pub change_at : Option ℕ → (Task → Task) → Table → Table
change_at none f ts = ts
change_at (some i) f ts = change i f ts

-- The slot is cleared, and its task, with the parent and the siblings given, is taken out of the
-- list of its siblings.
unfoldable pub unlink : ℕ → ℕ → Option ℕ → Option ℕ → Table → Table
unlink i parent older none ts =
    change parent (λ q. record q { cptr = older })
      (change_at older (λ q. record q { ysptr = none }) (set ts i none))
unlink i parent older (some y) ts =
    change y (λ q. record q { osptr = older })
      (change_at older (λ q. record q { ysptr = some y }) (set ts i none))

-- `release` of a pointer that is not null, up to its call of `schedule`; `none` is its panic.
unfoldable pub release : ℕ → ℕ → Table → Option Table
release current p ts =
    if p == current
    then some ts
    else if p == 0 || leb nr_tasks p
    then none
    else elim (slot ts p) [ none ↦ none | some t ↦ some (unlink p t.parent t.osptr t.ysptr ts) ]

-- `copy_process`: the fields of the new process that stand here.
unfoldable pub child_of : ℕ → ℤ → Task → Task
child_of current last_pid t = record t {
  state = TaskState.running;
  pid = last_pid;
  signal = 0;
  leader = false;
  utime = 0;
  stime = 0;
  cutime = 0;
  cstime = 0;
  parent = current;
  cptr = none;
  ysptr = none;
  osptr = t.cptr;
}

-- The links that `copy_process` makes for the process in slot `nr`.
unfoldable pub link_child : ℕ → ℕ → ℤ → Task → Table → Table
link_child nr current last_pid t ts =
    let added = set ts nr (some (child_of current last_pid t)) in
    let older = change_at t.cptr (λ q. record q { ysptr = some nr }) added in
    change current (λ q. record q { cptr = some nr }) older

abbrev pub sighup : ℕ
sighup = 1

abbrev pub sigchld_bit : ℕ
sigchld_bit = 2 ^ (sigchld - 1)

-- A group of stopped jobs that is orphaned is woken up by SIGHUP and SIGCONT.
unfoldable pub hang_up : Task → ℕ → ℤ → Table → Table
hang_up null euid pgrp ts =
    if is_orphaned_pgrp null ts pgrp && has_stopped_jobs null ts pgrp
    then (kill_pg null euid pgrp (pos sigcont) true
        (kill_pg null euid pgrp (pos sighup) true ts).1).1
    else ts

abbrev pub notify : Task → Task
notify q = record q { signal = bit_or q.signal sigchld_bit }

-- One child gets init, in slot 1, as its parent.
unfoldable pub adopt_one : Task → ℕ → ℕ → Table → Table
adopt_one null current p ts =
    let me = deref null (slot ts current) in
    let ts' = change p (λ q. record q { parent = 1 }) ts in
    let child = deref null (slot ts' p) in
    let told = if is_zombie child.state then change 1 notify ts' else ts' in
    if not (same child.pgrp me.pgrp) && same child.session me.session
    then hang_up null me.euid child.pgrp told
    else told

-- The oldest child is `p`: the children become the youngest ones of init.
unfoldable pub join : Task → ℕ → ℕ → Table → Table
join null current p ts =
    let init = deref null (slot ts 1) in
    let first = change p (λ q. record q { osptr = init.cptr }) ts in
    let second =
      change_at (deref null (slot first 1)).cptr (λ q. record q { ysptr = some p }) first in
    let youngest = (deref null (slot second current)).cptr in
    change current (λ q. record q { cptr = none })
      (change 1 (λ q. record q { cptr = youngest }) second)

-- `if (p->p_osptr)`: go on with it, or end.
unfoldable pub go_on : Option ℕ → (ℕ → Table) → Table → Table
go_on none f ts = ts
go_on (some o) f ts = f o

-- The loop over the children from `p` on, with the rounds left.
unfoldable pub adopt : Task → ℕ → ℕ → ℕ → Table → Table
adopt null zero current p ts = ts
adopt null (suc n) current p ts =
    let ts' = adopt_one null current p ts in
    let next : ℕ → Table = λ o. adopt null n current o ts' in
    go_on (deref null (slot ts' p)).osptr next (join null current p ts')

unfoldable pub adopt_all : Task → ℕ → Table → Table
adopt_all null current ts =
    let from : ℕ → Table = λ p. adopt null nr_tasks current p ts in
    go_on (deref null (slot ts current)).cptr from ts

-- `(*p)->tty = -1` for the session, from the last slot down to 1.
unfoldable pub drop_tty : Task → ℤ → ℕ → Table → Table
drop_tty null session zero ts = ts
drop_tty null session (suc i) ts = drop_tty null session i (
    if same (deref null (slot ts (suc i))).session session
    then change (suc i) (λ q. record q { tty = negsuc 0 }) ts
    else ts)

-- The fields of `struct tty_struct` that an exit changes.
pub record Tty : Type 0 where
  pub pgrp : ℤ
  pub session : ℤ

-- `TTY_TABLE(nr)`
abbrev pub tty_index : ℕ → ℕ → ℕ
tty_index fg_console nr = if nr == 0 then fg_console else if ltb nr 64 then nr - 1 else nr

-- A session leader gives up its terminal.
unfoldable pub leave_session : Task → ℕ → ℕ → (ℕ → Tty) → Table → (ℕ → Tty) × Table
leave_session null fg_console current ttys ts =
    let me = deref null (slot ts current) in
    let i = tty_index fg_console (pos_part me.tty) in
    let hung =
      (if ltb_ℤ (pos 0) (ttys i).pgrp
        then (kill_pg null me.euid (ttys i).pgrp (pos sighup) true ts).1
        else ts) in
    let none_left : Tty = record { pgrp = pos 0; session = pos 0 } in
    if ltb_ℤ me.tty (pos 0) then (ttys, drop_tty null me.session (nr_tasks - 1) ts) else (
      λ k. if k == i then none_left else ttys k,
      drop_tty null (deref null (slot hung current)).session (nr_tasks - 1) hung,
    )

-- `do_exit` from `current->state = TASK_ZOMBIE` to the signal for the parent.
unfoldable pub announce : Task → ℕ → ℤ → Table → Table
announce null current code ts =
    let dead = change current (λ q. record q { state = TaskState.zombie; exit_code = code }) ts in
    let me = deref null (slot dead current) in
    let parent = deref null (slot dead me.parent) in
    change me.parent notify (
      if not (same parent.pgrp me.pgrp) && same parent.session me.session
      then hang_up null me.euid me.pgrp dead
      else dead)

-- The rest of `do_exit`, to its call of `schedule`. What it gives back first, the memory, the files
-- and the inodes of the process, is not modelled, nor is the owner of the coprocessor.
unfoldable pub do_exit : Task → ℕ → ℕ → ℤ → (ℕ → Tty) → Table → (ℕ → Tty) × Table
do_exit null fg_console current code ttys ts =
    let given = adopt_all null current (announce null current code ts) in
    if (deref null (slot given current)).leader
    then leave_session null fg_console current ttys given
    else (ttys, given)

-- `sys_exit`
unfoldable pub sys_exit : Task → ℕ → ℕ → ℤ → (ℕ → Tty) → Table → (ℕ → Tty) × Table
sys_exit null fg_console current error_code ttys ts =
    do_exit null fg_console current (pos (to_u32 error_code % 2 ^ 8 * 2 ^ 8)) ttys ts
