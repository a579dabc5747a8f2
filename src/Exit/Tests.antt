-- ===== src/Exit/Tests.antt =====
-- Signals to concrete processes.
use linux.Common.{ℕ, true, false, none, some, [], ◌∷◌, ◌≡◌, length, refl, inl, inr, arith}
use linux.Common.Bits.{bit}
use linux.Common.Int.{pos, negsuc, to_u32}
use linux.Sched.{TaskState}
use linux.Exit.{
  Task, Table, slot, is_stopped, send_sig, out_of_range, kill_pg, proc_from, kill_proc, sys_kill,
  stopped_from, has_stopped_jobs, eperm,
}
use linux.Exit.Tree.{release, child_of, link_child, do_exit, Tty}
use linux.Exit.Wait.{echild, Waited, is_asked, is_reported, sys_waitpid}
use linux.Exit.Siblings.{IsTree}
use linux.Exit.Release.{release-IsTree}
use linux.Exit.Birth.{link_child-IsTree}
use linux.Exit.Reap.{
  Chain, GoesOn, IsPassed, IsOverlooked, Each, sys_waitpid-echild, sys_waitpid-reaps,
}
use linux.Exit.Line.{parent_of, older_of, Line}
use linux.Exit.Orphans.{do_exit-adopts}
use linux.Exit.Protection.{sys_kill-protects}
use linux.Exit.Delivery.{IsAllowed, kill_pg-delivers}

-- A process of user `euid` in group and session 7, whose parent is in slot 1.
abbrev process : ℕ → ℕ → TaskState → Task
process id euid state = record {
  state = state;
  signal = 0;
  exit_code = pos 0;
  sa_handler = λ n. 0;
  euid = euid;
  pid = pos id;
  pgrp = pos 7;
  session = pos 7;
  leader = false;
  parent = 1;
  cptr = none;
  ysptr = none;
  osptr = none;
  utime = 0;
  stime = 0;
  cutime = 0;
  cstime = 0;
  blocked = 0;
  tty = pos 0;
}

abbrev zeros : Task
zeros = record {
  state = TaskState.running;
  signal = 0;
  exit_code = pos 0;
  sa_handler = λ n. 0;
  euid = 0;
  pid = pos 0;
  pgrp = pos 0;
  session = pos 0;
  leader = false;
  parent = 0;
  cptr = none;
  ysptr = none;
  osptr = none;
  utime = 0;
  stime = 0;
  cutime = 0;
  cstime = 0;
  blocked = 0;
  tty = negsuc 0;
}

abbrev shell : Task
shell = process 7 5 TaskState.running

abbrev job : Task
job = process 8 5 TaskState.stopped

abbrev other_job : Task
other_job = process 9 6 TaskState.running

abbrev tasks : Table
tasks = none ∷ none ∷ some shell ∷ some job ∷ none ∷ some other_job ∷ []

jobs_run : has_stopped_jobs zeros tasks (pos 7) ≡ true
unfolding has_stopped_jobs stopped_from is_stopped
jobs_run = refl

-- Slot 5 belongs to another user: SIGKILL to it is refused.
refused_runs : (sys_kill zeros shell (pos 9) (pos 9) tasks).0 ≡ eperm
unfolding sys_kill kill_proc proc_from send_sig out_of_range
refused_runs = refl

shell-IsAllowed : IsAllowed 5 false job
unfolding IsAllowed
shell-IsAllowed = inr (inl refl)

sys_kill-protects_example :
    slot (sys_kill zeros shell (negsuc 6) (pos 9) tasks).1 5 ≡ some other_job
sys_kill-protects_example =
    sys_kill-protects zeros shell (negsuc 6) (pos 9) tasks 5 other_job (λ e. omega arith)
      (λ e. omega arith) refl

kill_pg-delivers_example :
    (ts' : Table) × (t' : Task) × (kill_pg zeros 5 (pos 7) (pos 9) false tasks ≡ (pos 0, ts'))
    × (slot ts' 3 ≡ some t')
    × (bit 8 t'.signal ≡ 1)
kill_pg-delivers_example =
    kill_pg-delivers zeros 5 (pos 7) 8 false tasks 3 job (omega arith) (omega arith) (omega arith)
      (omega arith) refl refl (λ e. omega arith) shell-IsAllowed

-- A family: task 0, init in slot 1, a shell in slot 2 and its job in slot 3.
abbrev root : Task
root = record zeros { parent = 0 }

abbrev founder : Table
founder = some root ∷ none ∷ none ∷ none ∷ []

abbrev with_init : Table
with_init = link_child 1 0 (pos 1) root founder

abbrev init : Task
init = child_of 0 (pos 1) root

abbrev with_shell : Table
with_shell = link_child 2 1 (pos 2) init with_init

founder-IsTree : IsTree (slot founder)
founder-IsTree = record {
  older = λ i o t e h. absurd (ground (arith, slot));
  younger = λ i y t e h. absurd (ground (arith, slot));
  youngest = λ i c t e h. absurd (ground (arith, slot));
  first = λ i t l e h. absurd (ground (arith, slot));
}

with_init-IsTree : IsTree (slot with_init)
with_init-IsTree =
    (link_child-IsTree 1 0 (pos 1) root founder founder-IsTree refl refl (omega arith)).0

init_there : slot with_init 1 ≡ some init
init_there = (link_child-IsTree 1 0 (pos 1) root founder founder-IsTree refl refl (omega arith)).1

free_slot : slot with_init 2 ≡ none
unfolding link_child
free_slot = refl

room : length with_init ≡ 4
unfolding link_child
room = refl

link_child-IsTree_example :
    IsTree (slot with_shell) × (slot with_shell 2 ≡ some (child_of 1 (pos 2) init))
link_child-IsTree_example =
    link_child-IsTree 2 1 (pos 2) init with_init with_init-IsTree init_there free_slot
      (omega (arith, room))

with_shell-IsTree : IsTree (slot with_shell) × (slot with_shell 2 ≡ some (child_of 1 (pos 2) init))
with_shell-IsTree =
    link_child-IsTree 2 1 (pos 2) init with_init with_init-IsTree init_there free_slot
      (omega (arith, room))

no_children : (child_of 1 (pos 2) init).cptr ≡ none
unfolding child_of
no_children = refl

release-IsTree_example :
    (ts' : Table) × (release 1 2 with_shell ≡ some ts') × (slot ts' 2 ≡ none) × IsTree (slot ts')
release-IsTree_example =
    release-IsTree 1 2 (child_of 1 (pos 2) init) with_shell with_shell-IsTree.0 with_shell-IsTree.1
      no_children (omega arith) (omega arith) (λ e. omega (arith, e))

-- The shell in slot 2 has a stopped child in slot 4, and an older one in slot 3 that is dead.
abbrev parent : Task
parent = record shell { cptr = some 4 }

abbrev stopped_child : Task
stopped_child = record job { parent = 2; osptr = some 3 }

abbrev dead_child : Task
dead_child = record (process 9 5 TaskState.zombie) {
  parent = 2;
  ysptr = some 4;
  exit_code = pos 256;
}

abbrev family : Table
family = some root ∷ some root ∷ some parent ∷ some dead_child ∷ some stopped_child ∷ []

children-Chain : Chain zeros family (some 4) (4 ∷ 3 ∷ [])
unfolding Chain
children-Chain = (refl, (refl, tt))

stopped-IsPassed : Each (IsPassed zeros 2 (negsuc 0) 0 family) (4 ∷ [])
unfolding Each IsPassed GoesOn is_reported
stopped-IsPassed = (inr refl, tt)

dead_asked : is_asked (negsuc 0) parent dead_child ≡ true
unfolding is_asked
dead_asked = refl

sys_waitpid-reaps_example :
    (ts' : Table) × (sys_waitpid zeros 2 (negsuc 0) 0 [] family
      ≡ Waited.returned (pos 9) (some (to_u32 (pos 256))) ts')
    × (slot ts' 3 ≡ none)
sys_waitpid-reaps_example =
    sys_waitpid-reaps zeros 2 (negsuc 0) 0 (4 ∷ []) 3 [] dead_child [] family children-Chain
      (omega arith) stopped-IsPassed refl dead_asked refl (omega arith) (omega arith)
      (λ e. omega (arith, e))

-- Only the stopped child is left.
abbrev stopped_family : Table
stopped_family =
    some root ∷ some root ∷ some parent ∷ none ∷ some (record stopped_child { osptr = none }) ∷ []

stopped-Chain : Chain zeros stopped_family (some 4) (4 ∷ [])
unfolding Chain
stopped-Chain = (refl, tt)

stopped-IsOverlooked : Each (IsOverlooked zeros 2 (negsuc 0) 0 stopped_family) (4 ∷ [])
unfolding Each IsOverlooked is_reported
stopped-IsOverlooked = (inr (refl, refl), tt)

sys_waitpid-echild_example :
    sys_waitpid zeros 2 (negsuc 0) 0 [] stopped_family ≡ Waited.returned echild none stopped_family
sys_waitpid-echild_example =
    sys_waitpid-echild zeros 2 (negsuc 0) 0 (4 ∷ []) [] stopped_family stopped-Chain (omega arith)
      stopped-IsOverlooked

children-Line : Line family (some 4) (4 ∷ 3 ∷ [])
unfolding Line older_of
children-Line = (refl, (some 3, refl, (refl, (none, refl, tt))))

abbrev ttys : ℕ → Tty
ttys i = record { pgrp = pos 7; session = pos 7 }

do_exit-adopts_example :
    Each (λ q. parent_of (do_exit zeros 0 2 (pos 0) ttys family).1 q ≡ some 1) (4 ∷ 3 ∷ [])
do_exit-adopts_example =
    do_exit-adopts zeros 0 2 (pos 0) ttys family parent (4 ∷ 3 ∷ []) refl children-Line
      (omega arith)
