-- ===== src/Exit/Wait.antt =====
-- kernel/exit.c: `sys_waitpid`.
use linux.Common.{
  ℕ, zero, suc, ◌+◌, ◌*◌, ◌%◌, ◌^◌, Bool, true, false, not, ◌&&◌, ◌||◌, Option, none, some, List,
  [], ◌∷◌, ◌!=◌, if◌then◌else◌, bit_and, bit_or,
}
use linux.Common.Bits.{bit_not32}
use linux.Common.Int.{ℤ, pos, negsuc, ◌-ℤ◌, ltb_ℤ, to_u32, wrap32}
use linux.Sched.{TaskState, nr_tasks}
use linux.Exit.{Task, Table, slot, deref, same}
use linux.Exit.Tree.{change, release, sigchld_bit}

abbrev pub wnohang : ℕ
wnohang = 1

abbrev pub wuntraced : ℕ
wuntraced = 2

abbrev pub echild : ℤ
echild = negsuc 9

abbrev pub restart : ℤ
restart = negsuc 511

-- The three tests on `pid`. -1 stands for any child and a pid below it for the group -pid, where the
-- comment in the program has these the other way round.
unfoldable pub is_asked : ℤ → Task → Task → Bool
is_asked pid current p =
    if ltb_ℤ (pos 0) pid
    then same p.pid pid
    else if same pid (pos 0)
    then same p.pgrp current.pgrp
    else same pid (negsuc 0) || same p.pgrp (wrap32 (pos 0 -ℤ pid))

-- How a call ends: the result, the word stored for the caller, and the tasks; or the caller sleeps.
pub data Waited : Type 0 where
  returned : ℤ → Option ℕ → Table → Waited
  asleep : Waited
  panicked : Waited

-- A pass over the children that has come to its end, with `flag`, or has returned.
pub data Passed : Type 0 where
  ended : Bool → Passed
  left : Waited → Passed

-- A zombie's times go to its parent, and its slot is released.
unfoldable pub reap : ℕ → ℕ → Task → Table → Waited
reap current p t ts =
    let ts' =
      change current
        (λ q. record q {
          cutime = (q.cutime + t.utime) % 2 ^ 32;
          cstime = (q.cstime + t.stime) % 2 ^ 32;
        })
        ts in
    elim (release current p ts') [
      | none ↦ Waited.panicked
      | some ts'' ↦ Waited.returned t.pid (some (to_u32 t.exit_code)) ts''
    ]

-- A stopped child that has not been reported.
unfoldable pub is_reported : ℕ → Task → Bool
is_reported options t = bit_and options wuntraced != 0 && not (same t.exit_code (pos 0))

unfoldable pub report : ℕ → Task → Table → Waited
report p t ts =
    Waited.returned t.pid (some (to_u32 t.exit_code * 2 ^ 8 % 2 ^ 32 + 127))
      (change p (λ q. record q { exit_code = pos 0 }) ts)

-- What one child that is asked for does to the pass: `rest` goes on, with the flag.
unfoldable pub look_at : ℕ → ℕ → ℕ → Task → TaskState → Table → Bool → (Bool → Passed) → Passed
look_at current options p t TaskState.stopped ts flag rest =
    if is_reported options t then Passed.left (report p t ts) else rest flag
look_at current options p t TaskState.zombie ts flag rest = Passed.left (reap current p t ts)
look_at current options p t _ ts flag rest = rest true

-- The loop over the children from `p` on, with the rounds left: one for each slot is enough.
unfoldable pub pass : Task → ℕ → ℤ → ℕ → ℕ → Option ℕ → Bool → Table → Passed
pass null current pid options n none flag ts = Passed.ended flag
pass null current pid options zero (some p) flag ts = Passed.ended flag
pass null current pid options (suc n) (some p) flag ts =
    let t = deref null (slot ts p) in
    let rest : Bool → Passed = λ f. pass null current pid options n t.osptr f ts in
    if is_asked pid (deref null (slot ts current)) t
    then look_at current options p t t.state ts flag rest
    else rest flag

-- Is there a signal that is not blocked, other than SIGCHLD?
unfoldable pub is_interrupted : Task → Bool
is_interrupted t = bit_and t.signal (bit_not32 (bit_or t.blocked sigchld_bit)) != 0

-- The list holds the tasks as they are when the caller wakes up, with the mask it had before.
unfoldable pub sys_waitpid : Task → ℕ → ℤ → ℕ → List Table → Table → Waited
sys_waitpid null current pid options [] ts =
    elim (pass null current pid options nr_tasks (deref null (slot ts current)).cptr false ts) [
      | left w ↦ w
      | ended flag ↦
          if not flag
          then Waited.returned echild none ts
          else if bit_and options wnohang != 0
          then Waited.returned (pos 0) none ts
          else Waited.asleep
    ]
sys_waitpid null current pid options (w ∷ ws) ts =
    let old = (deref null (slot ts current)).blocked in
    let awake = change current (λ q. record q { blocked = old }) w in
    let repeat = sys_waitpid null current pid options ws awake in
    elim (pass null current pid options nr_tasks (deref null (slot ts current)).cptr false ts) [
      | left r ↦ r
      | ended flag ↦
          if not flag
          then Waited.returned echild none ts
          else if bit_and options wnohang != 0
          then Waited.returned (pos 0) none ts
          else if is_interrupted (deref null (slot awake current))
          then Waited.returned restart none awake
          else repeat
    ]
