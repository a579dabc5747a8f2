-- ===== src/Signal.antt =====
-- kernel/signal.c: the signal mask, the table of actions, and `do_signal`, which the assembly code
-- calls for a pending signal on the way back to user mode.
pub mod Actions
pub mod Frame
pub mod Masks
mod Tests
use linux.Common.{
  ℕ, zero, suc, ◌+◌, ◌-◌, ◌*◌, ◌%◌, ◌^◌, bit_and, bit_or, List, [], ◌∷◌, ◌++◌, Bool, true, false,
  ◌&&◌, ◌||◌, ltb, ◌==◌, ◌!=◌, if◌then◌else◌, get_or, set, length,
}
use linux.Common.Bits.{bit_not32}
use linux.Common.Int.{ℤ, pos, negsuc, ltb_ℤ, pos_part, from_u32}
use linux.Sched.{TaskState, sigkill, sigstop, signal_bit}

abbrev pub sigchld : ℕ
sigchld = 17

abbrev pub sigcont : ℕ
sigcont = 18

abbrev pub sigtstp : ℕ
sigtstp = 20

abbrev pub sigttin : ℕ
sigttin = 21

abbrev pub sigttou : ℕ
sigttou = 22

abbrev pub sa_nocldstop : ℕ
sa_nocldstop = 1

abbrev pub sa_interrupt : ℕ
sa_interrupt = 2 ^ 29

abbrev pub sa_nomask : ℕ
sa_nomask = 2 ^ 30

abbrev pub sa_oneshot : ℕ
sa_oneshot = 2 ^ 31

-- The machine word of `-code`.
abbrev pub error_word : ℕ → ℕ
error_word code = 2 ^ 32 - code

abbrev pub eintr : ℕ
eintr = 4

abbrev pub erestartsys : ℕ
erestartsys = 512

abbrev pub erestartnointr : ℕ
erestartnointr = 513

abbrev pub einval : ℤ
einval = negsuc 21

-- `struct sigaction`. The handlers 0 and 1 are SIG_DFL and SIG_IGN.
pub record Sigaction : Type 0 where
  pub sa_handler : ℕ
  pub sa_mask : ℕ
  pub sa_flags : ℕ
  pub sa_restorer : ℕ

abbrev pub default_action : Sigaction
default_action = record { sa_handler = 0; sa_mask = 0; sa_flags = 0; sa_restorer = 0 }

-- The fields of `struct task_struct` that belong to signals.
pub record Process : Type 0 where
  pub state : TaskState
  pub signal : ℕ
  pub blocked : ℕ
  pub exit_code : ℕ
  pub sigaction : List Sigaction

-- `sigaction[signum - 1]`
abbrev pub action_of : ℕ → Process → Sigaction
action_of signum p = get_or p.sigaction (signum - 1) default_action

abbrev pub set_action : ℕ → Sigaction → Process → Process
set_action signum action p = record p { sigaction = set p.sigaction (signum - 1) action }

-- `newmask & ~(1<<(SIGKILL-1)) & ~(1<<(SIGSTOP-1))`; gives the old mask.
pub sys_ssetmask : ℕ → Process → ℕ × Process
sys_ssetmask newmask p = (
  p.blocked,
  record p {
    blocked =
        bit_and (bit_and newmask (bit_not32 (signal_bit sigkill))) (bit_not32 (signal_bit sigstop));
  },
)

-- The word that goes to the user's `set`.
unfoldable pub sys_sigpending : Process → ℕ
sys_sigpending p = bit_and p.blocked p.signal

-- What `sys_sigsuspend` leaves: its result, and its arguments on the stack, which it writes to.
pub record Suspended : Type 0 where
  pub result : ℤ
  pub restart : ℕ
  pub old_mask : ℕ
  pub current : Process

-- `sys_pause` up to `schedule`.
abbrev pub sys_pause : Process → Process
sys_pause p = record p { state = TaskState.interruptible }

unfoldable pub sys_sigsuspend : ℕ → ℕ → ℕ → Process → Suspended
sys_sigsuspend restart old_mask new p =
    if restart != 0
    then record {
      result = negsuc 3;
      restart = restart;
      old_mask = old_mask;
      current = record p { blocked = old_mask };
    }
    else record {
      result = negsuc 512;
      restart = 1;
      old_mask = p.blocked;
      current = sys_pause (record p { blocked = new });
    }

-- The signals whose action cannot be set.
unfoldable pub is_refused : ℤ → Bool
is_refused signum =
    ltb_ℤ signum (pos 1)
    || ltb_ℤ (pos 32) signum
    || pos_part signum == sigkill
    || pos_part signum == sigstop

-- Gives the old handler, a word as a `long`.
unfoldable pub sys_signal : ℤ → ℕ → ℕ → Process → ℤ × Process
unfolding is_refused
sys_signal signum handler restorer p =
    let n = pos_part signum in
    if is_refused signum then (einval, p) else (
      from_u32 (action_of n p).sa_handler,
      set_action n
          (record {
            sa_handler = handler;
            sa_mask = 0;
            sa_flags = bit_or sa_oneshot sa_nomask;
            sa_restorer = restorer;
          })
          p,
    )

-- The mask that is kept of a new action.
unfoldable pub masked : ℕ → Sigaction → Sigaction
masked n action =
    if bit_and action.sa_flags sa_nomask != 0
    then record action { sa_mask = 0 }
    else record action { sa_mask = bit_or action.sa_mask (signal_bit n) }

-- `action` is what the user's pointer leads to. Besides the result, it gives what goes to
-- `oldaction`, which the caller writes out if the pointer is not NULL.
unfoldable pub sys_sigaction : ℤ → Sigaction → Process → ℤ × Sigaction × Process
unfolding is_refused masked
sys_sigaction signum action p =
    let n = pos_part signum in
    if is_refused signum
    then (einval, default_action, p)
    else (pos 0, action_of n p, set_action n (masked n action) p)

-- The saved registers that `do_signal` reads and writes.
pub record Registers : Type 0 where
  pub eax : ℕ
  pub ecx : ℕ
  pub edx : ℕ
  pub eip : ℕ
  pub eflags : ℕ
  pub esp : ℕ

-- The long words of user memory, by their address.
abbrev pub Memory : Type 0
Memory = ℕ → ℕ

unfoldable pub put_fs_long : ℕ → ℕ → Memory → Memory
put_fs_long val addr memory a = if a == addr then val else memory a

-- `put_fs_long(…, tmp_esp++)`, one after the other.
unfoldable pub put_longs : List ℕ → ℕ → Memory → Memory
put_longs [] tmp_esp memory = memory
put_longs (val ∷ vals) tmp_esp memory =
    put_longs vals (tmp_esp + 4) (put_fs_long val tmp_esp memory)

pub record Machine : Type 0 where
  pub current : Process
  pub parent : Process
  pub registers : Registers
  pub memory : Memory

-- `do_signal` returns 1, returns 0, or calls `do_exit`, which does not return.
pub data Outcome : Type 0 where
  next_signal : Outcome
  handler : Outcome
  exits : ℕ → Outcome

-- An interrupted system call fails with EINTR or is set up to run again.
unfoldable pub restart_call : ℕ → ℕ → ℕ → Registers → Registers
restart_call signr flags orig_eax r =
    if orig_eax != error_word 1
      && (r.eax == error_word erestartsys || r.eax == error_word erestartnointr)
    then (if r.eax == error_word erestartsys
          && (bit_and flags sa_interrupt != 0 || ltb signr sigcont || ltb sigttou signr)
        then record r { eax = error_word eintr }
        else record r { eax = orig_eax; eip = (2 ^ 32 + r.eip - 2) % 2 ^ 32 })
    else r

-- The default action of SIGSTOP, SIGTSTP, SIGTTIN and SIGTTOU.
unfoldable pub stop : ℕ → Machine → Machine
stop signr m =
    let told = (action_of sigchld m.parent).sa_flags in
    record m {
      current = record m.current { state = TaskState.stopped; exit_code = signr };
      parent =
          if bit_and told sa_nocldstop != 0
          then m.parent
          else record m.parent { signal = bit_or m.parent.signal (signal_bit sigchld) };
    }

abbrev pub core_dump : ℕ → ℕ
core_dump signr = 0

-- SIGQUIT, SIGILL, SIGTRAP, SIGIOT, SIGFPE and SIGSEGV
abbrev pub dumps : ℕ → Bool
dumps signr = signr == 3 || signr == 4 || signr == 5 || signr == 6 || signr == 8 || signr == 11

unfoldable pub by_default : ℕ → Machine → Outcome × Machine
unfolding stop
by_default signr m =
    if signr == sigcont || signr == sigchld
    then (Outcome.next_signal, m)
    else if signr == sigstop || signr == sigtstp || signr == sigttin || signr == sigttou
    then (Outcome.next_signal, stop signr m)
    else if dumps signr && core_dump signr != 0
    then (Outcome.exits (bit_or signr 128), m)
    else (Outcome.exits signr, m)

-- What goes on the user's stack, from its new top upwards.
unfoldable pub stacked : ℕ → Sigaction → Process → Registers → List ℕ
stacked signr sa p r =
    sa.sa_restorer ∷ signr ∷ (if bit_and sa.sa_flags sa_nomask != 0 then [] else p.blocked ∷ [])
    ++ r.eax ∷ r.ecx ∷ r.edx ∷ r.eflags ∷ r.eip ∷ []

abbrev pub longs : Sigaction → ℕ
longs sa = if bit_and sa.sa_flags sa_nomask != 0 then 7 else 8

-- `OK, we're invoking a handler`
unfoldable pub invoke : ℕ → Machine → Outcome × Machine
unfolding stacked
invoke signr m =
    let sa = action_of signr m.current in
    let esp = (2 ^ 32 + m.registers.esp - 4 * longs sa) % 2 ^ 32 in
    let left =
      if bit_and sa.sa_flags sa_oneshot != 0
      then set_action signr (record sa { sa_handler = 0 }) m.current
      else m.current in
    (
      Outcome.handler,
      record m {
        current = record left { blocked = bit_or m.current.blocked sa.sa_mask };
        registers = record m.registers { eip = sa.sa_handler; esp = esp };
        memory = put_longs (stacked signr sa m.current m.registers) esp m.memory;
      },
    )

unfoldable pub do_signal : ℕ → ℕ → Machine → Outcome × Machine
do_signal signr orig_eax m =
    let sa = action_of signr m.current in
    let resumed = record m { registers = restart_call signr sa.sa_flags orig_eax m.registers } in
    if sa.sa_handler == 1
    then (Outcome.next_signal, resumed)
    else if sa.sa_handler == 0
    then by_default signr resumed
    else invoke signr resumed
