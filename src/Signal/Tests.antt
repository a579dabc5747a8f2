-- ===== src/Signal/Tests.antt =====
-- The theorems about kernel/signal.c at concrete inputs, and runs of its functions.
use linux.Common.{
  ℕ, ◌+◌, ◌*◌, ◌≤◌, bit_and, List, [], ◌∷◌, ◌++◌, false, ◌!=◌, if◌then◌else◌, length, replicate,
  arith, ◌≡◌, refl, max,
}
use linux.Common.Bits.{bit}
use linux.Common.Int.{pos}
use linux.Sched.{TaskState, sigkill, sigstop}
use linux.Signal.{
  Process, Sigaction, Registers, Machine, Outcome, default_action, is_refused, restart_call,
  do_signal, invoke, stacked, put_longs, put_fs_long, longs, error_word, sa_nomask,
}
use linux.Signal.Actions.{Event, happen_all, IsDefault, do_signal-sigkill}
use linux.Signal.Frame.{get_longs, do_signal-stack}

abbrev fresh : Process
fresh = record {
  state = TaskState.running;
  signal = 0;
  blocked = 3;
  exit_code = 0;
  sigaction = replicate 32 default_action;
}

abbrev registers : Registers
registers = record { eax = error_word 512; ecx = 1; edx = 2; eip = 100; eflags = 514; esp = 4000 }

abbrev machine : Process → Machine
machine p = record { current = p; parent = fresh; registers = registers; memory = λ a. 0 }

fresh-IsDefault : IsDefault sigkill fresh
unfolding IsDefault
fresh-IsDefault = refl

fresh-IsDefault_stop : IsDefault sigstop fresh
unfolding IsDefault
fresh-IsDefault_stop = refl

-- The process tries to catch SIGKILL, and catches signal 2.
abbrev tries : List Event
tries = Event.signal (pos 9) 4096 0 ∷ Event.signal (pos 2) 4096 8192 ∷ Event.ssetmask 511 ∷ []

abbrev trier : Process
trier = happen_all tries fresh

do_signal-sigkill_example : (do_signal sigkill 5 (machine trier)).0 ≡ Outcome.exits sigkill
do_signal-sigkill_example = do_signal-sigkill tries fresh 5 (machine trier) fresh-IsDefault refl

abbrev catch : Sigaction
catch = record { sa_handler = 4096; sa_mask = 12; sa_flags = 0; sa_restorer = 8192 }

accepts_2 : is_refused (pos 2) ≡ false
unfolding is_refused
accepts_2 = refl

table_length : length fresh.sigaction ≡ 32
table_length = refl

abbrev catcher : Process
catcher = record fresh { sigaction = default_action ∷ catch ∷ [] }

-- A call that a caught signal interrupts fails with EINTR.
do_signal_runs :
    (do_signal 2 5 (machine catcher)).1.registers
    ≡ record registers { eax = error_word 4; eip = 4096; esp = 3968 }
unfolding do_signal restart_call invoke
do_signal_runs = refl

-- The handler finds EINTR in the place of `eax`.
stack_runs :
    let r = (do_signal 2 5 (machine catcher)).1 in
    get_longs 8 r.registers.esp r.memory ≡ 8192 ∷ 2 ∷ 3 ∷ error_word 4 ∷ 1 ∷ 2 ∷ 514 ∷ 100 ∷ []
unfolding do_signal restart_call invoke get_longs put_longs put_fs_long stacked
stack_runs = refl

do_signal-stack_example :
    let sa = catch in
    let regs = restart_call 2 0 5 registers in
    let r = (do_signal 2 5 (machine catcher)).1 in
    ((do_signal 2 5 (machine catcher)).0 ≡ Outcome.handler)
    × (r.registers.eip ≡ 4096)
    × (r.registers.esp + 4 * longs sa ≡ 4000)
    × (get_longs (longs sa) r.registers.esp r.memory
        ≡ 8192 ∷ 2 ∷ (if bit_and 0 sa_nomask != 0 then [] else 3 ∷ [])
          ++ regs.eax ∷ regs.ecx ∷ regs.edx ∷ regs.eflags ∷ regs.eip ∷ [])
    × ((a : ℕ) → 4000 ≤ a → r.memory a ≡ 0)
    × ((i : ℕ) → bit i r.current.blocked ≡ max (bit i 3) (bit i 12))
do_signal-stack_example =
    do_signal-stack 2 5 (machine catcher) (omega arith) (omega arith) (omega arith)
