-- ===== src/Sched.antt =====
-- kernel/sched.c: the task table, `schedule` and the system calls on the current task. The wait
-- queues of `sleep_on` and the kernel timers are the children `WaitQueue` and `Timer`.
pub mod Select
pub mod Choice
pub mod Wakeups
pub mod Counters
pub mod WaitQueue
pub mod Timer
mod Tests
use linux.Common.{
  ℕ, zero, suc, ◌+◌, ◌-◌, ◌*◌, ◌/◌, ◌%◌, ◌^◌, bit_and, bit_or, Option, none, some, List, [], ◌∷◌,
  map, Bool, true, false, ◌&&◌, ltb, ◌==◌, ◌!=◌, if◌then◌else◌, get_elem?,
}
use linux.Common.Bits.{bit_not32}
use linux.Common.Int.{ℤ, pos, negsuc, ltb_ℤ, leb_ℤ, ◌+ℤ◌, ◌-ℤ◌, wrap32, pos_part}
use mathlib.Core.Option

abbrev pub nr_tasks : ℕ
nr_tasks = 64

abbrev pub hz : ℕ
hz = 100

abbrev pub sigkill : ℕ
sigkill = 9

abbrev pub sigalrm : ℕ
sigalrm = 14

abbrev pub sigstop : ℕ
sigstop = 19

pub data TaskState : Type 0 where
  running interruptible uninterruptible zombie stopped : TaskState

unfoldable pub is_running : TaskState → Bool
is_running TaskState.running = true
is_running _ = false

unfoldable pub is_interruptible : TaskState → Bool
is_interruptible TaskState.interruptible = true
is_interruptible _ = false

-- The fields of `struct task_struct` that the scheduler reads. `counter` and `priority` are of type
-- `long`, and the sums of the functions below wrap at 32 bits.
pub record Task : Type 0 where
  pub state : TaskState
  pub counter : ℤ
  pub priority : ℤ
  pub signal : ℕ
  pub blocked : ℕ
  pub timeout : ℕ
  pub alarm : ℕ

abbrev pub Table : Type 0
Table = List (Option Task)

-- `_S(nr)` and `_BLOCKABLE`
abbrev pub signal_bit : ℕ → ℕ
signal_bit nr = 2 ^ (nr - 1)

abbrev pub blockable : ℕ
blockable = bit_not32 (bit_or (signal_bit sigkill) (signal_bit sigstop))

unfoldable pub check_timeout : ℕ → Task → Task
unfolding is_interruptible
check_timeout jiffies t =
    if t.timeout != 0 && ltb t.timeout jiffies
    then record t {
      timeout = 0;
      state = if is_interruptible t.state then TaskState.running else t.state;
    }
    else t

unfoldable pub check_alarm : ℕ → Task → Task
check_alarm jiffies t =
    if t.alarm != 0 && ltb t.alarm jiffies
    then record t { signal = bit_or t.signal (signal_bit sigalrm); alarm = 0 }
    else t

-- `(*p)->signal & ~(_BLOCKABLE & (*p)->blocked)`
unfoldable pub deliverable : Task → ℕ
deliverable t = bit_and t.signal (bit_not32 (bit_and blockable t.blocked))

unfoldable pub check_signal : Task → Task
unfolding is_interruptible deliverable
check_signal t =
    if deliverable t != 0 && is_interruptible t.state
    then record t { state = TaskState.running }
    else t

-- The body of the first loop of `schedule`.
unfoldable pub check_task : ℕ → Task → Task
check_task jiffies t = check_signal (check_alarm jiffies (check_timeout jiffies t))

-- A loop over the tasks from the last down to the one behind task 0. Each round changes one task.
unfoldable pub for_tasks : (Task → Task) → Table → Table
for_tasks f [] = []
for_tasks f (first ∷ rest) = first ∷ map (Option.map f) rest

-- The body of the search at slot `i`: a runnable task with more time left than `c` is the next.
unfoldable pub consider : Option (Option Task) → ℕ → ℤ × ℕ → ℤ × ℕ
unfolding is_running
consider (some (some t)) i (c, next) =
    if is_running t.state && ltb_ℤ c t.counter then (t.counter, i) else (c, next)
consider (some none) i (c, next) = (c, next)
consider none i (c, next) = (c, next)

-- `while (--i)`: the slots `i`, `i - 1`, …, 1, with `c` and `next`.
unfoldable pub scan : ℕ → Table → ℤ × ℕ → ℤ × ℕ
scan zero tasks best = best
scan (suc i) tasks best = scan i tasks (consider (get_elem? tasks (suc i)) (suc i) best)

-- `>> 1`, which keeps the sign.
abbrev pub half : ℤ → ℤ
half (pos n) = pos (n / 2)
half (negsuc n) = negsuc (n / 2)

unfoldable pub recharge : Task → Task
recharge t = record t { counter = wrap32 (half t.counter +ℤ t.priority) }

-- `while (1)`, on fuel; `c` is a truth value.
unfoldable pub choose : ℕ → Table → Option (Table × ℕ)
choose zero tasks = none
choose (suc f) tasks =
    let (c, next) = scan (nr_tasks - 1) tasks (negsuc 0, 0) in
    let again = choose f (for_tasks recharge tasks) in
    elim c [ pos n ↦ if n != 0 then some (tasks, next) else again | negsuc n ↦ some (tasks, next) ]

-- `schedule` up to `switch_to(next)`.
pub schedule : ℕ → Table → Option (Table × ℕ)
schedule jiffies tasks = choose 2 (for_tasks (check_task jiffies) tasks)

-- `sys_alarm` on the current task: the seconds that were left of the old alarm, and the task.
-- `old - jiffies` is a difference of unsigned words.
pub sys_alarm : ℕ → ℤ → Task → ℕ × Task
sys_alarm jiffies seconds t = (
  if t.alarm != 0 then (2 ^ 32 + t.alarm - jiffies) % 2 ^ 32 / hz else 0,
  record t {
    alarm = if ltb_ℤ (pos 0) seconds then (jiffies + hz * pos_part seconds) % 2 ^ 32 else 0;
  },
)

-- `sys_nice`: a change of the priority that would make it 0 or less is ignored. A negative increment
-- makes it as large as it likes.
pub sys_nice : ℤ → Task → Task
sys_nice increment t =
    let p = wrap32 (t.priority -ℤ increment) in
    if ltb_ℤ (pos 0) p then record t { priority = p } else t
