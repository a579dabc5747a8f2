-- ===== src/Sched/Wakeups.antt =====
-- The first loop of `schedule`: alarms, timeouts and the signals that wake a task.
use mathlib.Core.Path.{subst}
use linux.Common.{
  ℕ, ◌-◌, ◌^◌, min, ◌<◌, ◌≡◌, refl, ◌∙◌, ◌⊎◌, Option, none, some, Bool, true, ◌&&◌, ◌||◌, arith,
  ltb, ◌==◌, ◌!=◌, if◌then◌else◌, holds_below, holds-of_below, ==_iff, get_elem?, bit_and,
}
use linux.Common.Bits.{bit, bit-bit_and, bit_not, bit_not32, bit-le-one, bit_and-le}
use linux.Sched.{
  Task, TaskState, Table, is_interruptible, check_timeout, check_alarm, check_signal, check_task,
  deliverable, blockable, sigkill, sigstop, schedule, for_tasks, recharge,
}
use linux.Sched.Choice.{
  IsTimed, AllTimed, IsChoice, OutOfTime, get_elem?-for_tasks, choose-IsChoice,
}

abbrev pub timed_out : ℕ → Task → Bool
timed_out jiffies t = t.timeout != 0 && ltb t.timeout jiffies

-- Only an interruptible task changes its state here, to running: if its timeout has passed, or if a
-- signal, the alarm's included, can be delivered to it.
pub check_task-state :
    (jiffies : ℕ) (t : Task)
    → (check_task jiffies t).state ≡ (
        if is_interruptible t.state
          && (timed_out jiffies t || deliverable (check_alarm jiffies t) != 0)
        then TaskState.running
        else t.state)
unfolding check_task check_timeout check_alarm check_signal is_interruptible
check_task-state jiffies t = ground arith

check_task-priority : (jiffies : ℕ) (t : Task) → (check_task jiffies t).priority ≡ t.priority
unfolding check_task check_timeout check_alarm check_signal
check_task-priority jiffies t = ground arith

check_task-counter : (jiffies : ℕ) (t : Task) → (check_task jiffies t).counter ≡ t.counter
unfolding check_task check_timeout check_alarm check_signal
check_task-counter jiffies t = ground arith

-- The pass leaves a task's counter and its priority alone.
check_task-IsTimed : (jiffies : ℕ) (t : Task) → IsTimed t → IsTimed (check_task jiffies t)
check_task-IsTimed jiffies t (k, p, e, f, l, h) =
    (k, p, check_task-counter jiffies t ∙ e, check_task-priority jiffies t ∙ f, l, h)

abbrev unblockable : ℕ → Bool
unblockable i = i == sigkill - 1 || i == sigstop - 1

-- The bits of `_BLOCKABLE`.
blockable_table : holds_below 32 (λ i. bit i blockable == (if unblockable i then 0 else 1)) ≡ true
unfolding holds_below bit
blockable_table = refl

bit-blockable : (i : ℕ) → i < 32 → bit i blockable ≡ (if unblockable i then 0 else 1)
bit-blockable i h = (==_iff _ _).0 (
    holds-of_below 32 (λ i. bit i blockable == (if unblockable i then 0 else 1)) i blockable_table
      h)

-- For a 32-bit mask of blocked signals, a signal counts as deliverable exactly if it is pending
-- and not blocked, or pending and SIGKILL or SIGSTOP.
pub bit-deliverable :
    (t : Task) (i : ℕ)
    → t.blocked < 2 ^ 32
    → i < 32
    → bit i (deliverable t)
      ≡ (if unblockable i then bit i t.signal else min (bit i t.signal) (1 - bit i t.blocked))
unfolding deliverable
bit-deliverable t i h k =
    let masked = bit_and blockable t.blocked in
    let small : masked < 2 ^ 32 = omega (arith, bit_and-le blockable t.blocked) in
    ground (
      arith,
      bit-bit_and i t.signal (bit_not32 masked),
      bit_not 32 i masked small k,
      bit-bit_and i blockable t.blocked,
      bit-blockable i k,
      bit-le-one i t.signal,
      bit-le-one i t.blocked,
    )

AllTimed-check :
    (jiffies : ℕ) (tasks : Table) → AllTimed tasks → AllTimed (for_tasks (check_task jiffies) tasks)
AllTimed-check jiffies tasks h j u k e = go (get_elem? tasks j) refl
  where
    go : (slot : Option (Option Task)) → get_elem? tasks j ≡ slot → IsTimed u
    go none q = absurd (ground (arith, get_elem?-for_tasks (check_task jiffies) tasks j k))
    go (some none) q = absurd (ground (arith, get_elem?-for_tasks (check_task jiffies) tasks j k))
    go (some (some t)) q =
        let same : check_task jiffies t ≡ u =
          ground (arith, get_elem?-for_tasks (check_task jiffies) tasks j k) in
        subst IsTimed same (check_task-IsTimed jiffies t (h j t k q))

-- `schedule` always comes to a decision. With `checked` the table after alarms, timeouts and signals,
-- the next task can run, has time left and has at least as much of it as any other that can run; or
-- none can run, and the next task is task 0. The counters are given out anew only if every task that
-- can run is out of time. No counter is negative, every priority is positive, and giving a task time
-- anew does not overflow.
pub schedule-IsChoice :
    (jiffies : ℕ) (tasks : Table)
    → AllTimed tasks
    → let checked = for_tasks (check_task jiffies) tasks in
      (tasks' : Table) × (next : ℕ) × (schedule jiffies tasks ≡ some (tasks', next))
      × IsChoice tasks' next
      × ((tasks' ≡ checked) ⊎ (OutOfTime checked × (tasks' ≡ for_tasks recharge checked)))
unfolding schedule
schedule-IsChoice jiffies tasks h =
    choose-IsChoice (for_tasks (check_task jiffies) tasks) (AllTimed-check jiffies tasks h)
