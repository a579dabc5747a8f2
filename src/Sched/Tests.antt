-- ===== src/Sched/Tests.antt =====
-- The theorems about kernel/sched.c at concrete inputs, and runs of its functions.
use linux.Common.{
  ℕ, false, ◌⊎◌, zero, suc, ◌≡◌, ◌<◌, ◌-◌, ◌^◌, ap, sym, refl, none, some, List, [], ◌∷◌, ◌++◌,
  arith, inr,
}
use linux.Common.Int.{pos, negsuc, ◌+ℤ◌, wrap32, from_u32, to_u32}
use linux.Sched.{
  Task, TaskState, Table, is_running, is_interruptible, consider, scan, recharge, for_tasks,
  check_timeout, check_alarm, check_signal, check_task, deliverable, choose, schedule,
}
use linux.Sched.Choice.{IsChoice, OutOfTime, IsTimed, AllTimed}
use linux.Sched.Wakeups.{schedule-IsChoice}
use linux.Sched.Timer.{Timer, timer, add_timer, queued, sink, expire, tick}
use linux.Sched.Timer.Expiry.{due, before, from, delay, gap, add_timer-due}
use linux.Sched.Timer.Ticks.{ticks, ran_by, left_after, sooner, ticks-due}
use linux.Sched.WaitQueue.{Queue, Reach, start, next, sleep, sleeps, wake_up}
use linux.Sched.WaitQueue.Chain.{IsChain, sleep-IsChain}
use linux.Sched.WaitQueue.Cascade.{Reach-IsChain, wake_up-cascade, run_all, EachRuns}

abbrev busy : ℕ → Task
busy n = record {
  state = TaskState.running;
  counter = pos n;
  priority = pos 15;
  signal = 0;
  blocked = 0;
  timeout = 0;
  alarm = 0;
}

abbrev table : Table
table = some (busy 0) ∷ some (busy 3) ∷ none ∷ some (busy 9) ∷ []

busy-IsTimed : (n : ℕ) (t : Task) → n < 100 → busy n ≡ t → IsTimed t
busy-IsTimed n t l e = (
  n,
  15,
  ap (λ t. t.counter) (sym e),
  ap (λ t. t.priority) (sym e),
  omega arith,
  omega (arith, l),
)

table-AllTimed : AllTimed table
table-AllTimed zero t h e = absurd (omega arith)
table-AllTimed (suc zero) t h e = busy-IsTimed 3 t (omega arith) (ground arith)
table-AllTimed (suc (suc zero)) t h e = absurd (ground arith)
table-AllTimed (suc (suc (suc zero))) t h e = busy-IsTimed 9 t (omega arith) (ground arith)
table-AllTimed (suc (suc (suc (suc n)))) t h e = absurd (ground arith)

schedule_runs : schedule 100 table ≡ some (table, 3)
unfolding schedule choose scan consider is_running for_tasks check_task check_timeout check_alarm
    check_signal deliverable is_interruptible
schedule_runs = refl

schedule-IsChoice_example :
    let checked = for_tasks (check_task 100) table in
    (tasks' : Table) × (next : ℕ) × (schedule 100 table ≡ some (tasks', next))
    × IsChoice tasks' next
    × ((tasks' ≡ checked) ⊎ (OutOfTime checked × (tasks' ≡ for_tasks recharge checked)))
schedule-IsChoice_example = schedule-IsChoice 100 table table-AllTimed

-- The timers of the comment in `add_timer`: due after 3, 5, 9 and 10 ticks.
abbrev chain : List Timer
chain = timer 3 1 ∷ timer 2 2 ∷ timer 4 3 ∷ timer 1 4 ∷ []

-- A timer for 1 tick puts off all of them by 1.
add_timer_runs : add_timer (pos 1) 5 chain ≡ queued (timer 1 5 ∷ chain)
unfolding add_timer sink
add_timer_runs = refl

add_timer-due_example :
    (ts' : List Timer) × (add_timer (pos 6) 5 chain ≡ queued ts')
    × (due 0 ts' ≡ before 6 (due 0 chain) ++ (6, 5) ∷ delay (gap 6 chain) (from 6 (due 0 chain)))
add_timer-due_example = add_timer-due 5 5 chain (omega arith) (omega arith)

ticks-due_example :
    let (ran_, left) = ticks 5 chain in
    (ran_ ≡ ran_by 5 (due 0 chain)) × (due 0 left ≡ sooner 5 (left_after 5 (due 0 chain)))
ticks-due_example = ticks-due 5 chain (omega arith)

ticks_run : ticks 5 chain ≡ (1 ∷ 2 ∷ [], timer 4 3 ∷ timer 1 4 ∷ [])
unfolding ticks tick expire
ticks_run = refl

abbrev empty_queue : Queue
empty_queue = record {
  head = none;
  tmp = λ t. none;
  state = λ t. TaskState.running;
  inside = λ t. false;
}

abbrev one_sleeper : Queue
one_sleeper = sleep 4 TaskState.uninterruptible empty_queue

one_sleeper-Reach : Reach one_sleeper
one_sleeper-Reach =
    next (start (record { no_head = refl; nobody = λ t. refl }))
      (sleeps 4 TaskState.uninterruptible (omega arith) refl (inr refl))

Reach-IsChain_example : (us : List ℕ) × IsChain one_sleeper us
Reach-IsChain_example = Reach-IsChain one_sleeper-Reach

one_sleeper-IsChain : IsChain one_sleeper (4 ∷ [])
one_sleeper-IsChain =
    sleep-IsChain 4 TaskState.uninterruptible [] refl
      (record { linked = refl; members = λ t. refl })

wake_up-cascade_example :
    let woken = wake_up one_sleeper in
    EachRuns (4 ∷ []) woken
    × ((run_all (4 ∷ []) woken).head ≡ none)
    × ((t : ℕ) → (run_all (4 ∷ []) woken).inside t ≡ false)
wake_up-cascade_example = wake_up-cascade (4 ∷ []) one_sleeper-IsChain

-- A task that sleeps with time left, and whose priority sys_nice has made as large as it can be: time
-- anew makes its counter negative.
abbrev nice : Task
nice = record (busy 4) { priority = pos (2 ^ 31 - 1) }

time_overflows : (recharge nice).counter ≡ negsuc (2 ^ 31 - 2)
unfolding recharge ◌+ℤ◌ wrap32 from_u32 to_u32
time_overflows = refl

-- It can run then, but task 0 is chosen.
abbrev overlooked : Table
overlooked = some (busy 0) ∷ some (record nice { counter = negsuc (2 ^ 31 - 2) }) ∷ []

overlooked_runs : schedule 100 overlooked ≡ some (overlooked, 0)
unfolding schedule choose scan consider is_running for_tasks check_task check_timeout check_alarm
    check_signal deliverable is_interruptible
overlooked_runs = refl
