-- ===== src/Sched/WaitQueue.antt =====
-- `__sleep_on` and `wake_up` of kernel/sched.c on one wait queue. The queue is the variable `*p` and
-- the local variable `tmp` of every task that is inside `__sleep_on`; the tasks are interleaved in
-- any order. `resume` is what a task runs from its return out of `schedule` to the next call of it,
-- or to the end of `__sleep_on`.
pub mod Chain
pub mod Cascade
use linux.Common.{
  ℕ, ◌≡◌, ◌≢◌, ◌⊎◌, Option, none, some, Bool, true, false, ◌==◌, ◌&&◌, if◌then◌else◌,
}
use linux.Sched.{TaskState, is_running}

pub record Queue : Type 0 where
  pub head : Option ℕ
  pub tmp : ℕ → Option ℕ
  pub state : ℕ → TaskState
  pub inside : ℕ → Bool

-- `f` with a new value at `i`.
unfoldable pub update {ℓ} : {A : Type ℓ} → (ℕ → A) → ℕ → A → ℕ → A
update f i v j = if j == i then v else f j

-- From the entry to the call of `schedule`. Task 0 must not sleep.
unfoldable pub sleep : ℕ → TaskState → Queue → Queue
sleep t state q = record q {
  tmp = update q.tmp t q.head;
  head = some t;
  state = update q.state t state;
  inside = update q.inside t true;
}

-- `(**p).state = 0`, if there is a `*p`.
unfoldable pub set_running : Option ℕ → (ℕ → TaskState) → ℕ → TaskState
set_running none state = state
set_running (some t) state = update state t TaskState.running

unfoldable pub wake_up : Queue → Queue
wake_up q = record q { state = set_running q.head q.state }

-- `*p && *p != current`
unfoldable pub other_head : Option ℕ → ℕ → Bool
other_head none t = false
other_head (some h) t = if h == t then false else true

unfoldable pub resume : ℕ → Queue → Queue
resume t q =
    if other_head q.head t
    then record q { state = update (set_running q.head q.state) t TaskState.uninterruptible }
    else record q {
      head = q.tmp t;
      state = set_running (q.tmp t) q.state;
      inside = update q.inside t false;
    }

-- A signal or a timeout that `schedule` finds at an interruptible task.
unfoldable pub interrupt : ℕ → Queue → Queue
interrupt t q = record q { state = update q.state t TaskState.running }

pub data Step (q : Queue) : Queue → Type 0 where
  sleeps :
      (t : ℕ) (state : TaskState)
      → t ≢ 0
      → q.inside t ≡ false
      → (state ≡ TaskState.interruptible) ⊎ (state ≡ TaskState.uninterruptible)
      → Step q (sleep t state q)
  wakes : Step q (wake_up q)
  resumes : (t : ℕ) → q.inside t ≡ true → is_running (q.state t) ≡ true → Step q (resume t q)
  interrupts : (t : ℕ) → q.state t ≡ TaskState.interruptible → Step q (interrupt t q)

-- Before anyone sleeps.
pub record IsStart (q : Queue) : Type 0 where
  pub no_head : q.head ≡ none
  pub nobody : (t : ℕ) → q.inside t ≡ false

pub data Reach : Queue → Type 0 where
  start : {q : Queue} → IsStart q → Reach q
  next : {q r : Queue} → Reach q → Step q r → Reach r
