-- ===== src/Sched/WaitQueue/Cascade.antt =====
-- One `wake_up` wakes every sleeper in turn.
use linux.Common.{
  ℕ, ◌≡◌, sym, ◌∙◌, Option, none, some, List, [], ◌∷◌, true, false, arith, ◌==◌, Bool-cases, inl,
  inr, ==_iff,
}
use linux.Sched.{TaskState}
use linux.Sched.WaitQueue.{
  Queue, update, set_running, wake_up, resume, Step, sleeps, wakes, resumes, interrupts, Reach,
  start, next,
}
use linux.Sched.WaitQueue.Chain.{
  has, IsChain, sleep-IsChain, wake_up-IsChain, interrupt-IsChain, resume-head, resume-other,
}

resume-IsChain :
    (t : ℕ) {q : Queue} (us : List ℕ)
    → has t us ≡ true
    → IsChain q us
    → (vs : List ℕ) × IsChain (resume t q) vs
resume-IsChain t [] h c = absurd (cc)
resume-IsChain t {q} (u ∷ us) h c = elim (Bool-cases (u == t)) [
  | inl e ↦ let same : u ≡ t = (==_iff u t).0 e in (us, (resume-head t us (rw (← same) c)).0)
  | inr e ↦ (u ∷ us, (resume-other t u us (ground arith) c).0)
]

Step-IsChain :
    {q r : Queue} → Step q r → (us : List ℕ) → IsChain q us → (vs : List ℕ) × IsChain r vs
Step-IsChain (sleeps t state n out s) us c = (t ∷ us, sleep-IsChain t state us out c)
Step-IsChain wakes us c = (us, wake_up-IsChain c)
Step-IsChain (resumes t i r) us c = resume-IsChain t us (sym (c.members t) ∙ i) c
Step-IsChain (interrupts t i) us c = (us, interrupt-IsChain t c)

-- However sleeps, wake-ups, interrupts and resumes are interleaved from an empty queue, the tasks
-- inside `__sleep_on` are a chain from `*p` through the `tmp` of each, without repetition.
pub Reach-IsChain : {q : Queue} → Reach q → (us : List ℕ) × IsChain q us
Reach-IsChain (start s) = ([], record { linked = s.no_head; members = s.nobody })
Reach-IsChain (next r st) = let (us, c) = Reach-IsChain r in Step-IsChain st us c

-- The tasks of a list run one after the other, each up to its next call of `schedule`.
unfoldable pub run_all : List ℕ → Queue → Queue
run_all [] q = q
run_all (t ∷ ts) q = run_all ts (resume t q)

-- Each task of the list runs when its turn comes.
abbrev pub EachRuns : List ℕ → Queue → Type 0
EachRuns [] q = Unit {0}
EachRuns (t ∷ ts) q = (q.state t ≡ TaskState.running) × EachRuns ts (resume t q)

HeadRuns : List ℕ → Queue → Type 0
HeadRuns [] q = Unit {0}
HeadRuns (t ∷ ts) q = q.state t ≡ TaskState.running

set_running-some :
    {h : Option ℕ} (t : ℕ) (state : ℕ → TaskState)
    → h ≡ some t
    → set_running h state t ≡ TaskState.running
unfolding set_running update
set_running-some t state e = rw (e, set_running) (ground arith)

head_runs : (us : List ℕ) {q : Queue} → IsChain q us → HeadRuns us (wake_up q)
unfolding HeadRuns wake_up
head_runs [] c = tt
head_runs (t ∷ us) {q} c = set_running-some t q.state c.linked.0

cascade :
    (us : List ℕ) {q : Queue}
    → IsChain q us
    → HeadRuns us q
    → EachRuns us q × ((run_all us q).head ≡ none) × ((t : ℕ) → (run_all us q).inside t ≡ false)
unfolding run_all HeadRuns
cascade [] c h = (tt, c.linked, c.members)
cascade (t ∷ []) c h = let (c', st, hd) = resume-head t [] c in ((h, tt), c'.linked, c'.members)
cascade (t ∷ u ∷ us) {q} c h =
    let (c', st, hd) = resume-head t (u ∷ us) c in
    let awake : set_running (q.tmp t) q.state u ≡ TaskState.running =
      set_running-some u q.state c.linked.2.0 in
    let (runs, empty, nobody) = cascade (u ∷ us) c' (rw st awake) in ((h, runs), empty, nobody)

-- After one `wake_up` on a queue whose sleepers are the chain `us`, the sleepers resumed one after
-- the other each find themselves running, and at the end the queue is empty and nobody is inside
-- `__sleep_on`.
pub wake_up-cascade :
    {q : Queue} (us : List ℕ)
    → IsChain q us
    → let woken = wake_up q in
      EachRuns us woken
      × ((run_all us woken).head ≡ none)
      × ((t : ℕ) → (run_all us woken).inside t ≡ false)
wake_up-cascade us c = cascade us (wake_up-IsChain c) (head_runs us c)
