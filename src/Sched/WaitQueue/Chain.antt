-- ===== src/Sched/WaitQueue/Chain.antt =====
-- The sleepers as a chain from `*p` through the `tmp` of each.
use linux.Common.{
  ℕ, ◌≡◌, ◌≢◌, refl, ap, sym, ◌∙◌, Option, none, some, List, [], ◌∷◌, Bool, true, false, ◌||◌,
  arith, ◌==◌,
}
use linux.Sched.{TaskState}
use linux.Sched.WaitQueue.{
  Queue, update, sleep, set_running, wake_up, other_head, resume, interrupt,
}

abbrev pub has : ℕ → List ℕ → Bool
has t [] = false
has t (u ∷ us) = t == u || has t us

-- `us` are the tasks from `h` on, each the one that stands in the `tmp` before it.
abbrev pub Linked : (ℕ → Option ℕ) → Option ℕ → List ℕ → Type 0
Linked tmp h [] = h ≡ none
Linked tmp h (u ∷ us) = (h ≡ some u) × (has u us ≡ false) × Linked tmp (tmp u) us

-- The tasks inside `__sleep_on` are the chain, the last to come first.
pub record IsChain (q : Queue) (us : List ℕ) : Type 0 where
  pub linked : Linked q.tmp q.head us
  pub members : (t : ℕ) → q.inside t ≡ has t us

Linked-update :
    (tmp : ℕ → Option ℕ) (t : ℕ) (v h : Option ℕ) (us : List ℕ)
    → has t us ≡ false
    → Linked tmp h us
    → Linked (update tmp t v) h us
unfolding update
Linked-update tmp t v h [] out l = l
Linked-update tmp t v h (u ∷ us) out (e, fresh, l) =
    let apart : (u == t) ≡ false = ground arith in
    (e, fresh, rw apart (Linked-update tmp t v (tmp u) us (ground arith) l))

pub sleep-IsChain :
    (t : ℕ) (state : TaskState) {q : Queue} (us : List ℕ)
    → q.inside t ≡ false
    → IsChain q us
    → IsChain (sleep t state q) (t ∷ us)
unfolding sleep update
sleep-IsChain t state {q} us out c = record {
  linked = (refl, sym (c.members t) ∙ out, old);
  members = λ u. ground (arith, c.members u);
}
  where
    old : Linked (update q.tmp t q.head) (update q.tmp t q.head t) us
    old =
        let self : update q.tmp t q.head t ≡ q.head = ground arith in
        rw self (Linked-update q.tmp t q.head q.head us (sym (c.members t) ∙ out) c.linked)

pub wake_up-IsChain : {q : Queue} {us : List ℕ} → IsChain q us → IsChain (wake_up q) us
unfolding wake_up
wake_up-IsChain c = record { linked = c.linked; members = c.members }

pub interrupt-IsChain :
    (t : ℕ) {q : Queue} {us : List ℕ} → IsChain q us → IsChain (interrupt t q) us
unfolding interrupt
interrupt-IsChain t c = record { linked = c.linked; members = c.members }

-- The first of the chain leaves it, and the next one runs.
pub left : ℕ → Queue → Queue
left t q = record q {
  head = q.tmp t;
  state = set_running (q.tmp t) q.state;
  inside = update q.inside t false;
}

-- Any other lets the first one run and goes back to sleep.
pub put_back : ℕ → ℕ → Queue → Queue
put_back t h q = record q {
  state = update (update q.state h TaskState.running) t TaskState.uninterruptible;
}

resume-left : (t : ℕ) (q : Queue) → q.head ≡ some t → resume t q ≡ left t q
unfolding resume other_head left
resume-left t q e = let stay : other_head q.head t ≡ false = ground arith in rw (stay, resume) refl

resume-put_back : (t h : ℕ) (q : Queue) → h ≢ t → q.head ≡ some h → resume t q ≡ put_back t h q
unfolding resume other_head put_back set_running
resume-put_back t h q ne e =
    let back : other_head q.head t ≡ true = ground arith in
    rw (back, resume)
      (ap (λ o. record q { state = update (set_running o q.state) t TaskState.uninterruptible }) e
        ∙ refl)

pub resume-head :
    (t : ℕ) {q : Queue} (us : List ℕ)
    → IsChain q (t ∷ us)
    → IsChain (resume t q) us
      × ((resume t q).state ≡ set_running (q.tmp t) q.state)
      × ((resume t q).head ≡ q.tmp t)
unfolding left update
resume-head t {q} us c = rw (resume-left t q c.linked.0) (
  record { linked = c.linked.2; members = λ u. ground (arith, c.members u, c.linked.1) },
  refl,
  refl,
)

pub resume-other :
    (t h : ℕ) {q : Queue} (us : List ℕ)
    → h ≢ t
    → IsChain q (h ∷ us)
    → IsChain (resume t q) (h ∷ us)
      × ((resume t q).state h ≡ TaskState.running)
      × ((resume t q).state t ≡ TaskState.uninterruptible)
unfolding put_back update
resume-other t h {q} us ne c =
    rw (resume-put_back t h q ne c.linked.0)
      (record { linked = c.linked; members = c.members }, ground arith, ground arith)
