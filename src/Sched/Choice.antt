-- ===== src/Sched/Choice.antt =====
-- What `schedule` chooses.
use linux.Common.{
  ℕ, zero, suc, ◌-◌, ◌≤◌, ◌<◌, ◌≡◌, ◌≢◌, refl, ap, ap₂, sym, ◌+◌, ◌/◌, ◌^◌, ◌∙◌, ◌⊎◌, inl, inr,
  Option, some, [], ◌∷◌, map, arith, get_elem?,
}
use linux.Common.Int.{ℤ, pos, negsuc, ◌<ℤ◌, ◌≤ℤ◌, ◌+ℤ◌, wrap32, wrap32-pos, pos-+ℤ}
use linux.Sched.{Task, Table, nr_tasks, scan, half, recharge, for_tasks, choose}
use mathlib.Core.Option
use linux.Sched.Select.{Runs, rank, Best, scan_all-Best}

get_elem?-map :
    (f : Option Task → Option Task) (tasks : Table) (i : ℕ)
    → get_elem? (map f tasks) i ≡ Option.map f (get_elem? tasks i)
get_elem?-map f [] i = refl
get_elem?-map f (x ∷ xs) zero = refl
get_elem?-map f (x ∷ xs) (suc i) = get_elem?-map f xs i

-- A loop over the tasks reaches every slot but the first.
pub get_elem?-for_tasks :
    (f : Task → Task) (tasks : Table) (i : ℕ)
    → 0 < i
    → get_elem? (for_tasks f tasks) i ≡ Option.map (Option.map f) (get_elem? tasks i)
unfolding for_tasks
get_elem?-for_tasks f tasks zero h = absurd (omega arith)
get_elem?-for_tasks f [] (suc i) h = refl
get_elem?-for_tasks f (x ∷ xs) (suc i) h = get_elem?-map (Option.map f) xs i

-- The outcome of a choice: a task that can run, has time left and has no less than any other that
-- can run; or slot 0, if none can run.
abbrev pub NobodyRuns : Table → Type 0
NobodyRuns tasks = (j : ℕ) (t : Task) → 0 < j → j < nr_tasks → ¬ (Runs tasks j t)

abbrev pub RunsFirst : Table → ℕ → Type 0
RunsFirst tasks next =
    (t : Task) × Runs tasks next t
    × (0 < next)
    × (next < nr_tasks)
    × (pos 0 <ℤ t.counter)
    × ((j : ℕ) (u : Task) → 0 < j → j < nr_tasks → Runs tasks j u → u.counter ≤ℤ t.counter)

abbrev pub IsChoice : Table → ℕ → Type 0
IsChoice tasks next = (next ≡ 0) × NobodyRuns tasks ⊎ RunsFirst tasks next

-- The counter `k` is not negative, the priority `p` is positive, and giving the task time anew does
-- not overflow a `long`.
abbrev pub IsTimed : Task → Type 0
IsTimed t =
    (k : ℕ) × (p : ℕ) × (t.counter ≡ pos k) × (t.priority ≡ pos p) × (0 < p) × (k / 2 + p < 2 ^ 31)

abbrev pub AllTimed : Table → Type 0
AllTimed tasks = (j : ℕ) (t : Task) → 0 < j → get_elem? tasks j ≡ some (some t) → IsTimed t

rank_pos : (c : ℤ) (k : ℕ) → c ≡ pos k → rank c ≡ suc k
rank_pos c k e = ap rank e

rank_positive : (c : ℤ) → 1 < rank c → pos 0 <ℤ c
rank_positive (pos n) h = omega (arith, h)
rank_positive (negsuc n) h = absurd (omega (arith, h))

rank_below : (c d : ℤ) → 1 < rank d → rank c ≤ rank d → c ≤ℤ d
rank_below (pos m) (pos n) h k = omega (arith, h, k)
rank_below (negsuc m) (pos n) h k = omega arith
rank_below c (negsuc n) h k = absurd (omega (arith, h))

nobody :
    (tasks : Table) (n next : ℕ)
    → AllTimed tasks
    → Best tasks 0 (negsuc n, next)
    → IsChoice tasks next
nobody tasks n next timed (inl (e, z), above) = inl (
  z,
  λ j t h k r.
      (let v = timed j t h r.0 in
        absurd (omega (arith, above j t h k r, rank_pos t.counter v.0 v.2))),
)
nobody tasks n next timed (inr (t, runs, e, p, l, k), above) = absurd (omega (arith, p))

first : (tasks : Table) (n next : ℕ) → n ≢ 0 → Best tasks 0 (pos n, next) → IsChoice tasks next
first tasks n next h (inl (e, z), above) = absurd (cc)
first tasks n next h (inr (t, runs, e, p, l, k), above) =
    let more : 1 < rank t.counter = omega (arith, rank_pos t.counter n (sym e), h) in
    inr (
      t,
      runs,
      l,
      k,
      rank_positive t.counter more,
      λ j u p q r.
          rank_below u.counter t.counter more
            (omega (arith, above j u p q r, rank_pos t.counter n (sym e))),
    )

-- A search that finds only counters of 0 has found a task.
someone :
    (tasks : Table) (next : ℕ)
    → Best tasks 0 (pos 0, next)
    → (t : Task) × Runs tasks next t × (0 < next) × (next < nr_tasks)
someone tasks next (inl (e, z), above) = absurd (cc)
someone tasks next (inr (t, runs, e, p, l, k), above) = (t, runs, l, k)

choose-negsuc :
    (f : ℕ) (tasks : Table) (n next : ℕ)
    → scan (nr_tasks - 1) tasks (negsuc 0, 0) ≡ (negsuc n, next)
    → choose (suc f) tasks ≡ some (tasks, next)
unfolding choose
choose-negsuc f tasks n next e = rw (e, choose) (ap (λ (p : ℤ × ℕ). some (tasks, p.1)) e)

choose-pos :
    (f : ℕ) (tasks : Table) (n next : ℕ)
    → n ≢ 0
    → scan (nr_tasks - 1) tasks (negsuc 0, 0) ≡ (pos n, next)
    → choose (suc f) tasks ≡ some (tasks, next)
unfolding choose
choose-pos f tasks n next h e = rw (e, choose) (ground arith)

choose-again :
    (f : ℕ) (tasks : Table) (next : ℕ)
    → scan (nr_tasks - 1) tasks (negsuc 0, 0) ≡ (pos 0, next)
    → choose (suc f) tasks ≡ choose f (for_tasks recharge tasks)
unfolding choose
choose-again f tasks next e = rw (e, choose) refl

recharge-Runs :
    (tasks : Table) (i : ℕ) (t : Task)
    → 0 < i
    → Runs tasks i t
    → Runs (for_tasks recharge tasks) i (recharge t)
unfolding recharge
recharge-Runs tasks i t h (e, r) = (get_elem?-for_tasks recharge tasks i h ∙ rw e refl, r)

-- The counters are given out anew only when every task that can run has used up its time.
abbrev pub OutOfTime : Table → Type 0
OutOfTime tasks = (j : ℕ) (t : Task) → 0 < j → j < nr_tasks → Runs tasks j t → t.counter ≡ pos 0

nothing_left : (tasks : Table) {n : ℕ} → AllTimed tasks → Best tasks 0 (pos 0, n) → OutOfTime tasks
nothing_left tasks timed (chosen, above) j t l k runs =
    let v = timed j t l runs.0 in
    let zero_ : v.0 ≡ 0 = omega (arith, above j t l k runs, rank_pos t.counter v.0 v.2) in
    v.2 ∙ ap pos zero_

-- Time anew is more than none.
recharged : (t : Task) → IsTimed t → 1 < rank (recharge t).counter
unfolding recharge
recharged t (k, p, e, f, l, h) =
    let sum : wrap32 (half t.counter +ℤ t.priority) ≡ pos (k / 2 + p) =
      ap₂ (λ a b. wrap32 (half a +ℤ b)) e f
      ∙ ap wrap32 (pos-+ℤ (k / 2) p)
      ∙ wrap32-pos (k / 2 + p) h in
    omega (arith, rank_pos (wrap32 (half t.counter +ℤ t.priority)) (k / 2 + p) sum, l)

found_Best :
    (tasks : Table) {c : ℤ} {n : ℕ}
    → scan (nr_tasks - 1) tasks (negsuc 0, 0) ≡ (c, n)
    → Best tasks 0 (c, n)
found_Best tasks e = rw e at (scan_all-Best tasks)

-- `choose` returns, with what it has chosen, and the table is as it was unless every task that can
-- run was out of time.
abbrev pub Settled : Table → Type 0
Settled tasks =
    (tasks' : Table) × (next : ℕ) × (choose 2 tasks ≡ some (tasks', next))
    × IsChoice tasks' next
    × ((tasks' ≡ tasks) ⊎ (OutOfTime tasks × (tasks' ≡ for_tasks recharge tasks)))

module _ (tasks : Table) (timed : AllTimed tasks) where
  charged :
      (next : ℕ) (t : Task) (c : ℤ) (n : ℕ)
      → Runs tasks next t
      → 0 < next
      → next < nr_tasks
      → Best (for_tasks recharge tasks) 0 (c, n)
      → 1 < rank c
  charged next t c n runs l k (chosen, above) = omega (
    arith,
    above next (recharge t) l k (recharge-Runs tasks next t l runs),
    recharged t (timed next t l runs.0),
  )

  after_recharge :
      (next : ℕ) (t : Task) (c : ℤ) (n : ℕ)
      → Runs tasks next t
      → 0 < next
      → next < nr_tasks
      → scan (nr_tasks - 1) (for_tasks recharge tasks) (negsuc 0, 0) ≡ (c, n)
      → (choose 1 (for_tasks recharge tasks) ≡ some (for_tasks recharge tasks, n))
        × IsChoice (for_tasks recharge tasks) n
  after_recharge next t (negsuc m) n runs l k e =
      absurd (omega (arith, charged next t (negsuc m) n runs l k (found_Best _ e)))
  after_recharge next t (pos m) n runs l k e =
      let some_ : m ≢ 0 = omega (arith, charged next t (pos m) n runs l k (found_Best _ e)) in
      (choose-pos 0 _ m n some_ e, first _ m n some_ (found_Best _ e))

  from_scan : (c : ℤ) (n : ℕ) → scan (nr_tasks - 1) tasks (negsuc 0, 0) ≡ (c, n) → Settled tasks
  from_scan (negsuc m) n e =
      (tasks, n, choose-negsuc 1 tasks m n e, nobody tasks m n timed (found_Best tasks e), inl refl)
  from_scan (pos zero) n e =
      let (t, runs, l, k) = someone tasks n (found_Best tasks e) in
      let (done, chosen) = after_recharge n t _ _ runs l k refl in
      (
        for_tasks recharge tasks,
        _,
        choose-again 1 tasks n e ∙ done,
        chosen,
        inr (nothing_left tasks timed (found_Best tasks e), refl),
      )
  from_scan (pos (suc m)) n e = (
    tasks,
    n,
    choose-pos 1 tasks (suc m) n (omega arith) e,
    first tasks (suc m) n (omega arith) (found_Best tasks e),
    inl refl,
  )

  pub choose-IsChoice : Settled tasks
  choose-IsChoice = from_scan _ _ refl
