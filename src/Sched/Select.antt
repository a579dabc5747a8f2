-- ===== src/Sched/Select.antt =====
-- The search of `schedule` for the task with the most time left.
use linux.Common.{
  ℕ, zero, suc, ◌-◌, ◌<◌, ◌≤◌, ◌≡◌, refl, ap, sym, ◌∙◌, ◌⊎◌, inl, inr, Option, none, some, true,
  false, ◌&&◌, arith, get_elem?, Bool-cases,
}
use linux.Common.Int.{ℤ, pos, negsuc, ltb_ℤ}
use linux.Sched.{Task, Table, nr_tasks, is_running, consider, scan}

-- The task in a slot can run.
abbrev pub Runs : Table → ℕ → Task → Type 0
Runs tasks i t = (get_elem? tasks i ≡ some (some t)) × (is_running t.state ≡ true)

-- -1 below the counters.
abbrev pub rank : ℤ → ℕ
rank (pos n) = suc n
rank (negsuc n) = 0

abbrev pub Chosen : Table → ℕ → ℤ → ℕ → Type 0
Chosen tasks i c next =
    (c ≡ negsuc 0) × (next ≡ 0)
    ⊎ ((t : Task) × Runs tasks next t
        × (c ≡ t.counter)
        × (0 < rank c)
        × (i < next)
        × (next < nr_tasks))

abbrev pub Largest : Table → ℕ → ℤ → Type 0
Largest tasks i c =
    (j : ℕ) (t : Task) → i < j → j < nr_tasks → Runs tasks j t → rank t.counter ≤ rank c

-- What a search over the slots above `i` has found: `c` is the largest counter of a task there that
-- can run, and `next` its slot; or none there can run.
abbrev pub Best : Table → ℕ → ℤ × ℕ → Type 0
Best tasks i (c, next) = Chosen tasks i c next × Largest tasks i c

rank_lt : (c d : ℤ) → (c ≡ negsuc 0) ⊎ (0 < rank c) → ltb_ℤ c d ≡ true → rank c < rank d
rank_lt (pos m) (pos n) l h = ground arith
rank_lt (pos m) (negsuc n) l h = absurd (ground arith)
rank_lt (negsuc m) (pos n) l h = ground arith
rank_lt (negsuc m) (negsuc n) (inl e) h = absurd (ground (arith, e))
rank_lt (negsuc m) (negsuc n) (inr l) h = absurd (omega (arith, l))

rank_ge : (c d : ℤ) → ltb_ℤ c d ≡ false → rank d ≤ rank c
rank_ge (pos m) (pos n) h = ground arith
rank_ge (pos m) (negsuc n) h = omega arith
rank_ge (negsuc m) (pos n) h = absurd (ground arith)
rank_ge (negsuc m) (negsuc n) h = omega arith

Chosen-rank :
    (tasks : Table) (i : ℕ) (c : ℤ) (next : ℕ)
    → Chosen tasks i c next
    → (c ≡ negsuc 0) ⊎ (0 < rank c)
Chosen-rank tasks i c next (inl (e, z)) = inl e
Chosen-rank tasks i c next (inr (t, runs, e, p, l, k)) = inr p

slot_of : (i j : ℕ) → i < j → (j ≡ suc i) ⊎ (suc i < j)
slot_of i j h = ground arith

module _ (tasks : Table) (i : ℕ) where
  Largest-empty :
      (c : ℤ) (slot : Option (Option Task))
      → get_elem? tasks (suc i) ≡ slot
      → ((t : Task) → slot ≡ some (some t) → is_running t.state ≡ true → rank t.counter ≤ rank c)
      → Largest tasks (suc i) c
      → Largest tasks i c
  Largest-empty c slot e here above j t h k runs = elim (slot_of i j h) [
    | inl at ↦ here t (sym e ∙ ap (get_elem? tasks) (sym at) ∙ runs.0) runs.1
    | inr l ↦ above j t l k runs
  ]

  Chosen-suc : (c : ℤ) (next : ℕ) → Chosen tasks (suc i) c next → Chosen tasks i c next
  Chosen-suc c next (inl e) = inl e
  Chosen-suc c next (inr (t, runs, e, p, l, k)) = inr (t, runs, e, p, omega arith, k)

  consider-Best :
      (slot : Option (Option Task)) (c : ℤ) (next : ℕ)
      → suc i < nr_tasks
      → get_elem? tasks (suc i) ≡ slot
      → Best tasks (suc i) (c, next)
      → Best tasks i (consider slot (suc i) (c, next))
  unfolding consider
  consider-Best none c next h e (chosen, above) =
      (Chosen-suc c next chosen, Largest-empty c none e (λ t q r. cc) above)
  consider-Best (some none) c next h e (chosen, above) =
      (Chosen-suc c next chosen, Largest-empty c (some none) e (λ t q r. cc) above)
  consider-Best (some (some t)) c next h e (chosen, above) =
      elim (Bool-cases (is_running t.state && ltb_ℤ c t.counter)) [
        | inl better ↦
            let more =
              rank_lt c t.counter (Chosen-rank tasks (suc i) c next chosen) (ground arith) in
            rw better (
              inr (t, (e, ground arith), refl, omega (arith, more), omega arith, h),
              Largest-empty t.counter (some (some t)) e
                  (λ u q r. let same : t ≡ u = cc in rw (← same) (omega arith))
                  (λ j u l k runs. omega (arith, above j u l k runs, more)),
            )
        | inr worse ↦ rw worse (
          Chosen-suc c next chosen,
          Largest-empty c (some (some t)) e
              (λ u q r. let same : t ≡ u = cc in rank_ge c u.counter (ground arith)) above,
        )
      ]

scan-Best :
    (tasks : Table) (i : ℕ) (c : ℤ) (next : ℕ)
    → i < nr_tasks
    → Best tasks i (c, next)
    → Best tasks 0 (scan i tasks (c, next))
unfolding scan
scan-Best tasks zero c next h b = b
scan-Best tasks (suc i) c next h b =
    let found = consider (get_elem? tasks (suc i)) (suc i) (c, next) in
    scan-Best tasks i found.0 found.1 (omega arith)
      (consider-Best tasks i (get_elem? tasks (suc i)) c next h refl b)

pub scan_all-Best : (tasks : Table) → Best tasks 0 (scan (nr_tasks - 1) tasks (negsuc 0, 0))
scan_all-Best tasks =
    scan-Best tasks (nr_tasks - 1) (negsuc 0) 0 (omega arith)
      (inl (refl, refl), λ j t h k r. absurd (omega arith))
