-- ===== src/Sched/Timer/Ticks.antt =====
-- `n` ticks of `do_timer` in a row.
use linux.Common.{
  ℕ, zero, suc, ◌+◌, ◌-◌, ◌<◌, ◌≡◌, refl, ap, sym, ◌∙◌, List, [], ◌∷◌, ◌++◌, map, arith, ltb, ◌==◌,
  if◌then◌else◌, Bool-cases, inl, inr, true, false,
}
use linux.Sched.Timer.{Timer, expire, tick}
use linux.Sched.Timer.Expiry.{due}

-- No entry is 0: no two timers of the chain are due at once.
abbrev pub Positive : List Timer → Type 0
Positive [] = Unit {0}
Positive (t ∷ ts) = (0 < t.jiffies) × Positive ts

-- The handlers of the timers that are due after at most `n` ticks, and the later timers.
unfoldable pub ran_by : ℕ → List (ℕ × ℕ) → List ℕ
ran_by n [] = []
ran_by n ((e, f) ∷ rest) = if ltb n e then [] else f ∷ ran_by n rest

unfoldable pub left_after : ℕ → List (ℕ × ℕ) → List (ℕ × ℕ)
left_after n [] = []
left_after n ((e, f) ∷ rest) = if ltb n e then (e, f) ∷ rest else left_after n rest

abbrev pub sooner : ℕ → List (ℕ × ℕ) → List (ℕ × ℕ)
sooner n = map (λ e. (e.0 - n, e.1))

-- `n` ticks in a row: the handlers that run, in order, and the chain that is left.
unfoldable pub ticks : ℕ → List Timer → List ℕ × List Timer
ticks zero ts = ([], ts)
ticks (suc n) ts = let (now, ts1) = tick ts in let (later, ts2) = ticks n ts1 in (now ++ later, ts2)

sooner-due : (a : ℕ) (ts : List Timer) → sooner 1 (due (suc a) ts) ≡ due a ts
unfolding due
sooner-due a [] = refl
sooner-due a (t ∷ ts) =
    let e : suc a + t.jiffies ≡ suc (a + t.jiffies) = omega arith in
    let e' : suc (a + t.jiffies) - 1 ≡ a + t.jiffies = omega arith in
    rw (e, e', sooner-due (a + t.jiffies) ts) refl

expire-Positive : (ts : List Timer) → Positive ts → expire ts ≡ ([], ts)
unfolding expire
expire-Positive [] h = refl
expire-Positive (t ∷ ts) h = ground arith

ran_by-late :
    (ts : List Timer) (a : ℕ)
    → Positive ts
    → 0 < a
    → (ran_by 1 (due a ts) ≡ []) × (left_after 1 (due a ts) ≡ due a ts)
unfolding ran_by left_after due
ran_by-late [] a h k = (refl, refl)
ran_by-late (t ∷ ts) a h k = ground arith

tick-nil : tick [] ≡ ([], [])
unfolding tick
tick-nil = refl

tick-one :
    (t : Timer) (ts : List Timer) → Positive ts → t.jiffies ≡ 1 → tick (t ∷ ts) ≡ (t.fn ∷ [], ts)
unfolding tick expire
tick-one t ts h e = rw (e, expire-Positive ts h) refl

tick-more :
    (t : Timer) (ts : List Timer)
    → 1 < t.jiffies
    → tick (t ∷ ts) ≡ ([], record t { jiffies = t.jiffies - 1 } ∷ ts)
unfolding tick expire
tick-more t ts h = ground arith

-- One tick runs what is due after one tick, and brings the others nearer.
record Ticked (ts : List Timer) (out : List ℕ × List Timer) : Type 0 where
  runs : out.0 ≡ ran_by 1 (due 0 ts)
  leaves : due 0 out.1 ≡ sooner 1 (left_after 1 (due 0 ts))
  positive : Positive out.1

tick-Ticked : (ts : List Timer) → Positive ts → Ticked ts (tick ts)
unfolding due ran_by left_after
tick-Ticked [] h = rw tick-nil (record { runs = refl; leaves = refl; positive = tt })
tick-Ticked (t ∷ ts) h = elim (Bool-cases (t.jiffies == 1)) [
  | inl e ↦
      let one : 0 + t.jiffies ≡ suc 0 = ground arith in
      let late = ran_by-late ts (suc 0) h.1 (omega arith) in
      rw (tick-one t ts h.1 (ground arith)) (record {
        runs = rw (one, late.0) refl;
        leaves = rw (one, late.1, sooner-due 0 ts) refl;
        positive = h.1;
      })
  | inr e ↦
      let more : 0 + t.jiffies ≡ suc (t.jiffies - 1) = ground arith in
      let left : 0 + (t.jiffies - 1) ≡ t.jiffies - 1 = omega arith in
      rw (tick-more t ts (ground arith)) (record {
        runs = ground arith;
        leaves = ground (
          arith,
          ap (λ n. (n, t.fn) ∷ due n ts) left,
          sooner-due (t.jiffies - 1) ts,
          ap (λ n. due n ts) more,
        );
        positive = (ground arith, h.1);
      })
]

ran_by-sooner : (n : ℕ) (d : List (ℕ × ℕ)) → ran_by (suc n) d ≡ ran_by n (sooner 1 d)
unfolding ran_by
ran_by-sooner n [] = refl
ran_by-sooner n ((e, f) ∷ d) = ground (arith, ran_by-sooner n d)

ran_by-suc :
    (n : ℕ) (d : List (ℕ × ℕ))
    → ran_by (suc n) d ≡ ran_by 1 d ++ ran_by n (sooner 1 (left_after 1 d))
unfolding ran_by left_after
ran_by-suc n [] = refl
ran_by-suc n ((e, f) ∷ d) = ground (arith, ran_by-suc n d, ran_by-sooner n d)

sooner-sooner : (n : ℕ) (d : List (ℕ × ℕ)) → sooner n (sooner 1 d) ≡ sooner (suc n) d
sooner-sooner n [] = refl
sooner-sooner n ((e, f) ∷ d) =
    let less : e - 1 - n ≡ e - suc n = omega arith in rw (less, sooner-sooner n d) refl

sooner-zero : (d : List (ℕ × ℕ)) → sooner 0 d ≡ d
sooner-zero [] = refl
sooner-zero ((e, f) ∷ d) = let same : e - 0 ≡ e = omega arith in rw (same, sooner-zero d) refl

left_after-sooner :
    (n : ℕ) (d : List (ℕ × ℕ))
    → sooner n (left_after n (sooner 1 d)) ≡ sooner (suc n) (left_after (suc n) d)
unfolding left_after
left_after-sooner n [] = refl
left_after-sooner n ((e, f) ∷ d) = elim (Bool-cases (ltb (suc n) e)) [
  | inl late ↦
      let late' : ltb n (e - 1) ≡ true = ground arith in
      let less : e - 1 - n ≡ e - suc n = omega arith in
      rw (late, late', less, sooner-sooner n d) refl
  | inr now ↦
      let now' : ltb n (e - 1) ≡ false = ground arith in rw (now, now') (left_after-sooner n d)
]

-- A timer that is due is left behind for good.
left_after-twice :
    (n : ℕ) (d : List (ℕ × ℕ))
    → left_after n (sooner 1 (left_after 1 d)) ≡ left_after n (sooner 1 d)
unfolding left_after
left_after-twice n [] = refl
left_after-twice n ((e, f) ∷ d) = ground (arith, left_after-twice n d)

none_yet :
    (ts : List Timer)
    → Positive ts
    → (ran_by 0 (due 0 ts) ≡ []) × (left_after 0 (due 0 ts) ≡ due 0 ts)
unfolding ran_by left_after due
none_yet [] h = (refl, refl)
none_yet (t ∷ ts) h = ground arith

-- From a chain with no entry 0, `n` ticks run the handlers of exactly the timers that are due
-- within `n` ticks, in the order in which they are due, and every other timer is due `n` ticks
-- sooner.
pub ticks-due :
    (n : ℕ) (ts : List Timer)
    → Positive ts
    → let (ran_, left) = ticks n ts in
      (ran_ ≡ ran_by n (due 0 ts)) × (due 0 left ≡ sooner n (left_after n (due 0 ts)))
unfolding ticks
ticks-due zero ts h = let (none_, all_) = none_yet ts h in (sym none_, rw (all_, sooner-zero) refl)
ticks-due (suc n) ts h =
    let step = tick-Ticked ts h in
    let (ran_, left) = ticks-due n (tick ts).1 step.positive in
    (
      rw (step.runs, ran_, step.leaves) (sym (ran_by-suc n (due 0 ts))),
      left ∙ rw (step.leaves, left_after-twice n (due 0 ts), left_after-sooner n (due 0 ts)) refl,
    )
