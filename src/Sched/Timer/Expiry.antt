-- ===== src/Sched/Timer/Expiry.antt =====
-- When the timers expire.
use linux.Common.{
  ◌≢◌, ℕ, suc, ◌+◌, ◌-◌, ◌<◌, ◌≡◌, refl, List, [], ◌∷◌, ◌++◌, map, arith, ltb, if◌then◌else◌,
  Bool-cases, true, false, inl, inr, length,
}
use linux.Common.Int.{pos}
use linux.Sched.Timer.{Timer, add_timer, queued, time_requests, sink}

-- The ticks left to each timer, with its handler: the sums of the entries.
unfoldable pub due : ℕ → List Timer → List (ℕ × ℕ)
due past [] = []
due past (t ∷ ts) = (past + t.jiffies, t.fn) ∷ due (past + t.jiffies) ts

-- The timers due before `d` ticks, and the rest.
unfoldable pub before : ℕ → List (ℕ × ℕ) → List (ℕ × ℕ)
before d [] = []
before d ((e, f) ∷ rest) = if ltb e d then (e, f) ∷ before d rest else []

unfoldable pub from : ℕ → List (ℕ × ℕ) → List (ℕ × ℕ)
from d [] = []
from d ((e, f) ∷ rest) = if ltb e d then from d rest else (e, f) ∷ rest

abbrev pub delay : ℕ → List (ℕ × ℕ) → List (ℕ × ℕ)
delay r = map (λ e. (e.0 + r, e.1))

-- How long before the new timer the last of the earlier ones is due.
unfoldable pub gap : ℕ → List Timer → ℕ
gap d [] = d
gap d (t ∷ ts) = if ltb t.jiffies d then gap (d - t.jiffies) ts else d

due-delay : (a r : ℕ) (ts : List Timer) → due (a + r) ts ≡ delay r (due a ts)
unfolding due
due-delay a r [] = refl
due-delay a r (t ∷ ts) =
    let e : a + r + t.jiffies ≡ a + t.jiffies + r = omega arith in
    rw (e, due-delay (a + t.jiffies) r ts) refl

pub due-sink :
    (past d f : ℕ) (ts : List Timer)
    → due past (sink d f ts)
      ≡ before (past + d) (due past ts)
        ++ (past + d, f) ∷ delay (gap d ts) (from (past + d) (due past ts))
unfolding due sink before from gap
due-sink past d f [] = refl
due-sink past d f (t ∷ ts) = elim (Bool-cases (ltb t.jiffies d)) [
  | inl less ↦
      let less' : ltb (past + t.jiffies) (past + d) ≡ true = ground arith in
      let e : past + t.jiffies + (d - t.jiffies) ≡ past + d = ground arith in
      rw (less, less') (rw (due-sink (past + t.jiffies) (d - t.jiffies) f ts, e) refl)
  | inr more ↦
      let more' : ltb (past + t.jiffies) (past + d) ≡ false = ground arith in
      let e : past + d + t.jiffies ≡ past + t.jiffies + d = omega arith in
      rw (more, more') (rw (e, due-delay (past + t.jiffies) d ts) refl)
]

-- `add_timer` with time to wait, a handler and a free entry makes the new timer due after exactly
-- that time and leaves the timers due earlier as they are, but puts off every later one by the time
-- between the new timer and the last earlier one.
pub add_timer-due :
    (n f : ℕ) (ts : List Timer)
    → f ≢ 0
    → length ts < time_requests
    → (ts' : List Timer) × (add_timer (pos (suc n)) f ts ≡ queued ts')
      × (due 0 ts'
          ≡ before (suc n) (due 0 ts)
            ++ (suc n, f) ∷ delay (gap (suc n) ts) (from (suc n) (due 0 ts)))
unfolding add_timer
add_timer-due n f ts h k =
    let e : 0 + suc n ≡ suc n = omega arith in
    (sink (suc n) f ts, ground arith, rw e at (due-sink 0 (suc n) f ts))
