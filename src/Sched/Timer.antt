-- ===== src/Sched/Timer.antt =====
-- The kernel timers of kernel/sched.c. The chain from `next_timer` is a list; each entry counts the
-- ticks behind the one before it. A handler `fn` is a number other than 0.
pub mod Expiry
pub mod Ticks
use linux.Common.{
  ℕ, zero, suc, ◌+◌, ◌-◌, Option, none, some, List, [], ◌∷◌, Bool, ltb, leb, ◌==◌, if◌then◌else◌,
  length,
}
use linux.Common.Int.{ℤ, pos, negsuc}

abbrev pub time_requests : ℕ
time_requests = 64

pub record Timer : Type 0 where
  pub jiffies : ℕ
  pub fn : ℕ

abbrev pub timer : ℕ → ℕ → Timer
timer d f = record { jiffies = d; fn = f }

-- What `add_timer` did: nothing, ran the handler at once, or put it in the chain. It panics if all
-- the entries are in use.
pub data Added : Type 0 where
  ignored : Added
  ran : ℕ → Added
  queued : List Timer → Added
  panic : Added

-- The `while` loop: the new entry, which stands at the head, changes places with the next as long as
-- that is due before it.
unfoldable pub sink : ℕ → ℕ → List Timer → List Timer
sink d f [] = timer d f ∷ []
sink d f (t ∷ ts) =
    let later = t ∷ sink (d - t.jiffies) f ts in
    if ltb t.jiffies d then later else timer d f ∷ t ∷ ts

unfoldable pub add_timer : ℤ → ℕ → List Timer → Added
add_timer (negsuc n) f ts = if f == 0 then ignored else ran f
add_timer (pos zero) f ts = if f == 0 then ignored else ran f
add_timer (pos (suc n)) f ts =
    if f == 0
    then ignored
    else (if leb time_requests (length ts) then panic else queued (sink (suc n) f ts))

-- The loop of `do_timer`: entries with no ticks left go, and their handlers run in this order.
unfoldable pub expire : List Timer → List ℕ × List Timer
expire [] = ([], [])
expire (t ∷ ts) =
    let (ran_, left) = expire ts in if t.jiffies == 0 then (t.fn ∷ ran_, left) else ([], t ∷ ts)

-- The timers' part of `do_timer`.
unfoldable pub tick : List Timer → List ℕ × List Timer
tick [] = ([], [])
tick (t ∷ ts) = expire (record t { jiffies = t.jiffies - 1 } ∷ ts)
