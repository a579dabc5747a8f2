-- ===== src/Sched/Counters.antt =====
-- `sys_alarm` and `sys_nice`.
use linux.Common.{
  ℕ, ◌+◌, ◌-◌, ◌*◌, ◌/◌, ◌^◌, ◌≤◌, ◌<◌, ◌≡◌, ◌⊎◌, inl, inr, true, refl, Bool-cases, arith,
}
use linux.Common.Int.{ℤ, pos, ltb_ℤ, ◌-ℤ◌, ◌<ℤ◌, wrap32}
use linux.Sched.{Task, sys_alarm, sys_nice, hz}

-- An alarm set for `seconds` at tick `now` is asked for at a later tick, before or when it goes off,
-- while the ticks fit in 32 bits: `sys_alarm` gives the whole seconds that are left.
pub sys_alarm-left :
    (now later seconds : ℕ) (again : ℤ) (t : Task)
    → 0 < seconds
    → now ≤ later
    → later ≤ now + hz * seconds
    → now + hz * seconds < 2 ^ 32
    → (sys_alarm later again (sys_alarm now (pos seconds) t).1).0
      ≡ (now + hz * seconds - later) / hz
unfolding sys_alarm
sys_alarm-left now later seconds again t a b c d = ground arith

positive : (a : ℤ) → ltb_ℤ (pos 0) a ≡ true → pos 0 <ℤ a
positive a e = ground arith

-- `sys_nice` keeps a positive priority positive. Where the difference fits in a `long`, it changes the
-- priority by the increment or not at all.
pub sys_nice-priority :
    (increment : ℤ) (t : Task)
    → pos 0 <ℤ t.priority
    → (pos 0 <ℤ (sys_nice increment t).priority)
      × (wrap32 (t.priority -ℤ increment) ≡ t.priority -ℤ increment
          → ((sys_nice increment t).priority ≡ t.priority -ℤ increment)
            ⊎ (sys_nice increment t ≡ t))
unfolding sys_nice
sys_nice-priority increment t h =
    elim (Bool-cases (ltb_ℤ (pos 0) (wrap32 (t.priority -ℤ increment)))) [
      | inl e ↦ rw e (positive (wrap32 (t.priority -ℤ increment)) e, λ f. inl f)
      | inr e ↦ rw e (h, λ f. inr refl)
    ]
