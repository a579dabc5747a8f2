-- ===== src/Signal/Masks.antt =====
-- The mask of blocked signals.
use linux.Common.{
  ℕ, ◌-◌, ◌^◌, ◌<◌, bit_and, Bool, true, ◌||◌, ◌==◌, if◌then◌else◌, arith, ◌≡◌, refl, holds_below,
  holds-of_below, ==_iff, min,
}
use linux.Common.Bits.{bit, bit-bit_and, bit_not32, bit-le-one}
use linux.Sched.{sigkill, sigstop, signal_bit}
use linux.Signal.{Process, sys_ssetmask, sys_sigpending}

-- Bit `i` of a mask without bit `n`.
abbrev without : ℕ → ℕ → Bool
without n i = bit i (bit_not32 (2 ^ n)) == (if i == n then 0 else 1)

kill_table : holds_below 32 (without 8) ≡ true
unfolding holds_below bit
kill_table = refl

stop_table : holds_below 32 (without 18) ≡ true
unfolding holds_below bit
stop_table = refl

-- After `sys_ssetmask`, the signals of the new mask are blocked but SIGKILL and SIGSTOP never are,
-- and exactly those of them that have come show as pending.
pub bit-sys_ssetmask :
    (newmask : ℕ) (p : Process) (i : ℕ)
    → newmask < 2 ^ 32
    → i < 32
    → let q = (sys_ssetmask newmask p).1 in
      (bit i q.blocked ≡ (if i == sigkill - 1 || i == sigstop - 1 then 0 else bit i newmask))
      × (bit i (sys_sigpending q) ≡ min (bit i q.blocked) (bit i p.signal))
unfolding sys_ssetmask sys_sigpending
bit-sys_ssetmask newmask p i h k =
    let no_kill = bit_and newmask (bit_not32 (signal_bit sigkill)) in
    let q = (sys_ssetmask newmask p).1 in
    (
      ground (
        arith,
        bit-bit_and i no_kill (bit_not32 (signal_bit sigstop)),
        bit-bit_and i newmask (bit_not32 (signal_bit sigkill)),
        (==_iff _ _).0 (holds-of_below 32 (without 8) i kill_table k),
        (==_iff _ _).0 (holds-of_below 32 (without 18) i stop_table k),
        bit-le-one i newmask,
      ),
      bit-bit_and i q.blocked p.signal,
    )
