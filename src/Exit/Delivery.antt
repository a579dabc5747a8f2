-- ===== src/Exit/Delivery.antt =====
-- kernel/exit.c: what a signal to a process group does to its members.
use mathlib.Core.Path.{subst}
use linux.Common.{
  ℕ, zero, suc, ◌-◌, ◌%◌, ◌^◌, ◌≤◌, ◌<◌, Bool, true, false, ◌||◌, Option, none, some, [], ◌∷◌, ◌==◌,
  ◌!=◌, set, ◌≡◌, ◌≢◌, refl, sym, ap, ◌∙◌, arith, ℕ_discrete, ◌⊎◌, get_or-set_ne, bit_or,
}
use linux.Common.Bits.{bit, bit-bit_or, bit_pow_self, bit-le-one}
use linux.Common.Int.{ℤ, pos, negsuc, ◌-ℤ◌, ◌<ℤ◌, leb_ℤ, to_u32, pos--ℤ}
use linux.Sched.{nr_tasks}
use linux.Exit.{
  Task, Table, slot, deref, same, send_sig, Sweep, send_to, pg_step, pg_from, out_of_range, kill_pg,
  continued, post, signal_bit,
}

slot-set_self :
    (ts : Table) (i : ℕ) (v : Option Task) (t : Task) → slot ts i ≡ some t → slot (set ts i v) i ≡ v
slot-set_self [] i v t h = absurd (ground arith)
slot-set_self (x ∷ ts) zero v t h = refl
slot-set_self (x ∷ ts) (suc i) v t h = slot-set_self ts i v t h

same_self : (a : ℤ) → same a a ≡ true
same_self a = ground arith

-- May the caller send signals to the task?
unfoldable pub IsAllowed : ℕ → Bool → Task → Type 0
IsAllowed euid priv t = (priv ≡ true) ⊎ (euid ≡ t.euid) ⊎ (euid ≡ 0)

send_sig-allowed :
    (euid : ℕ) (sig : ℤ) (t : Task) (priv : Bool)
    → IsAllowed euid priv t
    → send_sig euid sig (some t) priv ≡ (pos 0, some (post sig (continued sig t)))
unfolding IsAllowed send_sig
send_sig-allowed euid sig t priv h = ground arith

module _ (null : Task) (euid : ℕ) (pgrp sig : ℤ) (priv : Bool) where
  send_to-other :
      (i j : ℕ) (s : Sweep) → j ≢ i → slot (send_to euid sig priv j s).task i ≡ slot s.task i
  unfolding send_to
  send_to-other i j s n =
      ground (arith, get_or-set_ne s.task j i (send_sig euid sig (slot s.task j) priv).1 none n)

  pg_step-other :
      (i j : ℕ) (s : Sweep)
      → j ≢ i
      → slot (pg_step null euid pgrp sig priv j s).task i ≡ slot s.task i
  unfolding pg_step
  pg_step-other i j s n = ground (arith, send_to-other i j s n)

  pg_step-found : (j : ℕ) (s : Sweep) → s.found ≤ (pg_step null euid pgrp sig priv j s).found
  unfolding pg_step send_to
  pg_step-found j s = ground arith

  -- The pass leaves the slots above it alone, and forgets nobody whom it has found.
  pg_from-above :
      (n i : ℕ) (s : Sweep)
      → n < i
      → slot (pg_from null euid pgrp sig priv n s).task i ≡ slot s.task i
  unfolding pg_from
  pg_from-above zero i s l = refl
  pg_from-above (suc n) i s l =
      pg_from-above n i (pg_step null euid pgrp sig priv (suc n) s) (omega arith)
      ∙ pg_step-other i (suc n) s (λ e. omega arith)

  pg_from-found : (n : ℕ) (s : Sweep) → s.found ≤ (pg_from null euid pgrp sig priv n s).found
  unfolding pg_from
  pg_from-found zero s = omega arith
  pg_from-found (suc n) s =
      omega (
        arith,
        pg_step-found (suc n) s,
        pg_from-found n (pg_step null euid pgrp sig priv (suc n) s),
      )

  module _ (i : ℕ) (t : Task) (member : t.pgrp ≡ pgrp) (allowed : IsAllowed euid priv t) where
    Reached : Sweep → Type 0
    Reached s = (slot s.task i ≡ some (post sig (continued sig t))) × (1 ≤ s.found)

    send_to-Reached : (s : Sweep) → slot s.task i ≡ some t → Reached (send_to euid sig priv i s)
    unfolding Reached send_to
    send_to-Reached s h =
        let p = post sig (continued sig t) in
        let sent : send_sig euid sig (slot s.task i) priv ≡ (pos 0, some p) =
          ap (λ q. send_sig euid sig q priv) h ∙ send_sig-allowed euid sig t priv allowed in
        rw sent (slot-set_self s.task i (some p) t h, omega arith)

    pg_step-Reached :
        (s : Sweep) → slot s.task i ≡ some t → Reached (pg_step null euid pgrp sig priv i s)
    unfolding pg_step
    pg_step-Reached s h =
        let is_member : same (deref null (slot s.task i)).pgrp pgrp ≡ true =
          ap (λ q. same (deref null q).pgrp pgrp) h
          ∙ ap (λ g. same g pgrp) member
          ∙ same_self pgrp in
        rw is_member (send_to-Reached s h)

    pg_from-Reached :
        (n : ℕ) (s : Sweep)
        → 1 ≤ i
        → i ≤ n
        → slot s.task i ≡ some t
        → Reached (pg_from null euid pgrp sig priv n s)
    unfolding pg_from Reached
    pg_from-Reached zero s l k h = absurd (omega arith)
    pg_from-Reached (suc n) s l k h =
        let s' = pg_step null euid pgrp sig priv (suc n) s in
        elim (ℕ_discrete i (suc n)) [
          | yes e ↦
              let at_i : Reached (pg_step null euid pgrp sig priv i s) = pg_step-Reached s h in
              let here : Reached s' =
                subst (λ j. Reached (pg_step null euid pgrp sig priv j s)) e at_i in
              (
                pg_from-above n i s' (omega arith) ∙ here.0,
                omega (arith, here.1, pg_from-found n s'),
              )
          | no d ↦
              pg_from-Reached n s' l (omega arith) (pg_step-other i (suc n) s (λ e. d (sym e)) ∙ h)
        ]

nonzero : (n : ℕ) → 1 ≤ n → (n != 0) ≡ true
nonzero n l = ground arith

range :
    (k : ℕ) (pgrp : ℤ)
    → k < 32
    → pos 0 <ℤ pgrp
    → (out_of_range (pos (suc k)) || leb_ℤ pgrp (pos 0)) ≡ false
unfolding out_of_range
range k pgrp l h = ground arith

signal_bit-pos : (k : ℕ) → k < 32 → signal_bit (pos (suc k)) ≡ 2 ^ k
unfolding signal_bit to_u32
signal_bit-pos k l =
    let minus : pos (suc k) -ℤ pos 1 ≡ pos k =
      pos--ℤ (suc k) 1 (omega arith) ∙ ap pos (omega arith) in
    let small : k % 2 ^ 32 % 32 ≡ k = omega arith in rw minus (ap (λ e. 2 ^ e) small)

bit_or-has : (k x : ℕ) → bit k (bit_or x (2 ^ k)) ≡ 1
bit_or-has k x = omega (arith, bit-bit_or k x (2 ^ k), bit_pow_self k, bit-le-one k x)

-- The signal's number as the bit that stands for it.
bit-post :
    (k : ℕ) (p : Task) → k < 32 → p.sa_handler (pos k) ≢ 1 → bit k (post (pos (suc k)) p).signal ≡ 1
unfolding post
bit-post k p l n =
    let minus : pos (suc k) -ℤ pos 1 ≡ pos k =
      pos--ℤ (suc k) 1 (omega arith) ∙ ap pos (omega arith) in
    let caught : (p.sa_handler (pos k) == 1) ≡ false = ground arith in
    let is_bit : signal_bit (pos (suc k)) ≡ 2 ^ k = signal_bit-pos k l in
    rw (minus, caught, is_bit) (bit_or-has k _)

continued-sa_handler : (sig n : ℤ) (p : Task) → (continued sig p).sa_handler n ≡ p.sa_handler n
unfolding continued
continued-sa_handler sig n p = ground arith

-- A signal to a group succeeds when one member may get it. Each such member that does not ignore the
-- signal then has its bit among the pending signals, whatever the other slots hold and whether the
-- signal reached other members or not.
pub kill_pg-delivers :
    (null : Task) (euid : ℕ) (pgrp : ℤ) (k : ℕ) (priv : Bool) (ts : Table) (i : ℕ) (t : Task)
    → k < 32
    → pos 0 <ℤ pgrp
    → 1 ≤ i
    → i < nr_tasks
    → slot ts i ≡ some t
    → t.pgrp ≡ pgrp
    → t.sa_handler (pos k) ≢ 1
    → IsAllowed euid priv t
    → (ts' : Table) × (t' : Task) × (kill_pg null euid pgrp (pos (suc k)) priv ts ≡ (pos 0, ts'))
      × (slot ts' i ≡ some t')
      × (bit k t'.signal ≡ 1)
unfolding kill_pg Reached
kill_pg-delivers null euid pgrp k priv ts i t l positive first last_ h member caught allowed =
    let sig = pos (suc k) in
    let start : Sweep = record { task = ts; retval = negsuc 2; found = 0 } in
    let s = pg_from null euid pgrp sig priv (nr_tasks - 1) start in
    let reached : Reached null euid pgrp sig priv i t member allowed s =
      pg_from-Reached null euid pgrp sig priv i t member allowed (nr_tasks - 1) start first
        (omega arith) h in
    let in_range : (out_of_range sig || leb_ℤ pgrp (pos 0)) ≡ false = range k pgrp l positive in
    let some_found : (s.found != 0) ≡ true = nonzero s.found reached.1 in
    let t' = continued sig t in
    (
      s.task,
      post sig t',
      rw (in_range, some_found) refl,
      reached.0,
      bit-post k t' l (λ e. caught (sym (continued-sa_handler sig (pos k) t) ∙ e)),
    )
