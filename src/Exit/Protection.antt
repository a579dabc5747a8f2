-- ===== src/Exit/Protection.antt =====
-- kernel/exit.c: a process without privileges cannot touch the processes of others.
use linux.Common.{
  ℕ, zero, suc, ◌-◌, false, ◌||◌, Option, some, [], ◌∷◌, set, ◌≡◌, ◌≢◌, refl, sym, ap, ◌∙◌, arith,
  Bool-cases, inl, inr,
}
use linux.Common.Int.{ℤ, pos, negsuc, ◌-ℤ◌, ltb_ℤ, leb_ℤ, wrap32}
use linux.Sched.{nr_tasks}
use linux.Exit.{
  Task, Table, slot, deref, same, send_sig, eperm, Sweep, send_to, pg_step, pg_from, out_of_range,
  kill_pg, proc_from, kill_proc, all_from, sys_kill,
}

slot-set :
    (ts : Table) (i j : ℕ) (v : Option Task) (t : Task)
    → slot ts i ≡ some t
    → (i ≡ j → v ≡ some t)
    → slot (set ts j v) i ≡ some t
slot-set [] i j v t h e = h
slot-set (x ∷ ts) zero zero v t h e = e refl
slot-set (x ∷ ts) zero (suc j) v t h e = h
slot-set (x ∷ ts) (suc i) zero v t h e = h
slot-set (x ∷ ts) (suc i) (suc j) v t h e = slot-set ts i j v t h (λ l. e (ap suc l))

-- Another user's process, seen by a caller without privileges.
module _ (euid : ℕ) (i : ℕ) (t : Task) (no_suser : euid ≢ 0) (other : euid ≢ t.euid) where
  send_sig-refused : (sig : ℤ) → send_sig euid sig (some t) false ≡ (eperm, some t)
  unfolding send_sig
  send_sig-refused sig = ground arith

  kept :
      (sig : ℤ) (ts : Table) (j : ℕ)
      → slot ts i ≡ some t
      → slot (set ts j (send_sig euid sig (slot ts j) false).1) i ≡ some t
  kept sig ts j h = slot-set ts i j (send_sig euid sig (slot ts j) false).1 t h (λ e.
      let at : slot ts j ≡ some t = ap (slot ts) (sym e) ∙ h in
      ap (λ p. (send_sig euid sig p false).1) at ∙ ap (λ r. r.1) (send_sig-refused sig))

  send_to-kept :
      (sig : ℤ) (s : Sweep) (j : ℕ)
      → slot s.task i ≡ some t
      → slot (send_to euid sig false j s).task i ≡ some t
  unfolding send_to
  send_to-kept sig s j h = ground (arith, kept sig s.task j h)

  pg_step-kept :
      (null : Task) (pgrp sig : ℤ) (s : Sweep) (j : ℕ)
      → slot s.task i ≡ some t
      → slot (pg_step null euid pgrp sig false j s).task i ≡ some t
  unfolding pg_step
  pg_step-kept null pgrp sig s j h = ground (arith, send_to-kept sig s j h)

  pg_from-kept :
      (null : Task) (pgrp sig : ℤ) (n : ℕ) (s : Sweep)
      → slot s.task i ≡ some t
      → slot (pg_from null euid pgrp sig false n s).task i ≡ some t
  unfolding pg_from
  pg_from-kept null pgrp sig zero s h = h
  pg_from-kept null pgrp sig (suc n) s h =
      pg_from-kept null pgrp sig n (pg_step null euid pgrp sig false (suc n) s)
        (pg_step-kept null pgrp sig s (suc n) h)

  all_from-kept :
      (sig : ℤ) (n : ℕ) (s : Sweep)
      → slot s.task i ≡ some t
      → slot (all_from euid sig n s).task i ≡ some t
  unfolding all_from
  all_from-kept sig zero s h = h
  all_from-kept sig (suc n) s h =
      all_from-kept sig n (send_to euid sig false (suc n) s) (send_to-kept sig s (suc n) h)

  kill_pg-kept :
      (null : Task) (pgrp sig : ℤ) (ts : Table)
      → slot ts i ≡ some t
      → slot (kill_pg null euid pgrp sig false ts).1 i ≡ some t
  unfolding kill_pg
  kill_pg-kept null pgrp sig ts h = elim (Bool-cases (out_of_range sig || leb_ℤ pgrp (pos 0))) [
    | inl e ↦ rw e h
    | inr e ↦ rw e (
        pg_from-kept null pgrp sig (nr_tasks - 1)
          (record { task = ts; retval = negsuc 2; found = 0 }) h)
  ]

  proc_from-kept :
      (null : Task) (pid sig : ℤ) (ts : Table) (n : ℕ)
      → slot ts i ≡ some t
      → slot (proc_from null euid pid sig false ts n).1 i ≡ some t
  unfolding proc_from
  proc_from-kept null pid sig ts zero h = h
  proc_from-kept null pid sig ts (suc n) h =
      elim (Bool-cases (same (deref null (slot ts (suc n))).pid pid)) [
        | inl e ↦ rw e (kept sig ts (suc n) h)
        | inr e ↦ rw e (proc_from-kept null pid sig ts n h)
      ]

  kill_proc-kept :
      (null : Task) (pid sig : ℤ) (ts : Table)
      → slot ts i ≡ some t
      → slot (kill_proc null euid pid sig false ts).1 i ≡ some t
  unfolding kill_proc
  kill_proc-kept null pid sig ts h = elim (Bool-cases (out_of_range sig)) [
    | inl e ↦ rw e h
    | inr e ↦ rw e (proc_from-kept null pid sig ts (nr_tasks - 1) h)
  ]

-- Whatever process, group or all processes a caller without privileges names, and whatever the
-- signal, sys_kill leaves every process with another effective user id as it is.
pub sys_kill-protects :
    (null current : Task) (pid sig : ℤ) (ts : Table) (i : ℕ) (t : Task)
    → current.euid ≢ 0
    → current.euid ≢ t.euid
    → slot ts i ≡ some t
    → slot (sys_kill null current pid sig ts).1 i ≡ some t
unfolding sys_kill
sys_kill-protects null current pid sig ts i t no_suser other h =
    let me = current.euid in
    elim (Bool-cases (same pid (pos 0))) [
      | inl e ↦ rw e (kill_pg-kept me i t no_suser other null current.pid sig ts h)
      | inr e ↦ rw e (elim (Bool-cases (same pid (negsuc 0))) [
        | inl f ↦ rw f (
            all_from-kept me i t no_suser other sig (nr_tasks - 1)
              (record { task = ts; retval = pos 0; found = 0 }) h)
        | inr f ↦ rw f (elim (Bool-cases (ltb_ℤ pid (pos 0))) [
          | inl g ↦ rw g (kill_pg-kept me i t no_suser other null (wrap32 (pos 0 -ℤ pid)) sig ts h)
          | inr g ↦ rw g (kill_proc-kept me i t no_suser other null pid sig ts h)
        ])
      ])
    ]
