-- ===== src/Sys/Session.antt =====
-- kernel/sys.c: process groups and sessions.
use linux.Common.{
  ℕ, zero, suc, Bool, true, false, not, ◌&&◌, ◌||◌, none, some, ◌==◌, if◌then◌else◌, set, ◌≡◌, refl,
  arith, Bool-cases, Option-cases, ◌⊎◌, inl, inr,
}
use linux.Common.Int.{ℤ, pos, negsuc, ltb_ℤ}
use linux.Sched.{nr_tasks}
use linux.Signal.{einval}
use linux.Exit.{Task, Table, slot, same, session_of_pgrp, eperm, esrch}

-- May `current` move the task to group `pgid`?
unfoldable pub is_movable : Task → Table → Task → ℤ → ℤ → Task → Bool
is_movable null ts current pid pgid t =
    if t.leader
    then false
    else not (
        not (same t.session current.session)
        || not (same pgid pid) && not (same (session_of_pgrp null ts pgid) current.session))

-- The task found in slot `i`.
unfoldable pub move : Task → Table → Task → ℤ → ℤ → ℕ → Task → ℤ × Table
move null ts current pid pgid i t =
    if is_movable null ts current pid pgid t
    then (pos 0, set ts i (some (record t { pgrp = pgid })))
    else (eperm, ts)

-- Is it the process `pid`, and the caller (in slot `me`) or a child of it?
unfoldable pub is_found : ℕ → ℤ → ℕ → Task → Bool
is_found me pid i t = same t.pid pid && (t.parent == me || i == me)

-- The loop from slot `i` on, with the number of slots left.
unfoldable pub setpgid_from : Task → Table → ℕ → Task → ℤ → ℤ → ℕ → ℕ → ℤ × Table
setpgid_from null ts me current pid pgid zero i = (esrch, ts)
setpgid_from null ts me current pid pgid (suc n) i =
    let rest = setpgid_from null ts me current pid pgid n (suc i) in
    elim (slot ts i) [
      | none ↦ rest
      | some t ↦ if is_found me pid i t then move null ts current pid pgid i t else rest
    ]

unfoldable pub sys_setpgid : Task → Table → ℕ → Task → ℤ → ℤ → ℤ × Table
sys_setpgid null ts me current pid0 pgid0 =
    let pid = if same pid0 (pos 0) then current.pid else pid0 in
    let pgid = if same pgid0 (pos 0) then current.pid else pgid0 in
    let r = setpgid_from null ts me current pid pgid nr_tasks 0 in
    if ltb_ℤ pgid (pos 0) then (einval, ts) else r

-- The caller becomes the leader of a session and of a group of its own, without a terminal.
unfoldable pub sys_setsid : Table → ℕ → Task → ℤ × Table
sys_setsid ts me current =
    let led = record current {
      leader = true;
      session = current.pid;
      pgrp = current.pid;
      tty = negsuc 0;
    } in
    if current.leader && not (current.euid == 0)
    then (eperm, ts)
    else (current.pid, set ts me (some led))

-- How sys_setpgid ends: with an error and nothing changed, or with one task moved to a group, which is
-- the caller or its child, no leader, and in the caller's session; the group is the task's own or
-- one that session_of_pgrp finds in that session.
unfoldable pub Moves : Task → Table → ℕ → Task → ℤ × Table → Type 0
Moves null ts me current r =
    ((ltb_ℤ (r.0) (pos 0) ≡ true) × (r.1 ≡ ts))
    ⊎ ((i : ℕ) × (t : Task) × (pgid : ℤ) × (slot ts i ≡ some t)
        × (r ≡ (pos 0, set ts i (some (record t { pgrp = pgid }))))
        × ((t.parent ≡ me) ⊎ (i ≡ me))
        × (t.leader ≡ false)
        × (same t.session current.session ≡ true)
        × ((same pgid t.pid ≡ true) ⊎ (same (session_of_pgrp null ts pgid) current.session ≡ true)))

module _ (null : Task) (ts : Table) (me : ℕ) (current : Task) (pid pgid : ℤ) where
  ours : (i : ℕ) (t : Task) → is_found me pid i t ≡ true → (t.parent ≡ me) ⊎ (i ≡ me)
  unfolding is_found
  ours i t h = ground (arith, h)

  same_trans : (t : Task) → same t.pid pid ≡ true → same pgid pid ≡ true → same pgid t.pid ≡ true
  same_trans t h k = ground (arith, h, k)

  move-Moves :
      (i : ℕ) (t : Task)
      → slot ts i ≡ some t
      → is_found me pid i t ≡ true
      → Moves null ts me current (move null ts current pid pgid i t)
  unfolding Moves move is_movable is_found
  move-Moves i t at found = elim (Bool-cases (is_movable null ts current pid pgid t)) [
    | inr e ↦ rw e (inl (refl, refl))
    | inl e ↦ rw e (
        inr (
          i,
          t,
          pgid,
          at,
          refl,
          ours i t found,
          ground (arith, e),
          ground (arith, e),
          ground (arith, e, found),
        ))
  ]

  -- How the search goes on at an empty slot, at another task, and at the one it looks for.
  setpgid_from-empty :
      (n i : ℕ)
      → slot ts i ≡ none
      → setpgid_from null ts me current pid pgid (suc n) i
        ≡ setpgid_from null ts me current pid pgid n (suc i)
  unfolding setpgid_from
  setpgid_from-empty n i e = ground (arith, e)

  setpgid_from-task :
      (n i : ℕ) (t : Task)
      → slot ts i ≡ some t
      → setpgid_from null ts me current pid pgid (suc n) i ≡ (
          if is_found me pid i t
          then move null ts current pid pgid i t
          else setpgid_from null ts me current pid pgid n (suc i))
  unfolding setpgid_from
  setpgid_from-task n i t e = ground (arith, e)

  setpgid_from-Moves :
      (n i : ℕ) → Moves null ts me current (setpgid_from null ts me current pid pgid n i)
  unfolding Moves setpgid_from
  setpgid_from-Moves zero i = inl (refl, refl)
  setpgid_from-Moves (suc n) i = elim (Option-cases (slot ts i)) [
    | inl e ↦ rw (setpgid_from-empty n i e) (setpgid_from-Moves n (suc i))
    | inr (t, e) ↦ rw (setpgid_from-task n i t e) (elim (Bool-cases (is_found me pid i t)) [
      | inl f ↦ rw f (move-Moves i t e f)
      | inr f ↦ rw f (setpgid_from-Moves n (suc i))
    ])
  ]

-- sys_setpgid ends with an error and changes nothing, or moves one task, the caller or a child of it
-- that is no leader, within the caller's session, and changes nothing else of any task.
pub sys_setpgid-Moves :
    (null : Task) (ts : Table) (me : ℕ) (current : Task) (pid pgid : ℤ)
    → Moves null ts me current (sys_setpgid null ts me current pid pgid)
unfolding sys_setpgid Moves
sys_setpgid-Moves null ts me current pid0 pgid0 =
    let pid = if same pid0 (pos 0) then current.pid else pid0 in
    let pgid = if same pgid0 (pos 0) then current.pid else pgid0 in
    elim (Bool-cases (ltb_ℤ pgid (pos 0))) [
      | inl e ↦ rw e (inl (refl, refl))
      | inr e ↦ rw e (setpgid_from-Moves null ts me current pid pgid nr_tasks 0)
    ]
