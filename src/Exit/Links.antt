-- ===== src/Exit/Links.antt =====
-- kernel/exit.c: signals leave the links of the process tree alone.
use linux.Common.{
  ℕ, zero, suc, ◌-◌, Bool, true, false, not, ◌&&◌, ◌||◌, Option, none, some, [], ◌∷◌, ◌==◌, ◌!=◌,
  if◌then◌else◌, set, ◌≡◌, refl, ap, ◌∙◌, arith, Bool-cases, Option-cases, inl, inr,
}
use mathlib.Core.Option
use linux.Common.Int.{ℤ, pos, negsuc, ◌-ℤ◌, ltb_ℤ, leb_ℤ, pos_part}
use linux.Sched.{nr_tasks, sigkill}
use linux.Exit.{
  Task, Table, slot, deref, same, send_sig, Sweep, send_to, pg_step, pg_from, kill_pg, post,
  continued, esrch, out_of_range, is_orphaned_pgrp, has_stopped_jobs,
}
use linux.Signal.{sigcont}
use linux.Exit.Tree.{change, hang_up, drop_tty, leave_session, Tty, sighup, tty_index}
use linux.Exit.Siblings.{slot-change}

-- The parent, the youngest child and the older sibling.
unfoldable pub links : Task → ℕ × Option ℕ × Option ℕ
links t = (t.parent, t.cptr, t.osptr)

pub record SameLinks (ts ts' : Table) : Type 0 where
  pub at : (j : ℕ) → Option.map links (slot ts' j) ≡ Option.map links (slot ts j)

pub same_links : (ts : Table) → SameLinks ts ts
same_links ts = record { at = λ j. refl }

pub then_links : {a b c : Table} → SameLinks a b → SameLinks b c → SameLinks a c
then_links f g = record { at = λ j. g.at j ∙ f.at j }

pub if-SameLinks :
    (b : Bool) {ts x y : Table}
    → SameLinks ts x
    → SameLinks ts y
    → SameLinks ts (if b then x else y)
if-SameLinks true f g = f
if-SameLinks false f g = g

pub change-SameLinks :
    (i : ℕ) (f : Task → Task) (ts : Table)
    → ((t : Task) → links (f t) ≡ links t)
    → SameLinks ts (change i f ts)
change-SameLinks i f ts h = record {
  at = λ j. elim (Option-cases (slot ts j)) [
    | inl e ↦ rw (slot-change ts i j f, e) (ground arith)
    | inr (t, e) ↦ rw (slot-change ts i j f, e) (ground (arith, h t))
  ];
}

set-links :
    (ts : Table) (i : ℕ) (v : Option Task) (j : ℕ)
    → Option.map links v ≡ Option.map links (slot ts i)
    → Option.map links (slot (set ts i v) j) ≡ Option.map links (slot ts j)
set-links [] i v j h = refl
set-links (x ∷ ts) zero v zero h = h
set-links (x ∷ ts) zero v (suc j) h = refl
set-links (x ∷ ts) (suc i) v zero h = refl
set-links (x ∷ ts) (suc i) v (suc j) h = set-links ts i v j h

set-SameLinks :
    (ts : Table) (i : ℕ) (v : Option Task)
    → Option.map links v ≡ Option.map links (slot ts i)
    → SameLinks ts (set ts i v)
set-SameLinks ts i v h = record { at = λ j. set-links ts i v j h }

post-links : (sig : ℤ) (p : Task) → links (post sig p) ≡ links p
unfolding post links
post-links sig p = elim (Bool-cases (p.sa_handler (sig -ℤ pos 1) == 1)) [
  | inl e ↦ rw e refl
  | inr e ↦ rw e refl
]

continued-links : (sig : ℤ) (p : Task) → links (continued sig p) ≡ links p
unfolding continued links
continued-links sig p = elim (Bool-cases (same sig (pos sigkill) || same sig (pos sigcont))) [
  | inl e ↦ rw e refl
  | inr e ↦ rw e refl
]

send_sig-links :
    (euid : ℕ) (sig : ℤ) (o : Option Task) (priv : Bool)
    → Option.map links (send_sig euid sig o priv).1 ≡ Option.map links o
unfolding send_sig
send_sig-links euid sig none priv = refl
send_sig-links euid sig (some p) priv =
    let sent = ap some (post-links sig (continued sig p) ∙ continued-links sig p) in
    elim (Bool-cases (not priv && euid != p.euid && not (euid == 0))) [
      | inl e ↦ rw e refl
      | inr e ↦ rw e sent
    ]

send_to-SameLinks :
    (euid : ℕ) (sig : ℤ) (priv : Bool) (i : ℕ) (s : Sweep)
    → SameLinks s.task (send_to euid sig priv i s).task
unfolding send_to
send_to-SameLinks euid sig priv i s =
    let r = send_sig euid sig (slot s.task i) priv in
    let v = set-SameLinks s.task i r.1 (send_sig-links euid sig (slot s.task i) priv) in
    elim (Bool-cases (same r.0 (pos 0))) [ inl e ↦ rw e v | inr e ↦ rw e v ]

pg_step-SameLinks :
    (null : Task) (euid : ℕ) (pgrp sig : ℤ) (priv : Bool) (i : ℕ) (s : Sweep)
    → SameLinks s.task (pg_step null euid pgrp sig priv i s).task
unfolding pg_step
pg_step-SameLinks null euid pgrp sig priv i s =
    elim (Bool-cases (same (deref null (slot s.task i)).pgrp pgrp)) [
      | inl e ↦ rw e (send_to-SameLinks euid sig priv i s)
      | inr e ↦ rw e (same_links s.task)
    ]

pg_from-SameLinks :
    (null : Task) (euid : ℕ) (pgrp sig : ℤ) (priv : Bool) (n : ℕ) (s : Sweep)
    → SameLinks s.task (pg_from null euid pgrp sig priv n s).task
unfolding pg_from
pg_from-SameLinks null euid pgrp sig priv zero s = same_links s.task
pg_from-SameLinks null euid pgrp sig priv (suc n) s =
    then_links (pg_step-SameLinks null euid pgrp sig priv (suc n) s)
      (pg_from-SameLinks null euid pgrp sig priv n (pg_step null euid pgrp sig priv (suc n) s))

pub kill_pg-SameLinks :
    (null : Task) (euid : ℕ) (pgrp sig : ℤ) (priv : Bool) (ts : Table)
    → SameLinks ts (kill_pg null euid pgrp sig priv ts).1
unfolding kill_pg
kill_pg-SameLinks null euid pgrp sig priv ts =
    let start : Sweep = record { task = ts; retval = esrch; found = 0 } in
    elim (Bool-cases (out_of_range sig || leb_ℤ pgrp (pos 0))) [
      | inl e ↦ rw e (same_links ts)
      | inr e ↦ rw e (pg_from-SameLinks null euid pgrp sig priv (nr_tasks - 1) start)
    ]

pub hang_up-SameLinks :
    (null : Task) (euid : ℕ) (pgrp : ℤ) (ts : Table) → SameLinks ts (hang_up null euid pgrp ts)
unfolding hang_up
hang_up-SameLinks null euid pgrp ts =
    let up = (kill_pg null euid pgrp (pos sighup) true ts).1 in
    if-SameLinks (is_orphaned_pgrp null ts pgrp && has_stopped_jobs null ts pgrp)
      (then_links (kill_pg-SameLinks null euid pgrp (pos sighup) true ts)
        (kill_pg-SameLinks null euid pgrp (pos sigcont) true up))
      (same_links ts)

pub drop_tty-SameLinks :
    (null : Task) (session : ℤ) (n : ℕ) (ts : Table) → SameLinks ts (drop_tty null session n ts)
unfolding drop_tty links
drop_tty-SameLinks null session zero ts = same_links ts
drop_tty-SameLinks null session (suc n) ts =
    let drop : Task → Task = λ q. record q { tty = negsuc 0 } in
    let b = same (deref null (slot ts (suc n))).session session in
    let ts' = (if b then change (suc n) drop ts else ts) in
    then_links (if-SameLinks b (change-SameLinks (suc n) drop ts (λ t. refl)) (same_links ts))
      (drop_tty-SameLinks null session n ts')

pub leave_session-SameLinks :
    (null : Task) (fg_console current : ℕ) (ttys : ℕ → Tty) (ts : Table)
    → SameLinks ts (leave_session null fg_console current ttys ts).1
unfolding leave_session
leave_session-SameLinks null fg_console current ttys ts =
    let me = deref null (slot ts current) in
    let group = (ttys (tty_index fg_console (pos_part me.tty))).pgrp in
    let hung =
      (if ltb_ℤ (pos 0) group then (kill_pg null me.euid group (pos sighup) true ts).1 else ts) in
    let up =
      if-SameLinks (ltb_ℤ (pos 0) group) (kill_pg-SameLinks null me.euid group (pos sighup) true ts)
        (same_links ts) in
    elim (Bool-cases (ltb_ℤ me.tty (pos 0))) [
      | inl e ↦ rw e (drop_tty-SameLinks null me.session (nr_tasks - 1) ts)
      | inr e ↦ rw e (
          then_links up
            (drop_tty-SameLinks null (deref null (slot hung current)).session (nr_tasks - 1) hung))
    ]
