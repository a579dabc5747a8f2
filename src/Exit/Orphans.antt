-- ===== src/Exit/Orphans.antt =====
-- kernel/exit.c: the children of a process that ends become children of init.
use linux.Common.{
  ℕ, ◌≤◌, Bool, true, false, not, ◌&&◌, some, List, [], ◌∷◌, if◌then◌else◌, length, ◌≡◌, refl, ◌∙◌,
  arith, Option-cases, inl, inr,
}
use linux.Common.Int.{ℤ}
use linux.Sched.{nr_tasks, TaskState}
use linux.Exit.{Task, Table, slot, deref, same}
use linux.Exit.Tree.{change, hang_up, notify, adopt_all, announce, do_exit, leave_session, Tty}
use linux.Exit.Reap.{Each}
use linux.Exit.Links.{
  links, SameLinks, same_links, then_links, if-SameLinks, change-SameLinks, hang_up-SameLinks,
  leave_session-SameLinks,
}
use linux.Exit.Line.{parent_of, Line, same_view, parent_of-same, older_of-same, Line-same}
use linux.Exit.Adoption.{IsInits, adopt_all-children}

module _ (null : Task) (fg_console current : ℕ) (code : ℤ) (ttys : ℕ → Tty) where
  end_children :
      (ts : Table) (leader : Bool) (l : List ℕ)
      → Each (λ q. parent_of ts q ≡ some 1) l
      → Each
          (λ q.
            parent_of
              (if leader then leave_session null fg_console current ttys ts else (ttys, ts)).1
              q
            ≡ some 1)
          l
  unfolding Each
  end_children ts leader [] v = tt
  end_children ts true (q ∷ l) v = (
    parent_of-same q (leave_session-SameLinks null fg_console current ttys ts) ∙ v.0,
    end_children ts true l v.1,
  )
  end_children ts false (q ∷ l) v = v

announce-SameLinks :
    (null : Task) (current : ℕ) (code : ℤ) (ts : Table)
    → SameLinks ts (announce null current code ts)
unfolding announce links
announce-SameLinks null current code ts =
    let die : Task → Task = λ q. record q { state = TaskState.zombie; exit_code = code } in
    let dead = change current die ts in
    let me = deref null (slot dead current) in
    let parent = deref null (slot dead me.parent) in
    let b = not (same parent.pgrp me.pgrp) && same parent.session me.session in
    let hung = (if b then hang_up null me.euid me.pgrp dead else dead) in
    then_links (change-SameLinks current die ts (λ t. refl)) (
      then_links (if-SameLinks b (hang_up-SameLinks null me.euid me.pgrp dead) (same_links dead))
        (change-SameLinks me.parent notify hung (λ t. refl)))

cptr-same :
    (null me : Task) {ts ts' : Table} (j : ℕ)
    → SameLinks ts ts'
    → slot ts j ≡ some me
    → (deref null (slot ts' j)).cptr ≡ me.cptr
unfolding links
cptr-same null me {ts} {ts'} j s live =
    let view = same_view (λ l. l.1) j s in
    elim (Option-cases (slot ts' j)) [ inl e ↦ absurd (ground arith) | inr (t, e) ↦ ground arith ]

-- Every process that is a child of one that ends has init as its parent afterwards, whatever signals
-- go out on the way: `children` are the slots of the children, from the youngest one on, at most as
-- many as the table has.
pub do_exit-adopts :
    (null : Task) (fg_console current : ℕ) (code : ℤ) (ttys : ℕ → Tty) (ts : Table) (me : Task)
    (children : List ℕ)
    → slot ts current ≡ some me
    → Line ts me.cptr children
    → length children ≤ nr_tasks
    → Each (λ q. parent_of (do_exit null fg_console current code ttys ts).1 q ≡ some 1) children
unfolding do_exit IsInits
do_exit-adopts null fg_console current code ttys ts me children live line few =
    let told = announce null current code ts in
    let links_told = announce-SameLinks null current code ts in
    let given = adopt_all null current told in
    end_children null fg_console current code ttys given (deref null (slot given current)).leader
      children
      (adopt_all-children null current told me.cptr children
        (cptr-same null me current links_told live)
        (Line-same ts told me.cptr children (λ j. older_of-same j links_told) line) few)
