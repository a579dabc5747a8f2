-- ===== src/Exit/Unlink.antt =====
-- kernel/exit.c: what taking out a task changes of the others.
use linux.Common.{
  ℕ, Option, none, some, ◌==◌, if◌then◌else◌, set, ◌≡◌, ◌≢◌, refl, arith, ℕ_discrete, ◌⊎◌, inl, inr,
}
use mathlib.Core.Option
use linux.Exit.{Task, Table, slot}
use linux.Exit.Tree.{change_at, unlink}
use linux.Exit.Siblings.{slot-set-none, slot-change, slot-change_at, is}

-- What taking out a task leaves of the task in slot `j`.
unfoldable pub closed : ℕ → Option ℕ → Option ℕ → ℕ → Task → Task
closed parent older none j t = record t {
  ysptr = if is older j then none else t.ysptr;
  cptr = if j == parent then older else t.cptr;
}
closed parent older (some y) j t = record t {
  ysptr = if is older j then some y else t.ysptr;
  osptr = if j == y then older else t.osptr;
}

pub slot-unlink :
    (ts : Table) (p j parent : ℕ) (older y : Option ℕ)
    → slot (unlink p parent older y ts) j
      ≡ (if j == p then none else Option.map (closed parent older y j) (slot ts j))
unfolding unlink closed
slot-unlink ts p j parent older none =
    let f : Task → Task = λ q. record q { ysptr = none } in
    let first =
      slot-change (change_at older f (set ts p none)) parent j (λ q. record q { cptr = older }) in
    let second = slot-change_at (set ts p none) older j f in
    rw (first, second, slot-set-none ts p j) (ground arith)
slot-unlink ts p j parent older (some y) =
    let f : Task → Task = λ q. record q { ysptr = some y } in
    let first =
      slot-change (change_at older f (set ts p none)) y j (λ q. record q { osptr = older }) in
    let second = slot-change_at (set ts p none) older j f in
    rw (first, second, slot-set-none ts p j) (ground arith)

pub closed-ysptr :
    (parent : ℕ) (o y : Option ℕ) (j : ℕ) (t : Task)
    → (closed parent o y j t).ysptr ≡ (if is o j then y else t.ysptr)
unfolding closed
closed-ysptr parent o none j t = refl
closed-ysptr parent o (some y) j t = refl

pub closed-osptr :
    (parent : ℕ) (o y : Option ℕ) (j : ℕ) (t : Task)
    → (closed parent o y j t).osptr ≡ (if is y j then o else t.osptr)
unfolding closed is
closed-osptr parent o none j t = refl
closed-osptr parent o (some y) j t = refl

pub closed-parent :
    (parent : ℕ) (o y : Option ℕ) (j : ℕ) (t : Task) → (closed parent o y j t).parent ≡ t.parent
unfolding closed
closed-parent parent o none j t = refl
closed-parent parent o (some y) j t = refl

pub closed-cptr :
    (parent : ℕ) (o y : Option ℕ) (j : ℕ) (t : Task)
    → ((y ≡ none) × (j ≡ parent) × ((closed parent o y j t).cptr ≡ o))
      ⊎ (((y ≡ none) → j ≢ parent) × ((closed parent o y j t).cptr ≡ t.cptr))
unfolding closed
closed-cptr parent o none j t = elim (ℕ_discrete j parent) [
  | yes e ↦ inl (refl, e, ground arith)
  | no n ↦ inr (λ q. n, ground arith)
]
closed-cptr parent o (some y) j t = inr (λ q. absurd (ground (arith, q)), refl)
