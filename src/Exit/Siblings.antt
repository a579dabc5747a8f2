-- ===== src/Exit/Siblings.antt =====
-- kernel/exit.c and kernel/fork.c: the process tree stays a tree.
use linux.Common.{
  ℕ, zero, suc, ◌≤◌, ◌<◌, Bool, true, false, Option, none, some, [], ◌∷◌, ◌==◌, if◌then◌else◌, set,
  length, ◌≡◌, ◌≢◌, refl, sym, ap, ◌∙◌, arith, ℕ_discrete, ◌⊎◌, inl, inr,
}
use mathlib.Core.Option
use linux.Exit.{Task, Table, slot}
use linux.Exit.Tree.{change, change_at}

-- What `audit_ptree` looks for. The older sibling of a task has it as its younger one, the younger
-- sibling has it as its older one, and they have its parent; the youngest child of a task has it as
-- its parent, and no younger sibling; a task without a younger sibling is its parent's youngest child
-- (the first task is its own parent, and nobody's child).
pub record IsTree (at : ℕ → Option Task) : Type 0 where
  pub older :
      (i o : ℕ) (t : Task)
      → at i ≡ some t
      → t.osptr ≡ some o
      → (u : Task) × (at o ≡ some u) × (u.ysptr ≡ some i) × (u.parent ≡ t.parent)
  pub younger :
      (i y : ℕ) (t : Task)
      → at i ≡ some t
      → t.ysptr ≡ some y
      → (u : Task) × (at y ≡ some u) × (u.osptr ≡ some i) × (u.parent ≡ t.parent)
  pub youngest :
      (i c : ℕ) (t : Task)
      → at i ≡ some t
      → t.cptr ≡ some c
      → (u : Task) × (at c ≡ some u) × (u.parent ≡ i) × (u.ysptr ≡ none)
  pub first :
      (i : ℕ) (t : Task)
      → 1 ≤ i
      → at i ≡ some t
      → t.ysptr ≡ none
      → (u : Task) × (at t.parent ≡ some u) × (u.cptr ≡ some i)

pub slot-set :
    (ts : Table) (i j : ℕ) (v : Option Task)
    → i < length ts
    → slot (set ts i v) j ≡ (if j == i then v else slot ts j)
slot-set [] i j v h = absurd (omega arith)
slot-set (x ∷ ts) zero zero v h = refl
slot-set (x ∷ ts) zero (suc j) v h = ground arith
slot-set (x ∷ ts) (suc i) zero v h = ground arith
slot-set (x ∷ ts) (suc i) (suc j) v h = slot-set ts i j v (omega arith) ∙ ground arith

pub slot-set-none :
    (ts : Table) (i j : ℕ) → slot (set ts i none) j ≡ (if j == i then none else slot ts j)
slot-set-none [] i j = ground arith
slot-set-none (x ∷ ts) zero zero = refl
slot-set-none (x ∷ ts) zero (suc j) = ground arith
slot-set-none (x ∷ ts) (suc i) zero = ground arith
slot-set-none (x ∷ ts) (suc i) (suc j) = slot-set-none ts i j ∙ ground arith

-- `is` is the option, as a test.
unfoldable pub is : Option ℕ → ℕ → Bool
is none j = false
is (some i) j = j == i

pub slot-change :
    (ts : Table) (i j : ℕ) (f : Task → Task)
    → slot (change i f ts) j ≡ (if j == i then Option.map f (slot ts j) else slot ts j)
slot-change [] i j f = ground arith
slot-change (x ∷ ts) zero zero f = refl
slot-change (x ∷ ts) zero (suc j) f = ground arith
slot-change (x ∷ ts) (suc i) zero f = ground arith
slot-change (x ∷ ts) (suc i) (suc j) f = slot-change ts i j f ∙ ground arith

pub slot-change_at :
    (ts : Table) (o : Option ℕ) (j : ℕ) (f : Task → Task)
    → slot (change_at o f ts) j ≡ (if is o j then Option.map f (slot ts j) else slot ts j)
unfolding is
slot-change_at ts none j f = refl
slot-change_at ts (some i) j f = slot-change ts i j f

pub is-cases :
    (o : Option ℕ) (j : ℕ) → ((o ≡ some j) × (is o j ≡ true)) ⊎ ((o ≢ some j) × (is o j ≡ false))
unfolding is
is-cases none j = inr (λ e. ground (arith, e), refl)
is-cases (some i) j = elim (ℕ_discrete j i) [
  | yes e ↦ inl (ap some (sym e), ground arith)
  | no n ↦ inr (λ e. ground (arith, e), ground arith)
]

pub is-at : (o : Option ℕ) (j : ℕ) → o ≡ some j → is o j ≡ true
is-at o j e = elim (is-cases o j) [ inl (f, b) ↦ b | inr (n, b) ↦ absurd (n e) ]
