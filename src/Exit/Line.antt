-- ===== src/Exit/Line.antt =====
-- kernel/exit.c: the links that the loop over the children looks at and changes.
use linux.Common.{
  ℕ, Option, none, some, List, [], ◌∷◌, ◌≡◌, refl, sym, ap, ◌∙◌, arith, Option-cases, inl, inr,
}
use mathlib.Core.Option
use linux.Exit.{Task, Table, slot}
use linux.Exit.Tree.{change}
use linux.Exit.Siblings.{slot-change}
use linux.Exit.Links.{links, SameLinks}

-- The parent and the older sibling of the task in a slot, if there is one.
unfoldable pub parent_of : Table → ℕ → Option ℕ
parent_of ts j = Option.map (λ t. t.parent) (slot ts j)

unfoldable pub older_of : Table → ℕ → Option (Option ℕ)
older_of ts j = Option.map (λ t. t.osptr) (slot ts j)

-- The tasks from one on, each the older sibling of the one before; none of the slots is empty.
unfoldable pub Line : Table → Option ℕ → List ℕ → Type 0
Line ts none [] = Unit {0}
Line ts none (q ∷ l) = ⊥
Line ts (some p) [] = ⊥
Line ts (some p) (q ∷ l) = (p ≡ q) × ((o : Option ℕ) × (older_of ts p ≡ some o) × Line ts o l)

map-links :
    {B : Type 0} (f : ℕ × Option ℕ × Option ℕ → B) (o : Option Task)
    → Option.map f (Option.map links o) ≡ Option.map (λ t. f (links t)) o
map-links f none = refl
map-links f (some t) = refl

pub same_view :
    {B : Type 0} (f : ℕ × Option ℕ × Option ℕ → B) {ts ts' : Table} (j : ℕ)
    → SameLinks ts ts'
    → Option.map (λ t. f (links t)) (slot ts' j) ≡ Option.map (λ t. f (links t)) (slot ts j)
same_view f {ts} {ts'} j s =
    sym (map-links f (slot ts' j)) ∙ ap (Option.map f) (s.at j) ∙ map-links f (slot ts j)

pub parent_of-same : {ts ts' : Table} (j : ℕ) → SameLinks ts ts' → parent_of ts' j ≡ parent_of ts j
unfolding parent_of links
parent_of-same j s = same_view (λ l. l.0) j s

pub older_of-same : {ts ts' : Table} (j : ℕ) → SameLinks ts ts' → older_of ts' j ≡ older_of ts j
unfolding older_of links
older_of-same j s = same_view (λ l. l.2) j s

-- A change that keeps a field, and one of another slot.
pub map-change :
    {B : Type 0} (f : Task → B) (i j : ℕ) (g : Task → Task) (ts : Table)
    → ((t : Task) → f (g t) ≡ f t)
    → Option.map f (slot (change i g ts) j) ≡ Option.map f (slot ts j)
map-change f i j g ts h = elim (Option-cases (slot ts j)) [
  | inl e ↦ rw (slot-change ts i j g, e) (ground arith)
  | inr (t, e) ↦ rw (slot-change ts i j g, e) (ground (arith, h t))
]

unfoldable pub to_init : Task → Task
to_init q = record q { parent = 1 }

pub to_init-parent :
    (p j : ℕ) (ts : Table) → parent_of ts j ≡ some 1 → parent_of (change p to_init ts) j ≡ some 1
unfolding parent_of to_init
to_init-parent p j ts e = elim (Option-cases (slot ts j)) [
  | inl f ↦ absurd (ground arith)
  | inr (t, f) ↦ rw (slot-change ts p j to_init, f) (ground arith)
]

pub to_init_self :
    (p : ℕ) (o : Option ℕ) (ts : Table)
    → older_of ts p ≡ some o
    → parent_of (change p to_init ts) p ≡ some 1
unfolding parent_of older_of to_init
to_init_self p o ts e = elim (Option-cases (slot ts p)) [
  | inl f ↦ absurd (ground arith)
  | inr (t, f) ↦ rw (slot-change ts p p to_init, f) (ground arith)
]

pub Line-same :
    (ts ts' : Table) (o : Option ℕ) (l : List ℕ)
    → ((j : ℕ) → older_of ts' j ≡ older_of ts j)
    → Line ts o l
    → Line ts' o l
unfolding Line
Line-same ts ts' none [] h v = tt
Line-same ts ts' none (q ∷ l) h v = absurd v
Line-same ts ts' (some p) [] h v = absurd v
Line-same ts ts' (some p) (q ∷ l) h (e, (o, f, v)) = (e, (o, h p ∙ f, Line-same ts ts' o l h v))
