-- ===== src/Exit/Release.antt =====
-- kernel/exit.c: `release` keeps the process tree.
use linux.Common.{
  ℕ, ◌≤◌, ◌<◌, false, ◌||◌, Option, none, some, leb, ◌==◌, if◌then◌else◌, Option-cases, ◌≡◌, ◌≢◌,
  refl, sym, ap, ◌∙◌, arith, ℕ_discrete, ◌⊎◌, inl, inr,
}
use mathlib.Core.Option
use linux.Sched.{nr_tasks}
use linux.Exit.{Task, Table, slot}
use linux.Exit.Tree.{release, unlink}
use linux.Exit.Siblings.{IsTree, is, is-cases, is-at}
use linux.Exit.Unlink.{closed, slot-unlink, closed-ysptr, closed-osptr, closed-parent, closed-cptr}

module _ (at at' : ℕ → Option Task) (p : ℕ) (tp : Task) (live : at p ≡ some tp)
    (no_child : tp.cptr ≡ none) (not_first : 1 ≤ p) (tree : IsTree at)
    (now : (j : ℕ)
      → at' j
        ≡ (if j == p then none else Option.map (closed tp.parent tp.osptr tp.ysptr j) (at j))) where
  left : ℕ → Task → Task
  left j t = closed tp.parent tp.osptr tp.ysptr j t

  forth : (j : ℕ) (t : Task) → j ≢ p → at j ≡ some t → at' j ≡ some (left j t)
  unfolding left
  forth j t n e = now j ∙ ground arith

  back :
      (j : ℕ) (t' : Task)
      → at' j ≡ some t'
      → (j ≢ p) × ((t : Task) × (at j ≡ some t) × (t' ≡ left j t))
  unfolding left
  back j t' e = elim (ℕ_discrete j p) [
    | yes q ↦ absurd (ground (arith, now j))
    | no n ↦ elim (Option-cases (at j)) [
      | inl f ↦ absurd (ground (arith, now j))
      | inr (t, f) ↦ (n, (t, f, ground (arith, now j)))
    ]
  ]

  -- One slot holds one task.
  one : (i j : ℕ) (t u : Task) → at i ≡ some t → at j ≡ some u → i ≡ j → t ≡ u
  one i j t u e f q = ground arith

  left-ysptr : (j : ℕ) (t : Task) → (left j t).ysptr ≡ (if is tp.osptr j then tp.ysptr else t.ysptr)
  unfolding left
  left-ysptr j t = closed-ysptr tp.parent tp.osptr tp.ysptr j t

  left-osptr : (j : ℕ) (t : Task) → (left j t).osptr ≡ (if is tp.ysptr j then tp.osptr else t.osptr)
  unfolding left
  left-osptr j t = closed-osptr tp.parent tp.osptr tp.ysptr j t

  left-parent : (j : ℕ) (t : Task) → (left j t).parent ≡ t.parent
  unfolding left
  left-parent j t = closed-parent tp.parent tp.osptr tp.ysptr j t

  left-cptr :
      (j : ℕ) (t : Task)
      → ((tp.ysptr ≡ none) × (j ≡ tp.parent) × ((left j t).cptr ≡ tp.osptr))
        ⊎ (((tp.ysptr ≡ none) → j ≢ tp.parent) × ((left j t).cptr ≡ t.cptr))
  unfolding left
  left-cptr j t = closed-cptr tp.parent tp.osptr tp.ysptr j t

  -- A task whose younger sibling is not `p` is not the older sibling of `p`.
  not_older : (i o : ℕ) (u : Task) → at o ≡ some u → u.ysptr ≢ some p → is tp.osptr o ≡ false
  not_older i o u au n = elim (is-cases tp.osptr o) [
    | inl (z, c) ↦
        let (v, av, vy, vp) = tree.older p o tp live z in
        let k = one o o u v au av refl in absurd (n (ground arith))
    | inr (z, c) ↦ c
  ]

  not_younger : (y : ℕ) (u : Task) → at y ≡ some u → u.osptr ≢ some p → is tp.ysptr y ≡ false
  not_younger y u au n = elim (is-cases tp.ysptr y) [
    | inl (z, c) ↦
        let (v, av, vo, vp) = tree.younger p y tp live z in
        let k = one y y u v au av refl in absurd (n (ground arith))
    | inr (z, c) ↦ c
  ]

  older_left :
      (i o : ℕ) (t : Task)
      → i ≢ p
      → at i ≡ some t
      → (left i t).osptr ≡ some o
      → (u : Task) × (at' o ≡ some u) × (u.ysptr ≡ some i) × (u.parent ≡ (left i t).parent)
  older_left i o t n e h = elim (is-cases tp.ysptr i) [
    | inl (y, b) ↦
        let os = left-osptr i t in
        let o_tp : tp.osptr ≡ some o = ground arith in
        let (u, au, uy, up) = tree.older p o tp live o_tp in
        let (v, av, vo, vp) = tree.younger p i tp live y in
        let tv = one i i t v e av refl in
        let q : o ≢ p = λ q. (let k = one o p u tp au live q in n (ground arith)) in
        let is_o = is-at tp.osptr o o_tp in
        (
          left o u,
          forth o u q au,
          left-ysptr o u ∙ rw is_o y,
          left-parent o u ∙ up ∙ sym vp ∙ ap (λ x. x.parent) (sym tv) ∙ sym (left-parent i t),
        )
    | inr (y, b) ↦
        let os = left-osptr i t in
        let o_t : t.osptr ≡ some o = ground arith in
        let (u, au, uy, up) = tree.older i o t e o_t in
        let q : o ≢ p = λ q. (let k = one o p u tp au live q in y (ground arith)) in
        let is_o = not_older i o u au (λ w. n (ground arith)) in
        (
          left o u,
          forth o u q au,
          left-ysptr o u ∙ rw is_o uy,
          left-parent o u ∙ up ∙ sym (left-parent i t),
        )
  ]

  younger_left :
      (i y : ℕ) (t : Task)
      → i ≢ p
      → at i ≡ some t
      → (left i t).ysptr ≡ some y
      → (u : Task) × (at' y ≡ some u) × (u.osptr ≡ some i) × (u.parent ≡ (left i t).parent)
  younger_left i y t n e h = elim (is-cases tp.osptr i) [
    | inl (o, b) ↦
        let ys = left-ysptr i t in
        let y_tp : tp.ysptr ≡ some y = ground arith in
        let (u, au, uo, up) = tree.younger p y tp live y_tp in
        let (v, av, vy, vp) = tree.older p i tp live o in
        let tv = one i i t v e av refl in
        let q : y ≢ p = λ q. (let k = one y p u tp au live q in n (ground arith)) in
        let is_y = is-at tp.ysptr y y_tp in
        (
          left y u,
          forth y u q au,
          left-osptr y u ∙ rw is_y o,
          left-parent y u ∙ up ∙ sym vp ∙ ap (λ x. x.parent) (sym tv) ∙ sym (left-parent i t),
        )
    | inr (o, b) ↦
        let ys = left-ysptr i t in
        let y_t : t.ysptr ≡ some y = ground arith in
        let (u, au, uo, up) = tree.younger i y t e y_t in
        let q : y ≢ p = λ q. (let k = one y p u tp au live q in o (ground arith)) in
        let is_y = not_younger y u au (λ w. n (ground arith)) in
        (
          left y u,
          forth y u q au,
          left-osptr y u ∙ rw is_y uo,
          left-parent y u ∙ up ∙ sym (left-parent i t),
        )
  ]

  youngest_left :
      (i c : ℕ) (t : Task)
      → i ≢ p
      → at i ≡ some t
      → (left i t).cptr ≡ some c
      → (u : Task) × (at' c ≡ some u) × (u.parent ≡ i) × (u.ysptr ≡ none)
  youngest_left i c t n e h = elim (left-cptr i t) [
    | inl (y, ip, k) ↦
        let o_tp : tp.osptr ≡ some c = ground arith in
        let (u, au, uy, up) = tree.older p c tp live o_tp in
        let q : c ≢ p = λ q. (let k = one c p u tp au live q in ground arith) in
        let is_c = is-at tp.osptr c o_tp in
        (left c u, forth c u q au, left-parent c u ∙ up ∙ sym ip, left-ysptr c u ∙ rw is_c y)
    | inr (other, k) ↦
        let c_t : t.cptr ≡ some c = ground arith in
        let (u, au, up, uy) = tree.youngest i c t e c_t in
        let q : c ≢ p = λ q.
          (let k = one c p u tp au live q in
            let none_ : tp.ysptr ≡ none = ground arith in other none_ (ground arith)) in
        let is_c = not_older i c u au (λ w. ground arith) in
        (left c u, forth c u q au, left-parent c u ∙ up, left-ysptr c u ∙ rw is_c uy)
  ]

  first_left :
      (i : ℕ) (t : Task)
      → 1 ≤ i
      → i ≢ p
      → at i ≡ some t
      → (left i t).ysptr ≡ none
      → (u : Task) × (at' (left i t).parent ≡ some u) × (u.cptr ≡ some i)
  first_left i t l n e h = elim (is-cases tp.osptr i) [
    | inl (o, b) ↦
        let ys = left-ysptr i t in
        let none_ : tp.ysptr ≡ none = ground arith in
        let (u, au, uc) = tree.first p tp not_first live none_ in
        let (v, av, vy, vp) = tree.older p i tp live o in
        let tv = one i i t v e av refl in
        let q : tp.parent ≢ p = λ q. (let k = one tp.parent p u tp au live q in ground arith) in
        let same_parent = left-parent i t ∙ ap (λ x. x.parent) tv ∙ vp in
        (
          left tp.parent u,
          ap at' same_parent ∙ forth tp.parent u q au,
          elim (left-cptr tp.parent u) [
            | inl (y, ip, k) ↦ k ∙ o
            | inr (other, k) ↦ absurd (other none_ refl)
          ],
        )
    | inr (o, b) ↦
        let ys = left-ysptr i t in
        let none_ : t.ysptr ≡ none = ground arith in
        let (u, au, uc) = tree.first i t l e none_ in
        let q : t.parent ≢ p = λ q. (let k = one t.parent p u tp au live q in ground arith) in
        (
          left t.parent u,
          ap at' (left-parent i t) ∙ forth t.parent u q au,
          elim (left-cptr t.parent u) [
            | inl (y, ip, k) ↦
                let (v, av, vc) = tree.first p tp not_first live y in
                let w = one t.parent tp.parent u v au av ip in absurd (n (ground arith))
            | inr (other, k) ↦ k ∙ uc
          ],
        )
  ]

  left-IsTree : IsTree at'
  left-IsTree = record {
    older = λ i o t' e h.
        (let (n, (t, f, k)) = back i t' e in
          (let (u, a, b, d) = older_left i o t n f (ap (λ x. x.osptr) (sym k) ∙ h) in
            (u, a, b, d ∙ ap (λ x. x.parent) (sym k))));
    younger = λ i y t' e h.
        (let (n, (t, f, k)) = back i t' e in
          (let (u, a, b, d) = younger_left i y t n f (ap (λ x. x.ysptr) (sym k) ∙ h) in
            (u, a, b, d ∙ ap (λ x. x.parent) (sym k))));
    youngest = λ i c t' e h.
        (let (n, (t, f, k)) = back i t' e in
          youngest_left i c t n f (ap (λ x. x.cptr) (sym k) ∙ h));
    first = λ i t' l e h.
        (let (n, (t, f, k)) = back i t' e in
          (let (u, a, b) = first_left i t l n f (ap (λ x. x.ysptr) (sym k) ∙ h) in
            (u, ap at' (ap (λ x. x.parent) k) ∙ a, b)));
  }

-- Where the links of the tasks form a tree, release of another task that has no children ends, clears
-- its slot, and leaves a tree.
pub release-IsTree :
    (current p : ℕ) (t : Task) (ts : Table)
    → IsTree (slot ts)
    → slot ts p ≡ some t
    → t.cptr ≡ none
    → 1 ≤ p
    → p < nr_tasks
    → p ≢ current
    → (ts' : Table) × (release current p ts ≡ some ts') × (slot ts' p ≡ none) × IsTree (slot ts')
unfolding release
release-IsTree current p t ts tree e c l h n =
    let other : (p == current) ≡ false = ground arith in
    let in_table : (p == 0 || leb nr_tasks p) ≡ false = ground arith in
    (
      unlink p t.parent t.osptr t.ysptr ts,
      rw (other, in_table, e) refl,
      slot-unlink ts p p t.parent t.osptr t.ysptr ∙ ground arith,
      left-IsTree (slot ts) (slot (unlink p t.parent t.osptr t.ysptr ts)) p t e c l tree
          (λ j. slot-unlink ts p j t.parent t.osptr t.ysptr),
    )
