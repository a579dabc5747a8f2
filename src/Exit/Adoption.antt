-- ===== src/Exit/Adoption.antt =====
-- kernel/exit.c: the loop over the children of a process that ends.
use linux.Common.{
  ℕ, zero, suc, ◌≤◌, not, ◌&&◌, Option, none, some, List, [], ◌∷◌, if◌then◌else◌, length, ◌≡◌, refl,
  sym, ap, ◌∙◌, arith, Option-cases, inl, inr,
}
use mathlib.Core.Path.{subst}
use linux.Sched.{nr_tasks}
use linux.Exit.{Task, Table, slot, deref, same, is_zombie}
use linux.Exit.Tree.{change, change_at, notify, adopt_one, join, adopt, adopt_all, go_on}
use linux.Exit.Reap.{Each}
use linux.Exit.Links.{
  links, SameLinks, same_links, then_links, if-SameLinks, change-SameLinks, hang_up-SameLinks,
}
use linux.Exit.Line.{
  parent_of, older_of, Line, parent_of-same, older_of-same, map-change, to_init, to_init-parent,
  to_init_self, Line-same,
}

module _ (null : Task) (current : ℕ) where
  -- After its parent has changed, a child's links stay.
  adopt_one-rest :
      (p : ℕ) (ts : Table) → SameLinks (change p to_init ts) (adopt_one null current p ts)
  unfolding adopt_one to_init links
  adopt_one-rest p ts =
      let me = deref null (slot ts current) in
      let ts' = change p to_init ts in
      let child = deref null (slot ts' p) in
      let told = (if is_zombie child.state then change 1 notify ts' else ts') in
      let up =
        if-SameLinks (is_zombie child.state) (change-SameLinks 1 notify ts' (λ t. refl))
          (same_links ts') in
      if-SameLinks (not (same child.pgrp me.pgrp) && same child.session me.session)
        (then_links up (hang_up-SameLinks null me.euid child.pgrp told)) up

  adopt_one-older :
      (p j : ℕ) (ts : Table) → older_of (adopt_one null current p ts) j ≡ older_of ts j
  unfolding older_of to_init
  adopt_one-older p j ts =
      older_of-same j (adopt_one-rest p ts) ∙ map-change (λ t. t.osptr) p j to_init ts (λ t. refl)

  adopt_one-kept :
      (p j : ℕ) (ts : Table)
      → parent_of ts j ≡ some 1
      → parent_of (adopt_one null current p ts) j ≡ some 1
  adopt_one-kept p j ts e = parent_of-same j (adopt_one-rest p ts) ∙ to_init-parent p j ts e

  adopt_one_self :
      (p : ℕ) (o : Option ℕ) (ts : Table)
      → older_of ts p ≡ some o
      → parent_of (adopt_one null current p ts) p ≡ some 1
  adopt_one_self p o ts e = parent_of-same p (adopt_one-rest p ts) ∙ to_init_self p o ts e

  change_at-parent :
      (o : Option ℕ) (j : ℕ) (g : Task → Task) (ts : Table)
      → ((t : Task) → (g t).parent ≡ t.parent)
      → parent_of (change_at o g ts) j ≡ parent_of ts j
  unfolding parent_of
  change_at-parent none j g ts h = refl
  change_at-parent (some i) j g ts h = map-change (λ t. t.parent) i j g ts h

  join-parent : (p j : ℕ) (ts : Table) → parent_of (join null current p ts) j ≡ parent_of ts j
  unfolding join
  join-parent p j ts =
      let g : Option ℕ → Task → Task = λ o q. record q { osptr = o } in
      let h : Task → Task = λ q. record q { ysptr = some p } in
      let k : Option ℕ → Task → Task = λ o q. record q { cptr = o } in
      let x = (deref null (slot ts 1)).cptr in
      let first = change p (g x) ts in
      let y = (deref null (slot first 1)).cptr in
      let second = change_at y h first in
      let z = (deref null (slot second current)).cptr in
      let third = change 1 (k z) second in
      change_at-parent (some current) j (k none) third (λ t. refl)
      ∙ change_at-parent (some 1) j (k z) second (λ t. refl)
      ∙ change_at-parent y j h first (λ t. refl)
      ∙ change_at-parent (some p) j (g x) ts (λ t. refl)

  adopt-last :
      (n p : ℕ) (ts : Table)
      → (deref null (slot (adopt_one null current p ts) p)).osptr ≡ none
      → adopt null (suc n) current p ts ≡ join null current p (adopt_one null current p ts)
  unfolding adopt go_on
  adopt-last n p ts f =
      let ts' = adopt_one null current p ts in
      let next : ℕ → Table = λ o. adopt null n current o ts' in
      ap (λ o. go_on o next (join null current p ts')) f

  adopt-next :
      (n p o : ℕ) (ts : Table)
      → (deref null (slot (adopt_one null current p ts) p)).osptr ≡ some o
      → adopt null (suc n) current p ts ≡ adopt null n current o (adopt_one null current p ts)
  unfolding adopt go_on
  adopt-next n p o ts f =
      let ts' = adopt_one null current p ts in
      let next : ℕ → Table = λ o. adopt null n current o ts' in
      ap (λ o. go_on o next (join null current p ts')) f

  adopt-none : (p : ℕ) (ts : Table) → adopt null zero current p ts ≡ ts
  unfolding adopt
  adopt-none p ts = refl

  adopt-kept :
      (n p j : ℕ) (ts : Table)
      → parent_of ts j ≡ some 1
      → parent_of (adopt null n current p ts) j ≡ some 1
  adopt-kept zero p j ts e = ap (λ x. parent_of x j) (adopt-none p ts) ∙ e
  adopt-kept (suc n) p j ts e =
      let ts' = adopt_one null current p ts in
      let e' = adopt_one-kept p j ts e in
      elim (Option-cases (deref null (slot ts' p)).osptr) [
        | inl f ↦ rw (adopt-last n p ts f) (join-parent p j ts' ∙ e')
        | inr (o, f) ↦ rw (adopt-next n p o ts f) (adopt-kept n o j ts' e')
      ]

  osptr-older :
      (p : ℕ) (o : Option ℕ) (ts : Table)
      → older_of ts p ≡ some o
      → (deref null (slot ts p)).osptr ≡ o
  unfolding older_of
  osptr-older p o ts e = elim (Option-cases (slot ts p)) [
    | inl f ↦ absurd (ground arith)
    | inr (t, f) ↦ ground arith
  ]

  unfoldable pub IsInits : Table → ℕ → Type 0
  IsInits ts q = parent_of ts q ≡ some 1

  adopt-Line :
      (n p : ℕ) (l : List ℕ) (ts : Table)
      → Line ts (some p) l
      → length l ≤ n
      → Each (IsInits (adopt null n current p ts)) l
  unfolding Line Each IsInits
  adopt-Line n p [] ts v h = absurd v
  adopt-Line zero p (q ∷ l) ts v h = absurd (omega arith)
  adopt-Line (suc n) p (q ∷ []) ts (e, (none, f, v)) h =
      let ts' = adopt_one null current p ts in
      let last_ = adopt-last n p ts (osptr-older p none ts' (adopt_one-older p p ts ∙ f)) in
      let done : parent_of (join null current p ts') p ≡ some 1 =
        join-parent p p ts' ∙ adopt_one_self p none ts f in
      (rw last_ (ap (parent_of (join null current p ts')) (sym e) ∙ done), tt)
  adopt-Line (suc n) p (q ∷ r ∷ l) ts (e, (none, f, v)) h = absurd v
  adopt-Line (suc n) p (q ∷ []) ts (e, (some o, f, v)) h = absurd v
  adopt-Line (suc n) p (q ∷ r ∷ l) ts (e, (some o, f, v)) h =
      let ts' = adopt_one null current p ts in
      let next = adopt-next n p o ts (osptr-older p (some o) ts' (adopt_one-older p p ts ∙ f)) in
      let done = adopt-kept n o p ts' (adopt_one_self p (some o) ts f) in
      let line = Line-same ts ts' (some o) (r ∷ l) (λ j. adopt_one-older p j ts) v in
      let rest = adopt-Line n o (r ∷ l) ts' line (omega arith) in
      subst (λ x. Each (IsInits x) (q ∷ r ∷ l)) (sym next)
        (ap (parent_of (adopt null n current o ts')) (sym e) ∙ done, rest)

  some_all :
      (p : ℕ) (from : ℕ → Table) (ts : Table)
      → (deref null (slot ts current)).cptr ≡ some p
      → go_on (deref null (slot ts current)).cptr from ts ≡ from p
  unfolding go_on
  some_all p from ts e = ap (λ o. go_on o from ts) e

  nothing : (ts : Table) → Each (IsInits (adopt_all null current ts)) []
  unfolding Each
  nothing ts = tt

  none-Line : (ts : Table) (q : ℕ) (l : List ℕ) → Line ts none (q ∷ l) → ⊥
  unfolding Line
  none-Line ts q l v = v

  pub adopt_all-children :
      (ts : Table) (o : Option ℕ) (l : List ℕ)
      → (deref null (slot ts current)).cptr ≡ o
      → Line ts o l
      → length l ≤ nr_tasks
      → Each (IsInits (adopt_all null current ts)) l
  unfolding adopt_all
  adopt_all-children ts none [] e v h = nothing ts
  adopt_all-children ts none (q ∷ l) e v h = absurd (none-Line ts q l v)
  adopt_all-children ts (some p) l e v h =
      let from : ℕ → Table = λ p. adopt null nr_tasks current p ts in
      let all_ : adopt_all null current ts ≡ adopt null nr_tasks current p ts =
        some_all p from ts e in
      subst (λ x. Each (IsInits x) l) (sym all_) (adopt-Line nr_tasks p l ts v h)
