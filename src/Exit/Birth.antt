-- ===== src/Exit/Birth.antt =====
-- kernel/fork.c: `copy_process` keeps the process tree.
use linux.Common.{
  ℕ, ◌≤◌, ◌<◌, false, Option, none, some, ◌==◌, if◌then◌else◌, set, length, Option-cases, ◌≡◌, ◌≢◌,
  refl, sym, ap, ◌∙◌, arith, ℕ_discrete, ◌⊎◌, inl, inr,
}
use mathlib.Core.Option
use linux.Common.Int.{ℤ}
use linux.Exit.{Task, Table, slot}
use linux.Exit.Tree.{change_at, child_of, link_child}
use linux.Exit.Siblings.{IsTree, slot-set, slot-change, slot-change_at, is, is-cases, is-at}

-- What the new process in slot `nr` changes of the task in slot `j`; `o` is the youngest child so far.
grown : ℕ → ℕ → Option ℕ → ℕ → Task → Task
grown nr current o j t = record t {
  ysptr = if is o j then some nr else t.ysptr;
  cptr = if j == current then some nr else t.cptr;
}

module _ (nr current : ℕ) (last_pid : ℤ) (tc : Task) (ts : Table) (room : nr < length ts)
    (free : slot ts nr ≡ none) (live : slot ts current ≡ some tc) (tree : IsTree (slot ts)) where
  now : ℕ → Option Task
  now j = slot (link_child nr current last_pid tc ts) j

  not_new : (i : ℕ) (t : Task) → slot ts i ≡ some t → i ≢ nr
  not_new i t e q = ground arith

  not_youngest : is tc.cptr nr ≡ false
  not_youngest = elim (is-cases tc.cptr nr) [
    | inl (e, b) ↦
        (let (u, a, p, y) = tree.youngest current nr tc live e in absurd (not_new nr u a refl))
    | inr (n, b) ↦ b
  ]

  now-any :
      (j : ℕ)
      → now j ≡ (
          let f = grown nr current tc.cptr j in
          if j == nr then some (child_of current last_pid tc) else Option.map f (slot ts j))
  unfolding now link_child grown
  now-any j =
      let added = set ts nr (some (child_of current last_pid tc)) in
      let f : Task → Task = λ q. record q { ysptr = some nr } in
      let first =
        slot-change (change_at tc.cptr f added) current j (λ q. record q { cptr = some nr }) in
      let second = slot-change_at added tc.cptr j f in
      let third = slot-set ts nr j (some (child_of current last_pid tc)) room in
      let distinct = not_new current tc live in
      elim (ℕ_discrete j nr) [
        | yes q ↦
            let n : is tc.cptr j ≡ false = ap (is tc.cptr) q ∙ not_youngest in
            rw (first, second, third, n) (ground (arith, q))
        | no q ↦ rw (first, second, third) (ground (arith, q))
      ]

  child : Task
  child = child_of current last_pid tc

  now-new : now nr ≡ some child
  unfolding child
  now-new = now-any nr ∙ ground arith

  forth : (j : ℕ) (t : Task) → slot ts j ≡ some t → now j ≡ some (grown nr current tc.cptr j t)
  forth j t e = (let n = not_new j t e in now-any j ∙ ground arith)

  back :
      (j : ℕ) (t' : Task)
      → now j ≡ some t'
      → ((j ≡ nr) × (t' ≡ child))
        ⊎ ((t : Task) × (slot ts j ≡ some t) × (t' ≡ grown nr current tc.cptr j t))
  unfolding child
  back j t' e = elim (ℕ_discrete j nr) [
    | yes q ↦ inl (q, ground (arith, now-any j))
    | no n ↦ elim (Option-cases (slot ts j)) [
      | inl f ↦ absurd (ground (arith, now-any j))
      | inr (t, f) ↦ inr (t, f, ground (arith, now-any j))
    ]
  ]

  older_now :
      (i o : ℕ) (t' : Task)
      → now i ≡ some t'
      → t'.osptr ≡ some o
      → (u : Task) × (now o ≡ some u) × (u.ysptr ≡ some i) × (u.parent ≡ t'.parent)
  unfolding grown child child_of
  older_now i o t' e h = elim (back i t' e) [
    | inl (q, k) ↦
        let o_tc : tc.cptr ≡ some o = ground arith in
        let (u, au, up, uy) = tree.youngest current o tc live o_tc in
        let is_o = is-at tc.cptr o o_tc in
        (
          grown nr current tc.cptr o u,
          forth o u au,
          rw is_o (ap some (sym q)),
          up ∙ ap (λ x. x.parent) (sym k),
        )
    | inr (t, f, k) ↦
        let o_t : t.osptr ≡ some o = ground arith in
        let (u, au, uy, up) = tree.older i o t f o_t in
        let is_o : is tc.cptr o ≡ false = elim (is-cases tc.cptr o) [
          | inl (z, b) ↦
              let (v, av, vp, vy) = tree.youngest current o tc live z in absurd (ground arith)
          | inr (z, b) ↦ b
        ] in
        (grown nr current tc.cptr o u, forth o u au, rw is_o uy, up ∙ ap (λ x. x.parent) (sym k))
  ]

  younger_now :
      (i y : ℕ) (t' : Task)
      → now i ≡ some t'
      → t'.ysptr ≡ some y
      → (u : Task) × (now y ≡ some u) × (u.osptr ≡ some i) × (u.parent ≡ t'.parent)
  unfolding grown child child_of
  younger_now i y t' e h = elim (back i t' e) [
    | inl (q, k) ↦ absurd (ground arith)
    | inr (t, f, k) ↦ elim (is-cases tc.cptr i) [
      | inl (z, b) ↦
          let y_new : y ≡ nr = ground arith in
          let (v, av, vp, vy) = tree.youngest current i tc live z in
          let tv : t ≡ v = ground arith in
          (
            child,
            ap now y_new ∙ now-new,
            z,
            sym vp ∙ ap (λ x. x.parent) (sym tv) ∙ ap (λ x. x.parent) (sym k),
          )
      | inr (z, b) ↦
          let y_t : t.ysptr ≡ some y = ground arith in
          let (u, au, uo, up) = tree.younger i y t f y_t in
          (grown nr current tc.cptr y u, forth y u au, uo, up ∙ ap (λ x. x.parent) (sym k))
    ]
  ]

  youngest_now :
      (i c : ℕ) (t' : Task)
      → now i ≡ some t'
      → t'.cptr ≡ some c
      → (u : Task) × (now c ≡ some u) × (u.parent ≡ i) × (u.ysptr ≡ none)
  unfolding grown child child_of
  youngest_now i c t' e h = elim (back i t' e) [
    | inl (q, k) ↦ absurd (ground arith)
    | inr (t, f, k) ↦ elim (ℕ_discrete i current) [
      | yes q ↦ let c_new : c ≡ nr = ground arith in (child, ap now c_new ∙ now-new, sym q, refl)
      | no n ↦
          let c_t : t.cptr ≡ some c = ground arith in
          let (u, au, up, uy) = tree.youngest i c t f c_t in
          let is_c : is tc.cptr c ≡ false = elim (is-cases tc.cptr c) [
            | inl (z, b) ↦
                let (v, av, vp, vy) = tree.youngest current c tc live z in
                let uv : u ≡ v = ground arith in absurd (n (sym up ∙ ap (λ x. x.parent) uv ∙ vp))
            | inr (z, b) ↦ b
          ] in
          (grown nr current tc.cptr c u, forth c u au, up, rw is_c uy)
    ]
  ]

  first_now :
      (i : ℕ) (t' : Task)
      → 1 ≤ i
      → now i ≡ some t'
      → t'.ysptr ≡ none
      → (u : Task) × (now t'.parent ≡ some u) × (u.cptr ≡ some i)
  unfolding grown child child_of
  first_now i t' l e h = elim (back i t' e) [
    | inl (q, k) ↦ (
      grown nr current tc.cptr current tc,
      ap now (ap (λ x. x.parent) k) ∙ forth current tc live,
      ground arith,
    )
    | inr (t, f, k) ↦
        let not_os : is tc.cptr i ≡ false = elim (is-cases tc.cptr i) [
          | inl (z, b) ↦ absurd (ground arith)
          | inr (z, b) ↦ b
        ] in
        let y_t : t.ysptr ≡ none = ground arith in
        let (u, au, uc) = tree.first i t l f y_t in
        let other : t.parent ≢ current = λ q.
          (let uv : u ≡ tc = ground (arith, ap (slot ts) q) in
            let z : tc.cptr ≡ some i = ap (λ x. x.cptr) (sym uv) ∙ uc in
            ground (arith, is-at tc.cptr i z)) in
        (
          grown nr current tc.cptr t.parent u,
          ap now (ap (λ x. x.parent) k) ∙ forth t.parent u au,
          ground arith,
        )
  ]

-- Where the links of the tasks form a tree, the links that fork makes for a process in an empty slot
-- form a tree again, with the process as the youngest child of its parent.
pub link_child-IsTree :
    (nr current : ℕ) (last_pid : ℤ) (t : Task) (ts : Table)
    → IsTree (slot ts)
    → slot ts current ≡ some t
    → slot ts nr ≡ none
    → nr < length ts
    → IsTree (slot (link_child nr current last_pid t ts))
      × (slot (link_child nr current last_pid t ts) nr ≡ some (child_of current last_pid t))
unfolding now child
link_child-IsTree nr current last_pid t ts tree live free room = (
  record {
    older = older_now nr current last_pid t ts room free live tree;
    younger = younger_now nr current last_pid t ts room free live tree;
    youngest = youngest_now nr current last_pid t ts room free live tree;
    first = first_now nr current last_pid t ts room free live tree;
  },
  now-new nr current last_pid t ts room free live tree,
)
