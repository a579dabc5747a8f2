-- ===== src/Sys/Membership.antt =====
-- kernel/sys.c: what setgroups stores is what getgroups gives and in_group_p finds.
use linux.Common.{
  ℕ, zero, suc, ◌+◌, ◌%◌, ◌^◌, ◌≤◌, ◌<◌, true, false, List, ltb, ◌==◌, get_or, set, length, ◌≡◌,
  ◌≢◌, refl, ap, ◌∙◌, arith, ℕ_discrete, Bool-cases, inl, inr, get_or-set_self, get_or-set_ne,
}
use linux.Common.Int.{ℤ, pos, ltb_ℤ, leb_ℤ, to_u32}
use linux.Sys.{short16}
use linux.Sys.Groups.{
  ngroups, nogroup, Words, put_word, get_from, sys_getgroups, set_from, sys_setgroups, member_from,
  in_group_p, Holds, length-set_from, set_from-stores,
}

short16-pos : (n : ℕ) → n < 2 ^ 16 → short16 (pos n) ≡ n
unfolding short16 to_u32
short16-pos n l = omega arith

put_word_ne : (i v : ℕ) (words : Words) (j : ℕ) → i ≢ j → put_word i v words j ≡ words j
put_word_ne i v words j n = ground arith

put_word_self : (i v : ℕ) (words : Words) (j : ℕ) → i ≡ j → put_word i v words j ≡ v
put_word_self i v words j e = ground arith

-- How the loop of getgroups goes on at a group, and at the end.
module _ (groups : List ℤ) (i : ℕ) (rounds : ℕ) (words : Words) where
  get_from-put :
      (m v : ℕ)
      → i < m
      → v < 2 ^ 16
      → get_or groups i nogroup ≡ pos v
      → get_from (pos m) groups (suc rounds) i words
        ≡ get_from (pos m) groups rounds (suc i) (put_word i v words)
  unfolding get_from
  get_from-put m v l k h =
      let some_size : (m + 0 == 0) ≡ false = ground arith in
      let fits : leb_ℤ (pos m) (pos i) ≡ false = ground arith in
      rw (h, short16-pos v k, some_size, fits) refl

  get_from-end :
      (m : ℕ)
      → get_or groups i nogroup ≡ nogroup
      → get_from (pos m) groups (suc rounds) i words ≡ (pos i, words)
  unfolding get_from
  get_from-end m h = rw h refl

  member_from-hit :
      (grp : ℕ) → get_or groups i nogroup ≡ pos grp → member_from grp groups (suc rounds) i ≡ true
  unfolding member_from
  member_from-hit grp h = rw h (ground arith)

  member_from-next :
      (grp v : ℕ)
      → get_or groups i nogroup ≡ pos v
      → member_from grp groups rounds (suc i) ≡ true
      → member_from grp groups (suc rounds) i ≡ true
  unfolding member_from
  member_from-next grp v h k = rw h (ground (arith, k))

module _ (given : Words) (n : ℕ) (groups : List ℤ) (held : Holds given n groups) where
  Reads : ℕ → Words → ℤ × Words → Type 0
  Reads i words r =
      (r.0 ≡ pos n)
      × ((j : ℕ) → j < i → r.1 j ≡ words j)
      × ((j : ℕ) → i ≤ j → j < n → r.1 j ≡ given j % 2 ^ 16)

  get_from-Reads :
      (m rounds i : ℕ) (words : Words)
      → n ≤ m
      → i + rounds ≡ ngroups
      → i ≤ n
      → n ≤ ngroups
      → Reads i words (get_from (pos m) groups rounds i words)
  unfolding Reads Holds get_from
  get_from-Reads m zero i words k e l h =
      (ap pos (omega arith), λ j b. refl, λ j b c. absurd (omega arith))
  get_from-Reads m (suc rounds) i words k e l h = elim (ℕ_discrete i n) [
    | yes same_ ↦
        rw (get_from-end groups i rounds words m (held.1 i same_ (omega arith)))
          (ap pos same_, λ j b. refl, λ j b c. absurd (omega arith))
    | no less ↦
        let v = given i % 2 ^ 16 in
        let below : i < n = ground arith in
        let r : Reads (suc i) (put_word i v words)
            (get_from (pos m) groups rounds (suc i) (put_word i v words)) =
          get_from-Reads m rounds (suc i) (put_word i v words) k (omega arith) below h in
        rw (get_from-put groups i rounds words m v (omega arith) (omega arith) (held.0 i below)) (
          r.0,
          λ j b. r.1 j (omega arith) ∙ put_word_ne i v words j (λ f. omega arith),
          λ j b c. elim (ℕ_discrete i j) [
            | yes f ↦
                r.1 j (omega arith) ∙ put_word_self i v words j f ∙ ap (λ x. given x % 2 ^ 16) f
            | no d ↦ r.2 j (ground arith) c
          ],
        )
  ]

  member_from-finds :
      (j rounds i : ℕ)
      → i + rounds ≡ ngroups
      → i ≤ j
      → j < n
      → n ≤ ngroups
      → member_from (given j % 2 ^ 16) groups rounds i ≡ true
  unfolding Holds
  member_from-finds j zero i e l k h = absurd (omega arith)
  member_from-finds j (suc rounds) i e l k h = elim (ℕ_discrete i j) [
    | yes same_ ↦
        member_from-hit groups i rounds (λ n. n) (given j % 2 ^ 16) (rw same_ (held.0 j k))
    | no less ↦
        member_from-next groups i rounds (λ n. n) (given j % 2 ^ 16) (given i % 2 ^ 16)
          (held.0 i (omega arith))
          (member_from-finds j rounds (suc i) (omega arith) (omega arith) k h)
  ]

sys_setgroups-Holds :
    (given : Words) (n : ℕ) (groups : List ℤ)
    → n ≤ ngroups
    → length groups ≡ ngroups
    → (table : List ℤ) × (sys_setgroups true (pos n) given groups ≡ (pos 0, table))
      × Holds given n table
unfolding sys_setgroups Holds
sys_setgroups-Holds given n groups l h =
    let stored = set_from given n 0 groups in
    let long : length stored ≡ ngroups = length-set_from given n 0 groups ∙ h in
    let fits : ltb_ℤ (pos ngroups) (pos n) ≡ false = ground arith in
    let stores : (j : ℕ) → j < n → get_or stored j nogroup ≡ pos (given j % 2 ^ 16) =
      λ j k. set_from-stores given n 0 groups j (omega arith) (omega arith) (omega arith) in
    elim (Bool-cases (ltb n ngroups)) [
      | inl e ↦ (
        set stored n nogroup,
        rw (fits, e) refl,
        (
          λ j k. get_or-set_ne stored n j nogroup nogroup (λ f. omega arith) ∙ stores j k,
          λ j f k. rw f (get_or-set_self stored n nogroup nogroup (omega arith)),
        ),
      )
      | inr e ↦ (stored, rw (fits, e) refl, (stores, λ j f k. absurd (ground arith)))
    ]

-- After the superuser has set at most 32 groups, getgroups with room for them gives their number and
-- the words they were given by, and in_group_p finds each of them, whatever the effective group is.
pub sys_setgroups-sys_getgroups :
    (given words : Words) (n m egid j : ℕ) (groups : List ℤ)
    → n ≤ ngroups
    → n ≤ m
    → length groups ≡ ngroups
    → j < n
    → (table : List ℤ) × (back : Words) × (sys_setgroups true (pos n) given groups ≡ (pos 0, table))
      × (sys_getgroups (pos m) table words ≡ (pos n, back))
      × (back j ≡ given j % 2 ^ 16)
      × (in_group_p egid (given j % 2 ^ 16) table ≡ true)
unfolding sys_getgroups in_group_p Reads
sys_setgroups-sys_getgroups given words n m egid j groups l k h b =
    let t = sys_setgroups-Holds given n groups l h in
    let r : Reads given n t.0 t.2 0 words (get_from (pos m) t.0 ngroups 0 words) =
      get_from-Reads given n t.0 t.2 m ngroups 0 words k (omega arith) (omega arith) l in
    let found : member_from (given j % 2 ^ 16) t.0 ngroups 0 ≡ true =
      member_from-finds given n t.0 t.2 j ngroups 0 (omega arith) (omega arith) b l in
    let back = (get_from (pos m) t.0 ngroups 0 words).1 in
    (t.0, back, t.1, ap (λ e. (e, back)) r.0, r.2 j (omega arith) b, rw found (ground arith))
