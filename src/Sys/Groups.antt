-- ===== src/Sys/Groups.antt =====
-- kernel/sys.c: the supplementary groups of the current process.
use linux.Common.{
  ℕ, zero, suc, ◌+◌, ◌%◌, ◌^◌, ◌≤◌, ◌<◌, Bool, true, false, not, ◌&&◌, List, ltb, ◌==◌,
  if◌then◌else◌, get_or, set, length, ◌≡◌, refl, sym, ◌∙◌, arith, ℕ_discrete, get_or-set_self,
  get_or-set_ne, length-set,
}
use linux.Common.Int.{ℤ, pos, negsuc, ltb_ℤ, leb_ℤ, pos_part, neg_part}
use linux.Sys.{short16, eperm}

abbrev pub ngroups : ℕ
ngroups = 32

abbrev pub nogroup : ℤ
nogroup = negsuc 0

abbrev pub einval : ℤ
einval = negsuc 21

-- The words of user memory from `grouplist` on.
abbrev pub Words : Type 0
Words = ℕ → ℕ

abbrev pub put_word : ℕ → ℕ → Words → Words
put_word i v words j = if i == j then v else words j

abbrev pub is_nogroup : ℤ → Bool
is_nogroup (pos n) = false
is_nogroup (negsuc n) = n == 0

-- `rounds` of the loop from index `i` on.
unfoldable pub get_from : ℤ → List ℤ → ℕ → ℕ → Words → ℤ × Words
get_from gidsetsize groups zero i words = (pos i, words)
get_from gidsetsize groups (suc rounds) i words =
    let group = get_or groups i nogroup in
    let skipped = get_from gidsetsize groups rounds (suc i) words in
    let put = get_from gidsetsize groups rounds (suc i) (put_word i (short16 group) words) in
    if is_nogroup group
    then (pos i, words)
    else if pos_part gidsetsize + neg_part gidsetsize == 0
    then skipped
    else if leb_ℤ gidsetsize (pos i)
    then (einval, words)
    else put

unfoldable pub sys_getgroups : ℤ → List ℤ → Words → ℤ × Words
sys_getgroups gidsetsize groups words = get_from gidsetsize groups ngroups 0 words

unfoldable pub set_from : Words → ℕ → ℕ → List ℤ → List ℤ
set_from words zero i groups = groups
set_from words (suc rounds) i groups =
    set_from words rounds (suc i) (set groups i (pos (words i % 2 ^ 16)))

unfoldable pub sys_setgroups : Bool → ℤ → Words → List ℤ → ℤ × List ℤ
sys_setgroups is_suser gidsetsize words groups =
    let n = pos_part gidsetsize in
    let stored = set_from words n 0 groups in
    if not is_suser
    then (eperm, groups)
    else if ltb_ℤ (pos ngroups) gidsetsize
    then (einval, groups)
    else (pos 0, if ltb n ngroups then set stored n nogroup else stored)

unfoldable pub member_from : ℕ → List ℤ → ℕ → ℕ → Bool
member_from grp groups zero i = false
member_from grp groups (suc rounds) i =
    let group = get_or groups i nogroup in
    let rest = member_from grp groups rounds (suc i) in
    if is_nogroup group
    then false
    else if pos_part group == grp && neg_part group == 0
    then true
    else rest

unfoldable pub in_group_p : ℕ → ℕ → List ℤ → Bool
in_group_p egid grp groups = if grp == egid then true else member_from grp groups ngroups 0

-- The table that a call with `n` groups leaves behind.
unfoldable pub Holds : Words → ℕ → List ℤ → Type 0
Holds words n groups =
    ((j : ℕ) → j < n → get_or groups j nogroup ≡ pos (words j % 2 ^ 16))
    × ((j : ℕ) → j ≡ n → j < ngroups → get_or groups j nogroup ≡ nogroup)

pub length-set_from :
    (words : Words) (rounds i : ℕ) (groups : List ℤ)
    → length (set_from words rounds i groups) ≡ length groups
unfolding set_from
length-set_from words zero i groups = refl
length-set_from words (suc rounds) i groups =
    length-set_from words rounds (suc i) (set groups i (pos (words i % 2 ^ 16)))
    ∙ length-set groups i (pos (words i % 2 ^ 16))

-- The loop stores at the indexes from `i` on and leaves those below alone.
set_from-below :
    (words : Words) (rounds i : ℕ) (groups : List ℤ) (j : ℕ)
    → j < i
    → get_or (set_from words rounds i groups) j nogroup ≡ get_or groups j nogroup
unfolding set_from
set_from-below words zero i groups j l = refl
set_from-below words (suc rounds) i groups j l =
    set_from-below words rounds (suc i) (set groups i (pos (words i % 2 ^ 16))) j (omega arith)
    ∙ get_or-set_ne groups i j (pos (words i % 2 ^ 16)) nogroup (λ e. omega arith)

pub set_from-stores :
    (words : Words) (rounds i : ℕ) (groups : List ℤ) (j : ℕ)
    → i ≤ j
    → j < i + rounds
    → j < length groups
    → get_or (set_from words rounds i groups) j nogroup ≡ pos (words j % 2 ^ 16)
unfolding set_from
set_from-stores words zero i groups j l k h = absurd (omega arith)
set_from-stores words (suc rounds) i groups j l k h =
    let v = pos (words i % 2 ^ 16) in
    elim (ℕ_discrete i j) [
      | yes e ↦
          let here : get_or (set groups i v) i nogroup ≡ v =
            get_or-set_self groups i v nogroup (omega arith) in
          rw (sym e) (set_from-below words rounds (suc i) (set groups i v) i (omega arith) ∙ here)
      | no n ↦
          set_from-stores words rounds (suc i) (set groups i v) j (omega arith) (omega arith)
            (omega (arith, length-set groups i v))
    ]
