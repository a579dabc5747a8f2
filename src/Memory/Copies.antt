-- ===== src/Memory/Copies.antt =====
-- A page table copied, and the copy freed again.
use mathlib.Core.Path.{subst}
use linux.Common.{ℕ, zero, suc, ◌+◌, ◌-◌, ◌%◌, ◌≤◌, ◌<◌, ◌≡◌, refl, arith, inl, inr, ◌∙◌}
use linux.Memory.{Memory, Outcome, frame, protected}
use linux.Memory.Tables.{free_entries, copy_entries}
use linux.Memory.Counts.{use_of, uses, uses_same, IsSettled, free_entries_lem}
use linux.Memory.Entries.{
  AreApart, IsCopied, join_counted, join_copied, join_kept, join_others, copy_entry_lem,
  first_apart, first-IsSettled, later-IsSettled, later_apart, later_word, shift, plus_zero,
}

-- A copy of settled entries into an empty part of memory.
pub copy_entries_lem :
    (n f from to : ℕ) (m : Memory)
    → AreApart n from to
    → ((i : ℕ) → i < n → IsSettled m (m.word (from + i)))
    → ((nr : ℕ) → m.mem_map nr + uses n from m.word nr < 256)
    → (m' : Memory) × (copy_entries n f from to m ≡ Outcome.done m') × IsCopied n from to m m'
unfolding copy_entries uses
copy_entries_lem zero f from to m d s h = (
  m,
  refl,
  record {
    counted = λ nr. omega arith;
    copied = λ i l. absurd (omega (arith, l));
    kept = λ i l. absurd (omega (arith, l));
    others = λ w o o'. refl;
    same_high = refl;
  },
)
copy_entries_lem (suc n) f from to m d s h =
    let (m1, e1, c1) =
      copy_entry_lem f from to m (first_apart n from to d) (first-IsSettled n from m s)
        (λ nr. omega (arith, h nr)) in
    let uses1 = λ (nr : ℕ).
      uses_same n (from + 1) m1.word m.word nr (λ w k l. later_word n from to w m m1 d k l c1) in
    let (m2, e2, c2) =
      copy_entries_lem n f (from + 1) (to + 1) m1 (later_apart n from to d)
        (λ i l. later-IsSettled n from to i m m1 d l c1 (s (suc i) (omega (arith, l))))
        (λ nr. omega (arith, h nr, uses1 nr, c1.counted nr)) in
    (
      m2,
      rw e1 e2,
      record {
        counted = join_counted n from to m m1 m2 d c1 c2;
        copied = join_copied n from to m m1 m2 d c1 c2;
        kept = join_kept n from to m m1 m2 d c1 c2;
        others = join_others n from to m m1 m2 d c1 c2;
        same_high = c2.same_high ∙ c1.same_high;
      },
    )

protected-use_of : (nr e : ℕ) → use_of nr (protected e) ≡ use_of nr e
unfolding use_of
protected-use_of nr e =
    let same : frame (protected e) ≡ frame e = omega arith in
    let parity : protected e % 2 ≡ e % 2 = omega arith in rw (same, parity) refl

protected-uses :
    (n from to : ℕ) (f g : ℕ → ℕ) (nr : ℕ)
    → ((i : ℕ) → i < n → f (to + i) ≡ protected (g (from + i)))
    → uses n to f nr ≡ uses n from g nr
unfolding uses
protected-uses zero from to f g nr h = refl
protected-uses (suc n) from to f g nr h =
    let first : f to ≡ protected (g from) =
      rw⁻¹ (plus_zero to, plus_zero from) (h 0 (omega arith)) in
    let rest =
      protected-uses n (from + 1) (to + 1) f g nr
        (λ i l. rw (shift to i, shift from i) (h (suc i) (omega (arith, l)))) in
    rw first (omega (arith, protected-use_of nr (g from), rest))

protected-IsSettled : (m : Memory) (e : ℕ) → IsSettled m e → IsSettled m (protected e)
protected-IsSettled m e (inl z) = inl (omega (arith, z))
protected-IsSettled m e (inr (p, l)) =
    let same : frame (protected e) ≡ frame e = omega arith in
    let parity : protected e % 2 ≡ e % 2 = omega arith in inr (rw parity p, rw same l)

-- In a copy, entries of an empty part of memory are the protected ones of the original.
fresh_copy :
    (n from to i : ℕ) {m m1 : Memory}
    → IsCopied n from to m m1
    → i < n
    → m.word (to + i) ≡ 0
    → m1.word (to + i) ≡ protected (m.word (from + i))
fresh_copy n from to i c l z = ground (arith, c.copied i l, z)

IsSettled-copies :
    (n from to : ℕ) (m m1 : Memory)
    → IsCopied n from to m m1
    → ((i : ℕ) → i < n → IsSettled m (m.word (from + i)))
    → ((i : ℕ) → i < n → m1.word (to + i) ≡ protected (m.word (from + i)))
    → (w : ℕ) → to ≤ w
    → w < to + n
    → IsSettled m1 (m1.word w)
IsSettled-copies n from to m m1 c s copies w k l =
    let i = w - to in
    let place : to + i ≡ w = omega (arith, k) in
    let inside : i < n = omega (arith, k, l) in
    let e : m1.word w ≡ protected (m.word (from + i)) =
      subst (λ w. m1.word w ≡ protected (m.word (from + i))) place (copies i inside) in
    rw (e, c.same_high) (protected-IsSettled m (m.word (from + i)) (s i inside))

-- `n` entries, each empty or of a page in memory, are copied into `n` empty entries elsewhere, and no
-- frame comes to 256 uses: the copying ends well, each frame has as many uses more as the entries
-- have, and the copies are the entries write-protected. To free the copies then ends well, too, and
-- leaves every frame the uses it had before, and the copies empty.
pub copy_entries-free_entries :
    (n f from to : ℕ) (m : Memory)
    → AreApart n from to
    → ((i : ℕ) → i < n → IsSettled m (m.word (from + i)))
    → ((i : ℕ) → i < n → m.word (to + i) ≡ 0)
    → ((nr : ℕ) → m.mem_map nr + uses n from m.word nr < 256)
    → (m1 : Memory) × (m2 : Memory) × (copy_entries n f from to m ≡ Outcome.done m1)
      × ((nr : ℕ) → m1.mem_map nr ≡ m.mem_map nr + uses n from m.word nr)
      × ((i : ℕ) → i < n → m1.word (to + i) ≡ protected (m.word (from + i)))
      × (free_entries n to m1 ≡ Outcome.done m2)
      × ((nr : ℕ) → m2.mem_map nr ≡ m.mem_map nr)
      × ((i : ℕ) → i < n → m2.word (to + i) ≡ 0)
copy_entries-free_entries n f from to m d s z h =
    let (m1, e1, c) = copy_entries_lem n f from to m d s h in
    let copies = λ (i : ℕ) (l : i < n). fresh_copy n from to i c l (z i l) in
    let same = λ (nr : ℕ). protected-uses n from to m1.word m.word nr copies in
    let (m2, e2, r) =
      free_entries_lem n to m1 (IsSettled-copies n from to m m1 c s copies)
        (λ nr. omega (arith, same nr, c.counted nr)) in
    (
      m1,
      m2,
      e1,
      c.counted,
      copies,
      e2,
      (λ nr. omega (arith, r.counted nr, c.counted nr, same nr)),
      (λ i l. r.emptied (to + i) (omega arith) (omega (arith, l))),
    )
