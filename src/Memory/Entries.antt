-- ===== src/Memory/Entries.antt =====
-- One entry of a page table copied, and then the others.
use mathlib.Core.Path.{subst}
use linux.Common.{
  ℕ, zero, suc, ◌+◌, ◌%◌, ◌≤◌, ◌<◌, true, ◌==◌, if◌then◌else◌, ◌≡◌, ◌≢◌, refl, arith, ◌⊎◌, inl, inr,
  dec_lt, ◌∙◌, ap₂,
}
use linux.Memory.{low_mem, Memory, Outcome, frame, is_present, map_nr, protected, store, set_map}
use linux.Memory.Tables.{copy_entry}
use linux.Memory.Counts.{use_of, uses, uses_same, IsSettled}

-- Two tables, of which `n` entries each do not overlap.
abbrev pub AreApart : ℕ → ℕ → ℕ → Type 0
AreApart n from to = (from + n ≤ to) ⊎ (to + n ≤ from)

-- What a copied entry looks like in the copy.
abbrev pub copy_of : ℕ → ℕ → ℕ
copy_of e old = if e == 0 then old else protected e

-- The state after `n` entries were copied: every frame is used that much more, the copy has the
-- entries write-protected, the original has them as before or write-protected, and all other words
-- are as before.
pub record IsCopied (n from to : ℕ) (m m' : Memory) : Type 0 where
  pub counted : (nr : ℕ) → m'.mem_map nr ≡ m.mem_map nr + uses n from m.word nr
  pub copied : (i : ℕ) → i < n → m'.word (to + i) ≡ copy_of (m.word (from + i)) (m.word (to + i))
  pub kept :
      (i : ℕ)
      → i < n
      → (m'.word (from + i) ≡ m.word (from + i))
        ⊎ (m'.word (from + i) ≡ protected (m.word (from + i)))
  pub others :
      (w : ℕ) → (w < from) ⊎ (from + n ≤ w) → (w < to) ⊎ (to + n ≤ w) → m'.word w ≡ m.word w
  pub same_high : m'.high_memory ≡ m.high_memory

-- The same for one entry.
pub record IsEntryCopied (from to : ℕ) (m m' : Memory) : Type 0 where
  pub counted : (nr : ℕ) → m'.mem_map nr ≡ m.mem_map nr + use_of nr (m.word from)
  pub copied : m'.word to ≡ copy_of (m.word from) (m.word to)
  pub kept : (m'.word from ≡ m.word from) ⊎ (m'.word from ≡ protected (m.word from))
  pub others : (w : ℕ) → w ≢ from → w ≢ to → m'.word w ≡ m.word w
  pub same_high : m'.high_memory ≡ m.high_memory

module _ (f from to : ℕ) (m : Memory) where
  copy_entry_empty : m.word from ≡ 0 → copy_entry f from to m ≡ Outcome.done m
  unfolding copy_entry
  copy_entry_empty e = ground (arith, e)

  copy_entry_low :
      is_present (m.word from) ≡ true
      → frame (m.word from) < low_mem
      → copy_entry f from to m ≡ Outcome.done (store to (protected (m.word from)) m)
  unfolding copy_entry
  copy_entry_low p l = ground (arith, p, l)

  copy_entry_high :
      is_present (m.word from) ≡ true
      → low_mem ≤ frame (m.word from)
      → let e = protected (m.word from) in
        let nr = map_nr (frame (m.word from)) in
        copy_entry f from to m
        ≡ Outcome.done (set_map nr ((m.mem_map nr + 1) % 256) (store from e (store to e m)))
  unfolding copy_entry
  copy_entry_high p h = ground (arith, p, h)

  pub copy_entry_lem :
      from ≢ to
      → IsSettled m (m.word from)
      → ((nr : ℕ) → m.mem_map nr + use_of nr (m.word from) < 256)
      → (m' : Memory) × (copy_entry f from to m ≡ Outcome.done m') × IsEntryCopied from to m m'
  unfolding use_of
  copy_entry_lem d (inl e) h = (
    m,
    copy_entry_empty e,
    record {
      counted = λ nr. ground (arith, e);
      copied = ground (arith, e);
      kept = inl refl;
      others = λ w o o'. refl;
      same_high = refl;
    },
  )
  copy_entry_lem d (inr (p, l)) h = elim (dec_lt (frame (m.word from)) low_mem) [
    | yes low ↦ (
      store to (protected (m.word from)) m,
      copy_entry_low p low,
      record {
        counted = λ nr. ground (arith, low);
        copied = ground (arith, p);
        kept = inl (ground (arith, d));
        others = λ w o o'. ground (arith, o');
        same_high = refl;
      },
    )
    | no high ↦
        let inside : low_mem ≤ frame (m.word from) = omega (arith, high) in
        let e = protected (m.word from) in
        let nr = map_nr (frame (m.word from)) in
        (
          set_map nr ((m.mem_map nr + 1) % 256) (store from e (store to e m)),
          copy_entry_high p inside,
          record {
            counted = λ k. ground (arith, h nr, h k, p, inside);
            copied = ground (arith, p, d);
            kept = inr (ground arith);
            others = λ w o o'. ground (arith, o, o');
            same_high = refl;
          },
        )
  ]

pub first_apart : (n from to : ℕ) → AreApart (suc n) from to → from ≢ to
first_apart n from to (inl l) e = absurd (omega (arith, l, e))
first_apart n from to (inr l) e = absurd (omega (arith, l, e))

pub later_apart : (n from to : ℕ) → AreApart (suc n) from to → AreApart n (from + 1) (to + 1)
later_apart n from to (inl l) = inl (omega (arith, l))
later_apart n from to (inr l) = inr (omega (arith, l))

later_ne_to :
    (n from to w : ℕ) → AreApart (suc n) from to → from + 1 ≤ w → w < from + 1 + n → w ≢ to
later_ne_to n from to w (inl d) k l e = absurd (omega (arith, d, k, l, e))
later_ne_to n from to w (inr d) k l e = absurd (omega (arith, d, k, l, e))

-- A later entry of the original is as before the first one was copied.
pub later_word :
    (n from to w : ℕ) (m m1 : Memory)
    → AreApart (suc n) from to
    → from + 1 ≤ w
    → w < from + 1 + n
    → IsEntryCopied from to m m1
    → m1.word w ≡ m.word w
later_word n from to w m m1 d k l c =
    c.others w (λ e. absurd (omega (arith, e, k))) (later_ne_to n from to w d k l)

pub first-IsSettled :
    (n from : ℕ) (m : Memory)
    → ((i : ℕ) → i < suc n → IsSettled m (m.word (from + i)))
    → IsSettled m (m.word from)
first-IsSettled n from m s =
    let e : from + 0 ≡ from = omega arith in
    subst (λ w. IsSettled m (m.word w)) e (s 0 (omega arith))

pub shift : (a i : ℕ) → a + 1 + i ≡ a + suc i
shift a i = omega arith

pub later-IsSettled :
    (n from to i : ℕ) (m m1 : Memory)
    → AreApart (suc n) from to
    → i < n
    → IsEntryCopied from to m m1
    → IsSettled m (m.word (from + suc i))
    → IsSettled m1 (m1.word (from + 1 + i))
later-IsSettled n from to i m m1 d l c s =
    let same = later_word n from to (from + 1 + i) m m1 d (omega arith) (omega (arith, l)) c in
    rw (same, c.same_high, shift from i) s

after : (n a w : ℕ) → (w < a) ⊎ (a + suc n ≤ w) → (w < a + 1) ⊎ (a + 1 + n ≤ w)
after n a w (inl l) = inl (omega (arith, l))
after n a w (inr l) = inr (omega (arith, l))

off : (n a w : ℕ) → (w < a) ⊎ (a + suc n ≤ w) → w ≢ a
off n a w (inl l) e = absurd (omega (arith, l, e))
off n a w (inr l) e = absurd (omega (arith, l, e))

pub swap_apart : (n from to : ℕ) → AreApart n from to → AreApart n to from
swap_apart n from to (inl l) = inr l
swap_apart n from to (inr l) = inl l

-- The first entries are not among the later ones.
first_off : (n from to : ℕ) → AreApart (suc n) from to → (to < from + 1) ⊎ (from + 1 + n ≤ to)
first_off n from to (inl l) = inr (omega (arith, l))
first_off n from to (inr l) = inl (omega (arith, l))

pub plus_zero : (a : ℕ) → a + 0 ≡ a
plus_zero a = omega arith

-- One entry and then the others.
module _ (n from to : ℕ) (m m1 m2 : Memory) (d : AreApart (suc n) from to)
    (c1 : IsEntryCopied from to m m1) (c2 : IsCopied n (from + 1) (to + 1) m1 m2) where
  pub join_counted : (nr : ℕ) → m2.mem_map nr ≡ m.mem_map nr + uses (suc n) from m.word nr
  unfolding uses
  join_counted nr =
      let same =
        uses_same n (from + 1) m1.word m.word nr (λ w k l. later_word n from to w m m1 d k l c1) in
      omega (arith, c2.counted nr, c1.counted nr, same)

  pub join_copied :
      (i : ℕ) → i < suc n → m2.word (to + i) ≡ copy_of (m.word (from + i)) (m.word (to + i))
  join_copied zero l =
      rw (plus_zero to, plus_zero from)
        (c2.others to (first_off n from to d) (inl (omega arith)) ∙ c1.copied)
  join_copied (suc i) l =
      let from_same =
        later_word n from to (from + 1 + i) m m1 d (omega arith) (omega (arith, l)) c1 in
      let to_same : m1.word (to + 1 + i) ≡ m.word (to + 1 + i) =
        c1.others (to + 1 + i)
          (later_ne_to n to from (to + 1 + i) (swap_apart (suc n) from to d) (omega arith)
            (omega (arith, l)))
          (λ e. absurd (omega (arith, e))) in
      let both = c2.copied i (omega (arith, l)) ∙ ap₂ copy_of from_same to_same in
      rw⁻¹ (shift to i, shift from i) both

  pub join_kept :
      (i : ℕ)
      → i < suc n
      → (m2.word (from + i) ≡ m.word (from + i))
        ⊎ (m2.word (from + i) ≡ protected (m.word (from + i)))
  join_kept zero l =
      let same : m2.word from ≡ m1.word from =
        c2.others from (inl (omega arith)) (first_off n to from (swap_apart (suc n) from to d)) in
      rw (plus_zero from, same) c1.kept
  join_kept (suc i) l =
      let from_same =
        later_word n from to (from + 1 + i) m m1 d (omega arith) (omega (arith, l)) c1 in
      let kept : (m2.word (from + 1 + i) ≡ m.word (from + 1 + i))
          ⊎ (m2.word (from + 1 + i) ≡ protected (m.word (from + 1 + i))) =
        subst (λ e. (m2.word (from + 1 + i) ≡ e) ⊎ (m2.word (from + 1 + i) ≡ protected e)) from_same
          (c2.kept i (omega (arith, l))) in
      rw⁻¹ (shift from i) kept

  pub join_others :
      (w : ℕ) → (w < from) ⊎ (from + suc n ≤ w) → (w < to) ⊎ (to + suc n ≤ w) → m2.word w ≡ m.word w
  join_others w o o' =
      c2.others w (after n from w o) (after n to w o')
      ∙ c1.others w (off n from w o) (off n to w o')
