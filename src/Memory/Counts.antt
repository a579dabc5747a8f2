-- ===== src/Memory/Counts.antt =====
-- The uses of the frames through the entries of a page table.
use linux.Common.{
  ◌∙◌, ℕ, zero, suc, ◌+◌, ◌-◌, ◌≤◌, ◌<◌, true, ◌&&◌, leb, ◌==◌, if◌then◌else◌, ◌≡◌, ◌≢◌, refl,
  arith, ◌⊎◌, inl, inr, dec_lt,
}
use linux.Memory.{low_mem, Memory, Outcome, frame, is_present, map_nr, store, set_map, free_page}
use linux.Memory.Tables.{free_entry, free_entries}

-- Whether the entry `e` uses the frame `nr`.
unfoldable pub use_of : ℕ → ℕ → ℕ
use_of nr e = if is_present e && leb low_mem (frame e) && map_nr (frame e) == nr then 1 else 0

-- The uses of the frame `nr` by the `n` entries from `ptr` on.
unfoldable pub uses : ℕ → ℕ → (ℕ → ℕ) → ℕ → ℕ
uses zero ptr word nr = 0
uses (suc n) ptr word nr = use_of nr (word ptr) + uses n (ptr + 1) word nr

-- An entry is empty, or its page is in memory.
abbrev pub IsSettled : Memory → ℕ → Type 0
IsSettled m e = (e ≡ 0) ⊎ ((is_present e ≡ true) × (frame e < m.high_memory))

pub uses_same :
    (n ptr : ℕ) (f g : ℕ → ℕ) (nr : ℕ)
    → ((w : ℕ) → ptr ≤ w → w < ptr + n → f w ≡ g w)
    → uses n ptr f nr ≡ uses n ptr g nr
unfolding uses
uses_same zero ptr f g nr h = refl
uses_same (suc n) ptr f g nr h =
    let rest = uses_same n (ptr + 1) f g nr (λ w k l. h w (omega (arith, k)) (omega (arith, l))) in
    rw (h ptr (omega arith) (omega arith)) (omega (arith, rest))

-- The state after the `n` entries from `ptr` on were freed: the frames are used that much less, the
-- entries are empty, and the other words and the bound are as before.
pub record IsFreed (n ptr : ℕ) (m m' : Memory) : Type 0 where
  pub counted : (nr : ℕ) → m'.mem_map nr + uses n ptr m.word nr ≡ m.mem_map nr
  pub others : (w : ℕ) → (w < ptr) ⊎ (ptr + n ≤ w) → m'.word w ≡ m.word w
  pub emptied : (w : ℕ) → ptr ≤ w → w < ptr + n → m'.word w ≡ 0
  pub same_high : m'.high_memory ≡ m.high_memory

free_entry_empty : (ptr : ℕ) (m : Memory) → m.word ptr ≡ 0 → free_entry ptr m ≡ Outcome.done m
unfolding free_entry
free_entry_empty ptr m e = ground (arith, e)

free_entry_low :
    (ptr : ℕ) (m : Memory)
    → is_present (m.word ptr) ≡ true
    → frame (m.word ptr) < low_mem
    → free_entry ptr m ≡ Outcome.done (store ptr 0 m)
unfolding free_entry free_page
free_entry_low ptr m p l = ground (arith, p, l)

free_entry_high :
    (ptr : ℕ) (m : Memory)
    → is_present (m.word ptr) ≡ true
    → low_mem ≤ frame (m.word ptr)
    → frame (m.word ptr) < m.high_memory
    → m.mem_map (map_nr (frame (m.word ptr))) ≢ 0
    → let nr = map_nr (frame (m.word ptr)) in
      free_entry ptr m ≡ Outcome.done (store ptr 0 (set_map nr (m.mem_map nr - 1) m))
unfolding free_entry free_page
free_entry_high ptr m p l h u = ground (arith, p, l, h, u)

-- One entry freed.
free_entry_lem :
    (ptr : ℕ) (m : Memory)
    → IsSettled m (m.word ptr)
    → ((nr : ℕ) → use_of nr (m.word ptr) ≤ m.mem_map nr)
    → (m' : Memory) × (free_entry ptr m ≡ Outcome.done m') × IsFreed 1 ptr m m'
unfolding uses use_of
free_entry_lem ptr m (inl e) h = (
  m,
  free_entry_empty ptr m e,
  record {
    counted = λ nr. ground (arith, e);
    others = λ w o. refl;
    emptied = λ w k l. let q : w ≡ ptr = omega (arith, k, l) in rw q e;
    same_high = refl;
  },
)
free_entry_lem ptr m (inr (p, l)) h = elim (dec_lt (frame (m.word ptr)) low_mem) [
  | yes low ↦ (
    store ptr 0 m,
    free_entry_low ptr m p low,
    record {
      counted = λ nr. ground (arith, low);
      others = λ w o. ground (arith, o);
      emptied = λ w k l. ground (arith, k, l);
      same_high = refl;
    },
  )
  | no high ↦
      let nr = map_nr (frame (m.word ptr)) in
      let own : use_of nr (m.word ptr) ≤ m.mem_map nr = h nr in
      let inside : low_mem ≤ frame (m.word ptr) = omega (arith, high) in
      let positive : m.mem_map nr ≢ 0 = λ q. absurd (ground (arith, q, own, p, inside)) in
      (
        store ptr 0 (set_map nr (m.mem_map nr - 1) m),
        free_entry_high ptr m p inside l positive,
        record {
          counted = λ k. ground (arith, positive, p, inside);
          others = λ w o. ground (arith, o);
          emptied = λ w k l. ground (arith, k, l);
          same_high = refl;
        },
      )
]

IsSettled-same :
    (m m' : Memory) (w : ℕ)
    → m'.high_memory ≡ m.high_memory
    → m'.word w ≡ m.word w
    → IsSettled m (m.word w)
    → IsSettled m' (m'.word w)
IsSettled-same m m' w h e s = rw (e, h) s

later_enough :
    (n ptr : ℕ) (m m1 : Memory) (nr : ℕ)
    → uses n (ptr + 1) m1.word nr ≡ uses n (ptr + 1) m.word nr
    → m1.mem_map nr + uses 1 ptr m.word nr ≡ m.mem_map nr
    → uses (suc n) ptr m.word nr ≤ m.mem_map nr
    → uses n (ptr + 1) m1.word nr ≤ m1.mem_map nr
unfolding uses
later_enough n ptr m m1 nr e c h = omega (arith, e, c, h)

others_later :
    (n ptr w : ℕ) {m m1 m2 : Memory}
    → (w < ptr) ⊎ (ptr + suc n ≤ w)
    → IsFreed 1 ptr m m1
    → IsFreed n (ptr + 1) m1 m2
    → m2.word w ≡ m.word w
others_later n ptr w (inl l) f1 f2 = f2.others w (inl (omega (arith, l))) ∙ f1.others w (inl l)
others_later n ptr w (inr l) f1 f2 =
    f2.others w (inr (omega (arith, l))) ∙ f1.others w (inr (omega (arith, l)))

emptied_later :
    (n ptr w : ℕ) {m m1 m2 : Memory}
    → ptr ≤ w
    → w < ptr + suc n
    → IsFreed 1 ptr m m1
    → IsFreed n (ptr + 1) m1 m2
    → m2.word w ≡ 0
emptied_later n ptr w k l f1 f2 = elim (dec_lt ptr w) [
  | yes q ↦ f2.emptied w (omega (arith, q)) (omega (arith, l))
  | no q ↦ f2.others w (inl (omega (arith, q))) ∙ f1.emptied w k (omega (arith, q))
]

pub free_entries_lem :
    (n ptr : ℕ) (m : Memory)
    → ((w : ℕ) → ptr ≤ w → w < ptr + n → IsSettled m (m.word w))
    → ((nr : ℕ) → uses n ptr m.word nr ≤ m.mem_map nr)
    → (m' : Memory) × (free_entries n ptr m ≡ Outcome.done m') × IsFreed n ptr m m'
unfolding free_entries uses
free_entries_lem zero ptr m settled enough = (
  m,
  refl,
  record {
    counted = λ nr. omega arith;
    others = λ w o. refl;
    emptied = λ w k l. absurd (omega (arith, k, l));
    same_high = refl;
  },
)
free_entries_lem (suc n) ptr m settled enough =
    let (m1, e1, f1) =
      free_entry_lem ptr m (settled ptr (omega arith) (omega arith))
        (λ nr. omega (arith, enough nr)) in
    let settled1 : (w : ℕ) → ptr + 1 ≤ w → w < ptr + 1 + n → IsSettled m1 (m1.word w) = λ w k l.
      IsSettled-same m m1 w f1.same_high (f1.others w (inr (omega (arith, k))))
        (settled w (omega (arith, k)) (omega (arith, l))) in
    let same = λ (nr : ℕ).
      uses_same n (ptr + 1) m1.word m.word nr (λ w k l. f1.others w (inr (omega (arith, k)))) in
    let enough1 = λ (nr : ℕ). later_enough n ptr m m1 nr (same nr) (f1.counted nr) (enough nr) in
    let (m2, e2, f2) = free_entries_lem n (ptr + 1) m1 settled1 enough1 in
    (
      m2,
      rw e1 e2,
      record {
        counted = λ nr. omega (arith, f2.counted nr, f1.counted nr, same nr);
        others = λ w o. others_later n ptr w o f1 f2;
        emptied = λ w k l. emptied_later n ptr w k l f1 f2;
        same_high = f2.same_high ∙ f1.same_high;
      },
    )
