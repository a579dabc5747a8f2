-- ===== src/Memory/Frames.antt =====
-- Free frames.
use linux.Common.{
  ℕ, zero, suc, ◌+◌, ◌*◌, ◌/◌, ◌<◌, none, some, ◌==◌, ◌≡◌, ◌≢◌, arith, inl, inr, Bool-cases,
  ℕ_discrete, Option-cases,
}
use linux.Memory.{low_mem, paging_pages, Memory, Outcome, map_nr, set_map, free_page}
use linux.Memory.Swap.{find_frame, take_frame, get_free_page}

find_frame-some : (n nr : ℕ) (map : ℕ → ℕ) → find_frame n map ≡ some nr → (map nr ≡ 0) × (nr < n)
unfolding find_frame
find_frame-some zero nr map e = absurd (ground (arith, e))
find_frame-some (suc n) nr map e = elim (Bool-cases (map n == 0)) [
  | inl h ↦
      let q : n ≡ nr = ground (arith, e, h) in
      let z : map n ≡ 0 = ground (arith, h) in (rw⁻¹ q z, omega (arith, q))
  | inr h ↦
      let later : find_frame n map ≡ some nr = ground (arith, e, h) in
      let (z, l) = find_frame-some n nr map later in (z, omega (arith, l))
]

find_frame-none : (n k : ℕ) (map : ℕ → ℕ) → find_frame n map ≡ none → k < n → map k ≢ 0
unfolding find_frame
find_frame-none zero k map e l z = absurd (omega (arith, l))
find_frame-none (suc n) k map e l z = elim (ℕ_discrete k n) [
  | yes q ↦ let here : map n ≡ 0 = rw⁻¹ q z in absurd (ground (arith, e, here))
  | no q ↦
      let later : find_frame n map ≡ none = ground (arith, e) in
      find_frame-none n k map later (omega (arith, l, q)) z
]

-- Every frame without a use lies in memory.
unfoldable pub HasFrames : Memory → Type 0
HasFrames m = (k : ℕ) → m.mem_map k ≡ 0 → low_mem + k * 4096 < m.high_memory

pub get_free_page_take :
    (f k : ℕ) (m : Memory)
    → k < paging_pages
    → m.mem_map k ≡ 0
    → HasFrames m
    → (nr : ℕ) × (get_free_page (suc f) m ≡ Outcome.done (low_mem + nr * 4096, take_frame nr m))
      × (m.mem_map nr ≡ 0)
      × (nr < paging_pages)
unfolding get_free_page HasFrames
get_free_page_take f k m l e h = elim (Option-cases (find_frame paging_pages m.mem_map)) [
  | inl q ↦ absurd (find_frame-none paging_pages k m.mem_map q l e)
  | inr (nr, q) ↦
      let (free, inside) = find_frame-some paging_pages nr m.mem_map q in
      let here = h nr free in (nr, rw (q, get_free_page) (ground (arith, here)), free, inside)
]

freed_again :
    (nr : ℕ) (m : Memory)
    → low_mem + nr * 4096 < m.high_memory
    → free_page (low_mem + nr * 4096) (take_frame nr m)
      ≡ Outcome.done (set_map nr 0 (take_frame nr m))
unfolding free_page
freed_again nr m h =
    let place : map_nr (low_mem + nr * 4096) ≡ nr = omega arith in rw place (ground (arith, h))

-- There is a free frame, and every free frame lies in memory: `get_free_page` gives the address of a
-- frame without a use, with one use afterwards and its page cleared, and leaves all other words
-- alone; `free_page` of that address gives every frame its uses back.
pub get_free_page-free_page :
    (f k : ℕ) (m : Memory)
    → k < paging_pages
    → m.mem_map k ≡ 0
    → HasFrames m
    → (nr : ℕ) × (m' : Memory) × (m'' : Memory) × (get_free_page (suc f) m
        ≡ Outcome.done (low_mem + nr * 4096, m'))
      × (m.mem_map nr ≡ 0)
      × (m'.mem_map nr ≡ 1)
      × ((i : ℕ) → i < 1024 → m'.word ((low_mem + nr * 4096) / 4 + i) ≡ 0)
      × ((w : ℕ) → w / 1024 ≢ (low_mem + nr * 4096) / 4096 → m'.word w ≡ m.word w)
      × (free_page (low_mem + nr * 4096) m' ≡ Outcome.done m'')
      × ((j : ℕ) → m''.mem_map j ≡ m.mem_map j)
unfolding free_page HasFrames
get_free_page-free_page f k m l z h =
    let (nr, e, free, inside) = get_free_page_take f k m l z h in
    let here = h nr free in
    (
      nr,
      take_frame nr m,
      set_map nr 0 (take_frame nr m),
      e,
      free,
      ground arith,
      (λ i q. ground (arith, q)),
      (λ w q. ground (arith, q)),
      freed_again nr m here,
      (λ j. ground (arith, free)),
    )
