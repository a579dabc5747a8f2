-- ===== src/Memory/Tests.antt =====
-- The theorems about mm/memory.c and mm/swap.c at concrete inputs, and runs of their functions.
use linux.Common.{
  ℕ, zero, suc, ◌+◌, ◌*◌, ◌/◌, ◌^◌, ◌<◌, none, some, Bool, true, false, ltb, ◌==◌, if◌then◌else◌,
  ◌≡◌, ◌≢◌, refl, arith, inl, inr,
}
use linux.Memory.{low_mem, Memory, Outcome, protected, free_page, used}
use linux.Memory.Swap.{get_free_page, try_to_swap_out, get_swap_page, find_swap}
use linux.Memory.Tables.{copy_entries, free_entries}
use linux.Memory.Faults.{un_wp_page, mem_init}
use linux.Memory.Counts.{uses, use_of, IsSettled}
use linux.Memory.Copies.{copy_entries-free_entries}
use linux.Memory.Frames.{HasFrames, get_free_page-free_page}
use linux.Memory.Private.{IsPrivate, un_wp_page-IsPrivate}

-- A table in frame 5, whose first entry is for frame 6, which is shared and may not be written to.
-- Frame 7 is free, and all others are taken.
abbrev table : ℕ
table = 267264

abbrev shared : Memory
shared = record {
  high_memory = 2 ^ 24;
  mem_map = λ k. if k == 7 then 0 else if k == 6 then 2 else if k == 5 then 1 else used;
  word = λ w. if w == table then low_mem + 6 * 4096 + 5 else if w == 268288 then 42 else 0;
  swap_bitmap = none;
  disk = λ n i. 0;
  dir_entry = 16;
  page_entry = 0;
}

shared-HasFrames : HasFrames shared
unfolding HasFrames
shared-HasFrames k h = ground (arith, h)

get_free_page-free_page_example :
    (nr : ℕ) × (m' : Memory) × (m'' : Memory) × (get_free_page 1 shared
      ≡ Outcome.done (low_mem + nr * 4096, m'))
    × (shared.mem_map nr ≡ 0)
    × (m'.mem_map nr ≡ 1)
    × ((i : ℕ) → i < 1024 → m'.word ((low_mem + nr * 4096) / 4 + i) ≡ 0)
    × ((w : ℕ) → w / 1024 ≢ (low_mem + nr * 4096) / 4096 → m'.word w ≡ shared.word w)
    × (free_page (low_mem + nr * 4096) m' ≡ Outcome.done m'')
    × ((j : ℕ) → m''.mem_map j ≡ shared.mem_map j)
get_free_page-free_page_example =
    get_free_page-free_page 0 7 shared (omega arith) refl shared-HasFrames

un_wp_page-IsPrivate_example :
    (m' : Memory) × (un_wp_page 1 table shared ≡ Outcome.done m') × IsPrivate table shared m'
un_wp_page-IsPrivate_example =
    un_wp_page-IsPrivate 0 7 table shared refl (omega arith) (λ e. absurd (omega (arith, e)))
      (omega arith) (omega arith) refl shared-HasFrames (λ e. absurd (omega (arith, e)))
      (λ nr h e. absurd (ground (arith, h, e)))

settled : (i : ℕ) → i < 2 → IsSettled shared (shared.word (table + i))
settled zero h = inr (refl, omega arith)
settled (suc zero) h = inl refl
settled (suc (suc i)) h = absurd (omega (arith, h))

empty : (i : ℕ) → i < 2 → shared.word (300000 + i) ≡ 0
empty i h = ground (arith, h)

no_overflow : (nr : ℕ) → shared.mem_map nr + uses 2 table shared.word nr < 256
unfolding uses use_of
no_overflow nr = ground arith

copy_entries-free_entries_example :
    (m1 : Memory) × (m2 : Memory) × (copy_entries 2 1 table 300000 shared ≡ Outcome.done m1)
    × ((nr : ℕ) → m1.mem_map nr ≡ shared.mem_map nr + uses 2 table shared.word nr)
    × ((i : ℕ) → i < 2 → m1.word (300000 + i) ≡ protected (shared.word (table + i)))
    × (free_entries 2 300000 m1 ≡ Outcome.done m2)
    × ((nr : ℕ) → m2.mem_map nr ≡ shared.mem_map nr)
    × ((i : ℕ) → i < 2 → m2.word (300000 + i) ≡ 0)
copy_entries-free_entries_example =
    copy_entries-free_entries 2 1 table 300000 shared (inl (omega arith)) settled empty no_overflow

-- With 16 MB of memory and 4 MB for the kernel and its buffers, the first free frame is 768.
init_runs : (mem_init (2 ^ 22) (2 ^ 24) shared).mem_map 768 ≡ 0
unfolding mem_init
init_runs = refl

-- A dirty page of the first process goes to the first free page of the swap device, and its frame is
-- given out again. The directory's entry 16 is for the table in frame 5.
abbrev full : Memory
full = record shared {
  mem_map = λ k. if k == 6 then 1 else used;
  word = λ w.
      if w == 16
      then low_mem + 5 * 4096 + 7
      else if w == table
      then low_mem + 6 * 4096 + 0x47
      else 0;
  swap_bitmap = some (λ n. ltb 3 n);
}

swapped : Outcome (Bool × Memory) → Bool × ℕ × ℕ
swapped (Outcome.done (b, m)) = (b, m.word table, m.mem_map 6)
swapped _ = (false, 0, 0)

swap_runs : swapped (try_to_swap_out table full) ≡ (true, 8, 0)
unfolding swapped try_to_swap_out get_swap_page find_swap free_page
swap_runs = refl
