-- ===== src/Memory.antt =====
-- mm/memory.c and mm/swap.c: page frames, page tables and the swap device.
pub mod Swap
pub mod Tables
pub mod Faults
pub mod Counts
pub mod Entries
pub mod Copies
pub mod Frames
pub mod Private
mod Tests
pub use linux.Common.{update}
use linux.Common.{
  ℕ, zero, suc, ◌+◌, ◌-◌, ◌*◌, ◌/◌, ◌%◌, ◌^◌, Option, none, some, List, [], ◌∷◌, Bool, true, false,
  ◌&&◌, ◌||◌, not, ltb, leb, ◌==◌, ◌!=◌, if◌then◌else◌,
}

abbrev pub low_mem : ℕ
low_mem = 2 ^ 20

abbrev pub paging_memory : ℕ
paging_memory = 15 * 2 ^ 20

abbrev pub paging_pages : ℕ
paging_pages = 3840

abbrev pub used : ℕ
used = 100

-- The state of memory. `word` is physical memory by long words, at a quarter of their address; the
-- page directory is at address 0. `mem_map` counts the uses of each frame from `low_mem` on, each
-- count an unsigned char. `disk` is the swap device, page by page, and `swap_bitmap` its free pages.
-- `dir_entry` and `page_entry` are the static variables of `swap_out`, the latter plus 1.
pub record Memory : Type 0 where
  pub high_memory : ℕ
  pub mem_map : ℕ → ℕ
  pub word : ℕ → ℕ
  pub swap_bitmap : Option (ℕ → Bool)
  pub disk : ℕ → ℕ → ℕ
  pub dir_entry : ℕ
  pub page_entry : ℕ

-- A function returns, is out of memory and says so, calls `panic`, or ends the process by `oom`; or
-- the fuel of the model runs out.
pub data Outcome (A : Type 0) : Type 0 where
  done : A → Outcome A
  no_memory : Memory → Outcome A
  panicked : Outcome A
  killed : Outcome A
  no_fuel : Outcome A

infixl 5 ◌>>=◌
abbrev pub ◌>>=◌ : {A B : Type 0} → Outcome A → (A → Outcome B) → Outcome B
done a >>= f = f a
no_memory m >>= f = no_memory m
panicked >>= f = panicked
killed >>= f = killed
no_fuel >>= f = no_fuel

-- `0xfffff000 & e`, `1 & e`, `MAP_NR(addr)`, and `e & ~2` of 32-bit words.
abbrev pub frame : ℕ → ℕ
frame e = e / 4096 * 4096

abbrev pub is_present : ℕ → Bool
is_present e = e % 2 == 1

abbrev pub map_nr : ℕ → ℕ
map_nr addr = (addr - low_mem) / 4096

abbrev pub protected : ℕ → ℕ
protected e = e - 2 * (e / 2 % 2)

abbrev pub store : ℕ → ℕ → Memory → Memory
store w v m = record m { word = update m.word w v }

abbrev pub set_map : ℕ → ℕ → Memory → Memory
set_map nr n m = record m { mem_map = update m.mem_map nr n }

unfoldable pub free_page : ℕ → Memory → Outcome Memory
free_page addr m =
    let nr = map_nr addr in
    if ltb addr low_mem
    then Outcome.done m
    else if leb m.high_memory addr
    then Outcome.panicked
    else if m.mem_map nr == 0
    then Outcome.panicked
    else Outcome.done (set_map nr (m.mem_map nr - 1) m)
