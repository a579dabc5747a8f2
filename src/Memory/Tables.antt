-- ===== src/Memory/Tables.antt =====
-- mm/memory.c: page tables, copied and freed by directory entries.
use linux.Common.{ℕ, zero, suc, ◌+◌, ◌/◌, ◌%◌, ◌^◌, ◌||◌, not, ltb, ◌==◌, ◌!=◌, if◌then◌else◌}
use linux.Memory.{
  low_mem, Memory, Outcome, ◌>>=◌, frame, is_present, map_nr, protected, store, set_map, free_page,
}
use linux.Memory.Swap.{swap_free, read_swap_page, get_free_page}

unfoldable pub free_entry : ℕ → Memory → Outcome Memory
free_entry ptr m =
    let e = m.word ptr in
    if e == 0
    then Outcome.done m
    else if is_present e
    then (free_page (frame e) m >>= λ m'. Outcome.done (store ptr 0 m'))
    else Outcome.done (store ptr 0 (swap_free (e / 2) m))

-- `n` entries from `ptr` on.
unfoldable pub free_entries : ℕ → ℕ → Memory → Outcome Memory
free_entries zero ptr m = Outcome.done m
free_entries (suc n) ptr m = free_entry ptr m >>= free_entries n (ptr + 1)

unfoldable pub free_dir : ℕ → Memory → Outcome Memory
free_dir dir m =
    if is_present (m.word dir)
    then (free_entries 1024 (frame (m.word dir) / 4) m >>= λ m'.
        free_page (frame (m'.word dir)) m' >>= λ m''. Outcome.done (store dir 0 m''))
    else Outcome.done m

unfoldable pub free_dirs : ℕ → ℕ → Memory → Outcome Memory
free_dirs zero dir m = Outcome.done m
free_dirs (suc n) dir m = free_dir dir m >>= free_dirs n (dir + 1)

-- `(size + 0x3fffff) >> 22`
abbrev pub dirs_of : ℕ → ℕ
dirs_of size = (size + 0x3fffff) % 2 ^ 32 / 2 ^ 22

unfoldable pub free_page_tables : ℕ → ℕ → Memory → Outcome Memory
free_page_tables from size m =
    if from % 2 ^ 22 != 0
    then Outcome.panicked
    else if from == 0
    then Outcome.panicked
    else free_dirs (dirs_of size) (from / 2 ^ 22) m

-- `page | 7` and `page | (PAGE_DIRTY | 7)` of the address of a page.
abbrev pub user_page : ℕ → ℕ
user_page page = page + 7

abbrev pub dirty_page : ℕ → ℕ
dirty_page page = page + 0x47

-- One entry of a table, with the fuel of `get_free_page`.
unfoldable pub copy_entry : ℕ → ℕ → ℕ → Memory → Outcome Memory
copy_entry f from to m =
    let e = m.word from in
    let shared = store to (protected e) m in
    if e == 0
    then Outcome.done m
    else if not (is_present e)
    then (get_free_page f m >>= λ (page, m').
        if page == 0
        then Outcome.no_memory m'
        else Outcome.done
            (store from (dirty_page page) (store to e (read_swap_page (e / 2) page m'))))
    else if ltb low_mem (protected e)
    then (let nr = map_nr (protected e) in
        Outcome.done (set_map nr ((shared.mem_map nr + 1) % 256) (store from (protected e) shared)))
    else Outcome.done shared

unfoldable pub copy_entries : ℕ → ℕ → ℕ → ℕ → Memory → Outcome Memory
copy_entries zero f from to m = Outcome.done m
copy_entries (suc n) f from to m = copy_entry f from to m >>= copy_entries n f (from + 1) (to + 1)

-- One entry of the directory: `n` entries of its table.
unfoldable pub copy_dir : ℕ → ℕ → ℕ → ℕ → Memory → Outcome Memory
copy_dir n f from to m =
    if is_present (m.word to)
    then Outcome.panicked
    else if not (is_present (m.word from))
    then Outcome.done m
    else (get_free_page f m >>= λ (table, m').
        if table == 0
        then Outcome.no_memory m'
        else copy_entries n f (frame (m.word from) / 4) (table / 4) (store to (user_page table) m'))

unfoldable pub copy_dirs : ℕ → ℕ → ℕ → ℕ → ℕ → Memory → Outcome Memory
copy_dirs zero n f from to m = Outcome.done m
copy_dirs (suc k) n f from to m = copy_dir n f from to m >>= copy_dirs k n f (from + 1) (to + 1)

-- Of the kernel's tables, which stand at 0, the first 160 entries are copied.
unfoldable pub copy_page_tables : ℕ → ℕ → ℕ → ℕ → Memory → Outcome Memory
copy_page_tables f from to size m =
    if from % 2 ^ 22 != 0 || to % 2 ^ 22 != 0
    then Outcome.panicked
    else copy_dirs (dirs_of size) (if from == 0 then 160 else 1024) f (from / 2 ^ 22) (to / 2 ^ 22)
        m
