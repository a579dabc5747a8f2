-- ===== src/Memory/Faults.antt =====
-- mm/memory.c: pages put in place, the write fault, and sharing.
use mathlib.Core.Option
use linux.Common.{
  ℕ, ◌+◌, ◌-◌, ◌*◌, ◌/◌, ◌%◌, ◌^◌, Option, none, some, List, [], ◌∷◌, Bool, true, false, ◌&&◌, ◌||◌,
  not, ltb, leb, ◌==◌, if◌then◌else◌,
}
use linux.Memory.{
  low_mem, used, Memory, update, Outcome, ◌>>=◌, frame, is_present, map_nr, protected, store,
  set_map, free_page,
}
use linux.Memory.Swap.{read_swap_page, get_free_page}
use linux.Memory.Tables.{user_page, dirty_page}

-- The directory's entry for an address, and its place in a table.
abbrev pub dir_of : ℕ → ℕ
dir_of address = address / 2 ^ 22

abbrev pub index_of : ℕ → ℕ
index_of address = address / 4096 % 1024

-- `put_page` and `put_dirty_page`, which differ by the word that is stored: 0 if there is no page
-- for the table.
unfoldable pub put_entry : ℕ → ℕ → ℕ → ℕ → Memory → Outcome (ℕ × Memory)
put_entry f e page address m =
    let there = m.word (dir_of address) in
    if is_present there
    then Outcome.done (page, store (frame there / 4 + index_of address) e m)
    else (get_free_page f m >>= λ (tmp, m').
        if tmp == 0
        then Outcome.done (0, m')
        else Outcome.done (
          page,
          store (tmp / 4 + index_of address) e (store (dir_of address) (user_page tmp) m'),
        ))

abbrev pub put_page : ℕ → ℕ → ℕ → Memory → Outcome (ℕ × Memory)
put_page f page address m = put_entry f (user_page page) page address m

abbrev pub put_dirty_page : ℕ → ℕ → ℕ → Memory → Outcome (ℕ × Memory)
put_dirty_page f page address m = put_entry f (dirty_page page) page address m

abbrev pub copy_page : ℕ → ℕ → Memory → Memory
copy_page from to m = record m {
  word = λ w. if w / 1024 == to / 4096 then m.word (from / 4 + w % 1024) else m.word w;
}

-- `e | 2`
abbrev pub writable : ℕ → ℕ
writable e = e + 2 * (1 - e / 2 % 2)

unfoldable pub un_wp_page : ℕ → ℕ → Memory → Outcome Memory
un_wp_page f entry m =
    let old = frame (m.word entry) in
    if leb low_mem old && m.mem_map (map_nr old) == 1
    then Outcome.done (store entry (writable (m.word entry)) m)
    else (get_free_page f m >>= λ (new, m').
        let n = (m'.mem_map (map_nr old) + 255) % 256 in
        let less = if leb low_mem old then set_map (map_nr old) n m' else m' in
        if new == 0
        then Outcome.killed
        else Outcome.done (store entry (user_page new) (copy_page old new less)))

-- The entry is looked up without a test that its table is there.
unfoldable pub do_wp_page : ℕ → ℕ → ℕ → Memory → Outcome Memory
do_wp_page f start_code address m =
    if ltb (2 ^ 26) ((2 ^ 32 + address - start_code) % 2 ^ 32)
    then Outcome.killed
    else un_wp_page f (frame (m.word (dir_of address)) / 4 + index_of address) m

unfoldable pub write_verify : ℕ → ℕ → Memory → Outcome Memory
write_verify f address m =
    let table = m.word (dir_of address) in
    let entry = frame table / 4 + index_of address in
    if not (is_present table)
    then Outcome.done m
    else if m.word entry % 4 == 1
    then un_wp_page f entry m
    else Outcome.done m

-- The frame is freed again before the process ends for want of a page for the table; the end of the
-- process is not part of this.
unfoldable pub get_empty_page : ℕ → ℕ → Memory → Outcome Memory
get_empty_page f address m = get_free_page f m >>= λ (tmp, m').
    if tmp == 0
    then Outcome.killed
    else (put_page f tmp address m' >>= λ (page, m'').
        if page == 0 then (free_page tmp m'' >>= λ m'''. Outcome.killed) else Outcome.done m'')

-- The table for the entry `to` of the directory, which is made if it is not there.
unfoldable pub table_for : ℕ → ℕ → Memory → Outcome Memory
table_for f to m =
    if is_present (m.word to)
    then Outcome.done m
    else (get_free_page f m >>= λ (table, m').
        if table == 0 then Outcome.killed else Outcome.done (store to (user_page table) m'))

-- `try_to_share(address, p)` between the processes whose code starts at `from` and `to`.
unfoldable pub try_to_share : ℕ → ℕ → ℕ → ℕ → Memory → Outcome (Bool × Memory)
try_to_share f address from to m =
    let from_dir = m.word (dir_of address + dir_of from) in
    let from_page = frame from_dir / 4 + index_of address in
    let e = m.word from_page in
    let to_dir = dir_of address + dir_of to in
    if not (is_present from_dir)
    then Outcome.done (false, m)
    else if not (is_present e) || e / 64 % 2 == 1
    then Outcome.done (false, m)
    else if leb m.high_memory (frame e) || ltb (frame e) low_mem
    then Outcome.done (false, m)
    else (table_for f to_dir m >>= λ m'.
        let to_page = frame (m'.word to_dir) / 4 + index_of address in
        let shared = protected (m'.word from_page) in
        let nr = map_nr (frame e) in
        if is_present (m'.word to_page)
        then Outcome.panicked
        else Outcome.done (
          true,
          set_map nr ((m'.mem_map nr + 1) % 256) (store to_page shared (store from_page shared m')),
        ))

-- `swap_in` of the entry `ptr`.
unfoldable pub swap_in : ℕ → ℕ → Memory → Outcome Memory
swap_in f ptr m =
    let nr = m.word ptr / 2 in
    elim (m.swap_bitmap) [
      | none ↦ Outcome.done m
      | some bits ↦
          if is_present (m.word ptr) || nr == 0
          then Outcome.done m
          else (get_free_page f m >>= λ (page, m').
              let m'' = read_swap_page nr page m' in
              if page == 0
              then Outcome.killed
              else Outcome.done (
                  store ptr (dirty_page page) (record m'' {
                    swap_bitmap = Option.map (λ b. update b nr true) m'.swap_bitmap;
                  })))
    ]

-- A task, as `share_page` looks at it: its number, and the inodes of its program and library.
pub record Task : Type 0 where
  pub number : ℕ
  pub start_code : ℕ
  pub executable : Option ℕ
  pub library : Option ℕ

abbrev pub library_offset : ℕ
library_offset = 2 ^ 26 - 2 ^ 22

abbrev pub is_inode : Option ℕ → ℕ → Bool
is_inode none inode = false
is_inode (some i) inode = i == inode

-- The loop of `share_page`, from the last task down to the one behind task 0.
unfoldable pub share_with : ℕ → ℕ → ℕ → Task → List (Option Task) → Memory → Outcome (Bool × Memory)
share_with f inode address current [] m = Outcome.done (false, m)
share_with f inode address current (none ∷ tasks) m = share_with f inode address current tasks m
share_with f inode address current (some p ∷ tasks) m =
    let same = if ltb address library_offset then p.executable else p.library in
    let skip : Outcome (Bool × Memory) = Outcome.done (false, m) in
    (if p.number == current.number || not (is_inode same inode)
      then skip
      else try_to_share f address p.start_code current.start_code m)
    >>= λ (shared, m'). elim shared [
      | true ↦ Outcome.done (true, m')
      | false ↦ share_with f inode address current tasks m'
    ]

unfoldable pub share_page :
    ℕ → ℕ → ℕ → ℕ → Task → List (Option Task) → Memory → Outcome (Bool × Memory)
share_page f inode i_count address current tasks m =
    if ltb i_count 2 then Outcome.done (false, m) else share_with f inode address current tasks m

-- `mem_init(start_mem, end_mem)`
unfoldable pub mem_init : ℕ → ℕ → Memory → Memory
mem_init start_mem end_mem m = record m {
  high_memory = end_mem;
  mem_map = λ i.
      if leb (map_nr start_mem) i && ltb i (map_nr start_mem + (end_mem - start_mem) / 4096)
      then 0
      else used;
}
