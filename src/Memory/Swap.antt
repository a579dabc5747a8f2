-- ===== src/Memory/Swap.antt =====
-- mm/swap.c: the swap device, the search for a page to swap out, and `get_free_page`.
use linux.Common.{
  ℕ, zero, suc, ◌+◌, ◌-◌, ◌*◌, ◌/◌, ◌%◌, ◌^◌, Option, none, some, Bool, true, false, ◌||◌, not, ltb,
  leb, ◌==◌, ◌!=◌, if◌then◌else◌,
}
use linux.Memory.{
  low_mem, paging_memory, paging_pages, Memory, update, Outcome, ◌>>=◌, frame, is_present, map_nr,
  store, free_page,
}

-- `get_swap_page` over the `n` numbers from `nr` on: the first free one, or 0.
unfoldable pub find_swap : ℕ → ℕ → (ℕ → Bool) → ℕ
find_swap zero nr bits = 0
find_swap (suc n) nr bits = let rest = find_swap n (nr + 1) bits in if bits nr then nr else rest

unfoldable pub get_swap_page : Memory → ℕ × Memory
get_swap_page m = elim (m.swap_bitmap) [
  | none ↦ (0, m)
  | some bits ↦
      let nr = find_swap 32767 1 bits in
      (nr, if nr == 0 then m else record m { swap_bitmap = some (update bits nr false) })
]

unfoldable pub swap_free : ℕ → Memory → Memory
swap_free nr m = elim (m.swap_bitmap) [
  | none ↦ m
  | some bits ↦
      if nr == 0 || leb 32768 nr then m else record m { swap_bitmap = some (update bits nr true) }
]

-- `read_swap_page` into the page at `page`, and `write_swap_page` from it.
abbrev pub read_swap_page : ℕ → ℕ → Memory → Memory
read_swap_page nr page m = record m {
  word = λ w. if w / 1024 == page / 4096 then m.disk nr (w % 1024) else m.word w;
}

abbrev pub write_swap_page : ℕ → ℕ → Memory → Memory
write_swap_page nr page m = record m { disk = update m.disk nr (λ i. m.word (page / 4 + i)) }

unfoldable pub try_to_swap_out : ℕ → Memory → Outcome (Bool × Memory)
try_to_swap_out ptr m =
    let page = m.word ptr in
    let (nr, m') = get_swap_page m in
    if not (is_present page) || ltb paging_memory ((2 ^ 32 + page - low_mem) % 2 ^ 32)
    then Outcome.done (false, m)
    else if page / 64 % 2 == 1
    then (if m.mem_map (map_nr (frame page)) != 1
        then Outcome.done (false, m)
        else if nr == 0
        then Outcome.done (false, m')
        else (free_page (frame page) (write_swap_page nr (frame page) (store ptr (nr * 2) m'))
            >>= λ m''. Outcome.done (true, m'')))
    else (free_page page (store ptr 0 m) >>= λ m''. Outcome.done (true, m''))

-- The first entry of the directory for a user's page, and the number of such pages.
abbrev pub first_vm_dir : ℕ
first_vm_dir = 16

abbrev pub vm_pages : ℕ
vm_pages = 2 ^ 20 - 2 ^ 14

abbrev pub next_dir : ℕ → ℕ
next_dir dir = if leb 1024 (dir + 1) then first_vm_dir else dir + 1

-- The first loop of `swap_out`, on fuel: the entry where it stops, and the counter.
unfoldable pub find_dir : ℕ → ℕ → ℕ → (ℕ → ℕ) → ℕ × ℕ
find_dir zero counter dir word = (counter, dir)
find_dir (suc f) counter dir word =
    let rest = find_dir f (counter - 1024) (next_dir dir) word in
    if counter == 0 || is_present (word dir) then (counter, dir) else rest

-- From `repeat` on: the next directory entry whose table is there, or the last one looked at, with
-- the counter.
unfoldable pub later_dir : ℕ → ℕ → ℕ → (ℕ → ℕ) → Bool × ℕ × ℕ
later_dir zero counter dir word = (false, counter, dir)
later_dir (suc f) counter dir word =
    let rest = later_dir f (counter - 1024) (next_dir dir) word in
    if is_present (word (next_dir dir))
    then (true, counter, next_dir dir)
    else if counter - 1024 == 0
    then (false, 0, next_dir dir)
    else rest

-- The place that the next round looks at, if there is one, with the counter and the variables.
unfoldable pub next_place : ℕ → Memory → Bool × ℕ × Memory
next_place counter m =
    let (found, counter', dir) = later_dir 1024 counter m.dir_entry m.word in
    if ltb m.page_entry 1024
    then (true, counter, record m { page_entry = m.page_entry + 1 })
    else (found, counter', record m { dir_entry = dir; page_entry = 1 })

-- The second loop, on fuel.
unfoldable pub swap_scan : ℕ → ℕ → Memory → Outcome (Bool × Memory)
swap_scan zero counter m = Outcome.done (false, m)
swap_scan (suc f) counter m =
    let (found, counter', m') = next_place (counter - 1) m in
    elim (counter == 0) [
      | true ↦ Outcome.done (false, m)
      | false ↦ elim found [
        | false ↦ Outcome.done (false, m')
        | true ↦
            try_to_swap_out (frame (m'.word m'.dir_entry) / 4 + (m'.page_entry - 1)) m'
            >>= λ (swapped, m''). elim swapped [
              | true ↦ Outcome.done (true, m'')
              | false ↦ swap_scan f counter' m''
            ]
      ]
    ]

unfoldable pub swap_out : Memory → Outcome (Bool × Memory)
swap_out m =
    let (counter, dir) = find_dir 1008 vm_pages m.dir_entry m.word in
    swap_scan vm_pages counter (record m { dir_entry = dir })

-- The last frame without a use among the first `n`.
unfoldable pub find_frame : ℕ → (ℕ → ℕ) → Option ℕ
find_frame zero mem_map = none
find_frame (suc n) mem_map =
    let rest = find_frame n mem_map in if mem_map n == 0 then some n else rest

-- A frame in use, with its page cleared.
abbrev pub take_frame : ℕ → Memory → Memory
take_frame nr m = record m {
  mem_map = update m.mem_map nr 1;
  word = λ w. if w / 1024 == nr + low_mem / 4096 then 0 else m.word w;
}

-- `get_free_page`, whose repetitions are on fuel: the address, or 0.
unfoldable pub get_free_page : ℕ → Memory → Outcome (ℕ × Memory)
get_free_page zero m = Outcome.no_fuel
get_free_page (suc f) m = elim (find_frame paging_pages m.mem_map) [
  | some nr ↦ elim (leb m.high_memory (low_mem + nr * 4096)) [
    | true ↦ get_free_page f (take_frame nr m)
    | false ↦ Outcome.done (low_mem + nr * 4096, take_frame nr m)
  ]
  | none ↦ swap_out m >>= λ (swapped, m'). elim swapped [
    | true ↦ get_free_page f m'
    | false ↦ Outcome.done (0, m')
  ]
]
