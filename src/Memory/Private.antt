-- ===== src/Memory/Private.antt =====
-- The private page that a write fault gives.
use linux.Common.{
  ℕ, suc, ◌+◌, ◌*◌, ◌/◌, ◌%◌, ◌≤◌, ◌<◌, true, ◌==◌, if◌then◌else◌, ◌≡◌, ◌≢◌, refl, arith, ◌∙◌, ap,
  ℕ_discrete,
}
use linux.Memory.{low_mem, paging_pages, Memory, Outcome, frame, is_present, map_nr, store, set_map}
use linux.Memory.Swap.{take_frame, get_free_page}
use linux.Memory.Tables.{user_page}
use linux.Memory.Faults.{un_wp_page, copy_page, writable}
use linux.Memory.Frames.{HasFrames, get_free_page_take}

-- What the write fault at the word `entry` leaves.
pub record IsPrivate (entry : ℕ) (m m' : Memory) : Type 0 where
  pub present : is_present (m'.word entry) ≡ true
  pub may_write : m'.word entry / 2 % 2 ≡ 1
  pub alone : m'.mem_map (map_nr (frame (m'.word entry))) ≡ 1
  pub same_page :
      (i : ℕ)
      → i < 1024
      → m'.word (frame (m'.word entry) / 4 + i) ≡ m.word (frame (m.word entry) / 4 + i)
  pub moved :
      (j : ℕ)
      → m'.mem_map j + (if j == map_nr (frame (m.word entry)) then 1 else 0)
        ≡ m.mem_map j + (if j == map_nr (frame (m'.word entry)) then 1 else 0)
  pub others : (w : ℕ) → w ≢ entry → w / 1024 ≢ frame (m'.word entry) / 4096 → m'.word w ≡ m.word w

-- The page is used by this entry alone.
alone-IsPrivate :
    (entry : ℕ) (m : Memory)
    → is_present (m.word entry) ≡ true
    → m.mem_map (map_nr (frame (m.word entry))) ≡ 1
    → entry / 1024 ≢ frame (m.word entry) / 4096
    → IsPrivate entry m (store entry (writable (m.word entry)) m)
alone-IsPrivate entry m p one apart =
    let m' = store entry (writable (m.word entry)) m in
    let stored : m'.word entry ≡ writable (m.word entry) = ground arith in
    let same : frame (writable (m.word entry)) ≡ frame (m.word entry) = omega arith in
    record {
      present = ground (arith, p);
      may_write = ground arith;
      alone = rw (stored, same) one;
      same_page = λ i q. rw (stored, same) (ground (arith, apart, q));
      moved = λ j. rw (stored, same) refl;
      others = λ w q q'. ground (arith, q);
    }

-- The state with the new page `nr` in the place of the old one, which has `n` uses left.
abbrev copied_to : ℕ → ℕ → ℕ → Memory → Memory
copied_to entry nr n m =
    let old = frame (m.word entry) in
    let new = low_mem + nr * 4096 in
    store entry (user_page new) (copy_page old new (set_map (map_nr old) n (take_frame nr m)))

copied_word :
    (entry nr i n : ℕ) (m : Memory)
    → low_mem ≤ frame (m.word entry)
    → nr ≢ map_nr (frame (m.word entry))
    → entry / 1024 ≢ (low_mem + nr * 4096) / 4096
    → i < 1024
    → (copied_to entry nr n m).word ((low_mem + nr * 4096) / 4 + i)
      ≡ m.word (frame (m.word entry) / 4 + i)
copied_word entry nr i n m high other away q =
    let w = (low_mem + nr * 4096) / 4 + i in
    let page : w / 1024 ≡ nr + 256 = omega (arith, q) in
    let index : w % 1024 ≡ i = omega (arith, q) in
    let v = frame (m.word entry) / 4 + i in
    let from : v / 1024 ≡ frame (m.word entry) / 4096 = omega (arith, q) in
    let clear : v / 1024 ≢ nr + 256 = λ e. other (omega (arith, e, from, high)) in
    let there : w ≢ entry = λ e. away (omega (arith, page, e)) in
    ground (arith, page, index, clear, there)

copied-IsPrivate :
    (entry nr : ℕ) (m : Memory)
    → let c = m.mem_map (map_nr (frame (m.word entry))) in
      low_mem ≤ frame (m.word entry)
      → c ≢ 0
      → c < 256
      → m.mem_map nr ≡ 0
      → nr ≢ map_nr (frame (m.word entry))
      → entry / 1024 ≢ (low_mem + nr * 4096) / 4096
      → IsPrivate entry m (copied_to entry nr ((c + 255) % 256) m)
copied-IsPrivate entry nr m high u small free other away =
    let c = m.mem_map (map_nr (frame (m.word entry))) in
    let new = low_mem + nr * 4096 in
    let m' = copied_to entry nr ((c + 255) % 256) m in
    let stored : m'.word entry ≡ new + 7 = ground arith in
    let same : frame (new + 7) ≡ new = omega arith in
    let place : map_nr new ≡ nr = omega arith in
    record {
      present = rw stored (ground arith);
      may_write = rw stored (omega arith);
      alone = rw (stored, same, place) (ground (arith, other));
      same_page =
          λ i q. rw (stored, same) (copied_word entry nr i ((c + 255) % 256) m high other away q);
      moved = λ j. rw (stored, same, place) (ground (arith, other, u, small, free));
      others = λ w q q'.
          let q'' : w / 1024 ≢ new / 4096 = λ e. q' (rw (stored, same) e) in ground (arith, q, q'');
    }

same_count : (nr k : ℕ) (m : Memory) → nr ≢ k → (take_frame nr m).mem_map k ≡ m.mem_map k
same_count nr k m h = ground (arith, h)

un_wp_page_alone :
    (f entry : ℕ) (m : Memory)
    → low_mem ≤ frame (m.word entry)
    → m.mem_map (map_nr (frame (m.word entry))) ≡ 1
    → un_wp_page f entry m ≡ Outcome.done (store entry (writable (m.word entry)) m)
unfolding un_wp_page
un_wp_page_alone f entry m high one = ground (arith, high, one)

un_wp_page_shared :
    (f entry new : ℕ) (m m' : Memory)
    → let old = frame (m.word entry) in
      let n = (m'.mem_map (map_nr old) + 255) % 256 in
      low_mem ≤ old
      → m.mem_map (map_nr old) ≢ 1
      → get_free_page f m ≡ Outcome.done (new, m')
      → new ≢ 0
      → un_wp_page f entry m
        ≡ Outcome.done (store entry (user_page new) (copy_page old new (set_map (map_nr old) n m')))
unfolding un_wp_page
un_wp_page_shared f entry new m m' high more e z = ground (arith, high, more, e, z)

-- The fault is at an entry for a page in main memory which has between 1 and 255 uses; there is a
-- free frame, every free frame lies in memory, and the entry itself lies neither in the page nor in
-- a free frame. Then the entry gets a page that nothing else uses, with the contents of the old one,
-- and may be written to: the old page itself if it was alone, or a new one. The old page loses one
-- use, and no other word of memory outside the new page changes.
pub un_wp_page-IsPrivate :
    (f k entry : ℕ) (m : Memory)
    → is_present (m.word entry) ≡ true
    → low_mem ≤ frame (m.word entry)
    → m.mem_map (map_nr (frame (m.word entry))) ≢ 0
    → m.mem_map (map_nr (frame (m.word entry))) < 256
    → k < paging_pages
    → m.mem_map k ≡ 0
    → HasFrames m
    → entry / 1024 ≢ frame (m.word entry) / 4096
    → ((nr : ℕ) → m.mem_map nr ≡ 0 → entry / 1024 ≢ (low_mem + nr * 4096) / 4096)
    → (m' : Memory) × (un_wp_page (suc f) entry m ≡ Outcome.done m') × IsPrivate entry m m'
un_wp_page-IsPrivate f k entry m p high u small l z h apart off =
    let old = frame (m.word entry) in
    let (nr, e, free, inside) = get_free_page_take f k m l z h in
    let other : nr ≢ map_nr old = λ q. u (rw⁻¹ q free) in
    elim (ℕ_discrete (m.mem_map (map_nr old)) 1) [
      | yes one ↦ (
        store entry (writable (m.word entry)) m,
        un_wp_page_alone (suc f) entry m high one,
        alone-IsPrivate entry m p one apart,
      )
      | no more ↦ (
        copied_to entry nr ((m.mem_map (map_nr old) + 255) % 256) m,
        un_wp_page_shared (suc f) entry (low_mem + nr * 4096) m (take_frame nr m) high more e
              (λ q. absurd (omega (arith, q)))
            ∙ ap (λ c. Outcome.done (copied_to entry nr ((c + 255) % 256) m))
                (same_count nr (map_nr old) m other),
        copied-IsPrivate entry nr m high u small free other (off nr free),
      )
    ]
