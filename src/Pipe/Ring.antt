-- ===== src/Pipe/Ring.antt =====
-- The ring of fs/pipe.c: the bytes it holds, and one copy in and out.
use linux.Common.{
  ℕ, ◌+◌, ◌-◌, ◌%◌, ◌^◌, ◌≤◌, ◌<◌, ◌≡◌, refl, ap, sym, ◌∙◌, List, ◌++◌, arith, length, take, drop,
  length-take, length-drop,
}
use linux.Pipe.Window.{window, window-split, window-write_bytes, length-write_bytes}
use linux.Pipe.{Pipe, pipe_size, room, chunk_length, read_chunk, write_bytes, write_chunk}

-- The page is whole and both offsets lie in it.
pub record IsValid (p : Pipe) : Type 0 where
  pub whole : length p.page ≡ 4096
  pub head_in : p.head < 4096
  pub tail_in : p.tail < 4096

-- The bytes in the pipe, the oldest first.
abbrev pub contents : Pipe → List ℕ
contents p = window p.page p.tail (pipe_size p)

-- A copy is not empty, and stays within the page, the count and the size.
pub chunk_length_bounds :
    (start count size : ℕ)
    → (chunk_length start count size ≤ 4096 - start)
      × (chunk_length start count size ≤ count)
      × (chunk_length start count size ≤ size)
      × (start < 4096 → 0 < count → 0 < size → 0 < chunk_length start count size)
unfolding chunk_length
chunk_length_bounds start count size = ground arith

shrink :
    (h t c : ℕ)
    → h < 4096
    → t < 4096
    → c ≤ (2 ^ 32 + h - t) % 4096
    → (2 ^ 32 + h - t) % 4096 ≡ c + (2 ^ 32 + h - (t + c) % 4096) % 4096
shrink h t c p q r = omega arith

grow :
    (h t c : ℕ)
    → h < 4096
    → t < 4096
    → c ≤ 4095 - (2 ^ 32 + h - t) % 4096
    → (2 ^ 32 + (h + c) % 4096 - t) % 4096 ≡ (2 ^ 32 + h - t) % 4096 + c
grow h t c p q r = omega arith

head-window : (h t : ℕ) → h < 4096 → t < 4096 → h ≡ (t + (2 ^ 32 + h - t) % 4096) % 4096
head-window h t p q = omega arith

module _ {p : Pipe} (v : IsValid p) where
  pub pipe_size-lt : pipe_size p < 4096
  unfolding pipe_size
  pipe_size-lt = omega arith

  -- A copy out of the pipe takes its oldest bytes: what it holds is these and then what is left.
  pub read_chunk-contents :
      (count : ℕ)
      → let (out, p') = read_chunk p count in
        (contents p ≡ out ++ contents p')
        × (length out ≡ chunk_length p.tail count (pipe_size p))
        × (p'.i_count ≡ p.i_count)
        × (p'.tail ≡ (p.tail + length out) % 4096)
        × IsValid p'
  unfolding read_chunk pipe_size
  read_chunk-contents count =
      let c = chunk_length p.tail count (pipe_size p) in
      let bounds = chunk_length_bounds p.tail count (pipe_size p) in
      let left : pipe_size p ≡ c + pipe_size (read_chunk p count).1 =
        shrink p.head p.tail c v.head_in v.tail_in bounds.2 in
      let taken : length (take c (drop p.tail p.page)) ≡ c =
        omega (arith, length-take c (drop p.tail p.page), length-drop p.tail p.page) in
      (
        ap (window p.page p.tail) left
            ∙ window-split p.page p.tail c _ v.whole v.tail_in (omega arith),
        taken,
        refl,
        ap (λ k. (p.tail + k) % 4096) (sym taken),
        record { whole = v.whole; head_in = v.head_in; tail_in = omega arith },
      )

  -- A copy into the pipe puts the first bytes behind what it holds.
  pub write_chunk-contents :
      (buf : List ℕ)
      → let (p', rest) = write_chunk p buf in
        let c = chunk_length p.head (length buf) (room p) in
        (contents p' ≡ contents p ++ take c buf)
        × (rest ≡ drop c buf)
        × (room p ≡ c + room p')
        × (p'.i_count ≡ p.i_count)
        × (p'.head ≡ (p.head + c) % 4096)
        × IsValid p'
  unfolding write_chunk pipe_size room
  write_chunk-contents buf =
      let c = chunk_length p.head (length buf) (room p) in
      let bounds = chunk_length_bounds p.head (length buf) (room p) in
      let count : length (take c buf) ≡ c = omega (arith, length-take c buf) in
      let grown = grow p.head p.tail c v.head_in v.tail_in bounds.2 in
      let left : pipe_size (write_chunk p buf).0 ≡ pipe_size p + length (take c buf) =
        grown ∙ ap (λ k. pipe_size p + k) (sym count) in
      let at : p.head ≡ (p.tail + pipe_size p) % 4096 =
        head-window p.head p.tail v.head_in v.tail_in in
      (
        ap (window (write_bytes p.page p.head (take c buf)) p.tail) left
            ∙ window-write_bytes p.page p.tail (pipe_size p) p.head (take c buf) at v.whole
                v.tail_in (omega arith) (omega arith),
        refl,
        omega (arith, grown),
        refl,
        refl,
        record {
          whole = omega (arith, length-write_bytes p.page p.head (take c buf));
          head_in = omega arith;
          tail_in = v.tail_in;
        },
      )
