-- ===== src/Pipe/Others.antt =====
-- The rounds of the other side of a pipe, which runs while the caller sleeps: two rounds reach round
-- the ring, so they put in, or take out, all that fits.
use linux.Common.{
  ℕ, zero, suc, ◌+◌, ◌-◌, ◌≤◌, ◌≡◌, refl, ap, sym, ◌∙◌, ◌⊎◌, inl, inr, List, ◌++◌, append-nil,
  append_assoc, arith, ◌==◌, length, take, drop, length-append, length-drop, take-add, take-nil,
  drop-nil, drop-append, nil_of_length, Bool-cases, ==_iff,
}
use linux.Pipe.{
  Pipe, pipe_size, room, chunk_length, read_chunk, write_chunk, writer_runs, reader_runs,
}
use linux.Pipe.Window.{length-window}
use linux.Pipe.Ring.{
  IsValid, contents, chunk_length_bounds, read_chunk-contents, write_chunk-contents, pipe_size-lt,
}

pub length-contents : (p : Pipe) → length (contents p) ≡ pipe_size p
length-contents p = length-window p.page p.tail (pipe_size p)

-- Nothing to write, or no room.
abbrev Idle : Pipe → List ℕ → Type 0
Idle p buf = (length buf ≡ 0) ⊎ (room p ≡ 0)

abbrev pub Filled : Pipe → List ℕ → Pipe → Type 0
Filled p buf p' = (contents p' ≡ contents p ++ take (room p) buf) × IsValid p'

take-Idle : (p : Pipe) (buf : List ℕ) → Idle p buf → contents p ≡ contents p ++ take (room p) buf
take-Idle p buf (inl e) = rw (nil_of_length buf e, take-nil, append-nil)
take-Idle p buf (inr e) = rw (e, append-nil)

writer_runs-Idle : (n : ℕ) {p : Pipe} (buf : List ℕ) → Idle p buf → writer_runs n p buf ≡ p
unfolding writer_runs
writer_runs-Idle zero buf idle = refl
writer_runs-Idle (suc n) buf idle = ground arith

Filled-Idle :
    (n : ℕ) {p : Pipe} (buf : List ℕ) → IsValid p → Idle p buf → Filled p buf (writer_runs n p buf)
Filled-Idle n {p} buf v idle = rw (writer_runs-Idle n buf idle) (take-Idle p buf idle, v)

joined :
    (q buf : List ℕ) (c r r' : ℕ)
    → r ≡ c + r'
    → (q ++ take c buf) ++ take r' (drop c buf) ≡ q ++ take r buf
joined q buf c r r' e = rw (e, take-add) (append_assoc q (take c buf) (take r' (drop c buf)))

-- A copy stops at the page's end, at the end of what is wanted, or at the size.
chunk_length-cases :
    (start count size : ℕ)
    → (chunk_length start count size ≡ count)
      ⊎ ((chunk_length start count size ≡ size) ⊎ (chunk_length start count size ≡ 4096 - start))
unfolding chunk_length
chunk_length-cases start count size = ground arith

-- One more round, if what follows it fills the pipe.
Filled-suc :
    (n : ℕ) {p : Pipe} (buf : List ℕ)
    → IsValid p
    → (let (p', rest) = write_chunk p buf in Filled p' rest (writer_runs n p' rest))
    → Filled p buf (writer_runs (suc n) p buf)
unfolding writer_runs
Filled-suc n {p} buf v (next, v') = elim (Bool-cases (length buf == 0)) [
  | inl e ↦ rw e (take-Idle p buf (inl (ground arith)), v)
  | inr more ↦ elim (Bool-cases (room p == 0)) [
    | inl e ↦ rw (more, e) (take-Idle p buf (inr (ground arith)), v)
    | inr open_ ↦
        let (put, rest_lem, left, opens, at, v1) = write_chunk-contents v buf in
        rw (more, open_) (next ∙ rw (put, rest_lem) (joined (contents p) buf _ _ _ left), v')
  ]
]

room-le : (p : Pipe) → room p ≤ 4095
unfolding room
room-le p = omega arith

-- A round that ends at the page's end, or at which nothing is left.
Filled-last :
    {p : Pipe} (buf : List ℕ) → IsValid p → p.head ≡ 0 → Filled p buf (writer_runs 1 p buf)
Filled-last {p} buf v start =
    let (put, rest_lem, left, opens, at, v1) = write_chunk-contents v buf in
    let small : room p ≤ 4095 = room-le p in
    Filled-suc 0 buf v (
      Filled-Idle 0 _ v1 (elim (chunk_length-cases p.head (length buf) (room p)) [
        | inl e ↦ inl (
            rw rest_lem
              (omega (arith, length-drop (chunk_length p.head (length buf) (room p)) buf)))
        | inr (inl e) ↦ inr (omega arith)
        | inr (inr e) ↦ absurd (omega (arith, chunk_length_bounds p.head (length buf) (room p)))
      ]))

pub writer_runs-Filled : {p : Pipe} (buf : List ℕ) → IsValid p → Filled p buf (writer_runs 2 p buf)
writer_runs-Filled {p} buf v =
    let (put, rest_lem, left, opens, at, v1) = write_chunk-contents v buf in
    let idle = Filled-Idle 1 (write_chunk p buf).1 v1 in
    Filled-suc 1 buf v (elim (chunk_length-cases p.head (length buf) (room p)) [
      | inl e ↦ idle (
          inl (
            rw rest_lem
              (omega (arith, length-drop (chunk_length p.head (length buf) (room p)) buf))))
      | inr (inl e) ↦ idle (inr (omega arith))
      | inr (inr e) ↦ Filled-last (write_chunk p buf).1 v1 (omega (arith, v.head_in))
    ])

abbrev pub Drained : Pipe → ℕ → Pipe → Type 0
Drained p count p' = (contents p' ≡ drop count (contents p)) × IsValid p'

reader_runs-idle :
    (n : ℕ) {p : Pipe} (count : ℕ) → (count ≡ 0) ⊎ (pipe_size p ≡ 0) → reader_runs n p count ≡ p
unfolding reader_runs
reader_runs-idle zero count idle = refl
reader_runs-idle (suc n) count idle = ground arith

Drained-idle :
    (n : ℕ) {p : Pipe} (count : ℕ)
    → IsValid p
    → (count ≡ 0) ⊎ (pipe_size p ≡ 0)
    → Drained p count (reader_runs n p count)
Drained-idle n {p} count v (inl e) = rw (reader_runs-idle n count (inl e)) (rw e refl, v)
Drained-idle n {p} count v (inr e) =
    rw (reader_runs-idle n {p = p} count (inr e))
      (rw (nil_of_length (contents p) (length-contents p ∙ e), drop-nil), v)

Drained-suc :
    (n : ℕ) {p : Pipe} (count : ℕ)
    → IsValid p
    → (let (out, p') = read_chunk p count in
        Drained p' (count - length out) (reader_runs n p' (count - length out)))
    → Drained p count (reader_runs (suc n) p count)
unfolding reader_runs
Drained-suc n {p} count v (next, v') = elim (Bool-cases (count == 0)) [
  | inl e ↦ rw e (let z : count ≡ 0 = ground arith in rw z refl, v)
  | inr more ↦ elim (Bool-cases (pipe_size p == 0)) [
    | inl e ↦
        rw (more, e)
          (rw (nil_of_length (contents p) (length-contents p ∙ (==_iff _ _).0 e), drop-nil), v)
    | inr some_ ↦
        let (split, size, opens, at, v1) = read_chunk-contents v count in
        rw (more, some_)
          (
            next
                ∙ sym (
                    rw split (
                      drop-append count _ _
                        (omega (arith, chunk_length_bounds p.tail count (pipe_size p))))),
            v',
          )
  ]
]

rest_empty :
    {p : Pipe} (v : IsValid p) (count : ℕ)
    → chunk_length p.tail count (pipe_size p) ≡ pipe_size p
    → pipe_size (read_chunk p count).1 ≡ 0
rest_empty {p} v count e =
    let (split, size, opens, at, v1) = read_chunk-contents v count in
    let p' = (read_chunk p count).1 in
    omega (
      arith,
      ap length split,
      length-append (read_chunk p count).0 (contents p'),
      length-contents p,
      length-contents p',
    )

Drained-last :
    {p : Pipe} (count : ℕ) → IsValid p → p.tail ≡ 0 → Drained p count (reader_runs 1 p count)
Drained-last {p} count v start =
    let (split, size, opens, at, v1) = read_chunk-contents v count in
    Drained-suc 0 count v (
      Drained-idle 0 _ v1 (elim (chunk_length-cases p.tail count (pipe_size p)) [
        | inl e ↦ inl (omega arith)
        | inr (inl e) ↦ inr (rest_empty v count e)
        | inr (inr e) ↦
            absurd (omega (arith, chunk_length_bounds p.tail count (pipe_size p), pipe_size-lt v))
      ]))

pub reader_runs-Drained :
    {p : Pipe} (count : ℕ) → IsValid p → Drained p count (reader_runs 2 p count)
reader_runs-Drained {p} count v =
    let (split, size, opens, at, v1) = read_chunk-contents v count in
    let idle = Drained-idle 1 (count - length (read_chunk p count).0) v1 in
    Drained-suc 1 count v (elim (chunk_length-cases p.tail count (pipe_size p)) [
      | inl e ↦ idle (inl (omega arith))
      | inr (inl e) ↦ idle (inr (rest_empty v count e))
      | inr (inr e) ↦ Drained-last _ v1 (omega (arith, v.tail_in))
    ])
