-- ===== src/Pipe/Read.antt =====
-- `read_pipe` against the queue of bytes.
use linux.Common.{
  ℕ, zero, suc, ◌+◌, ◌-◌, ◌≤◌, ◌<◌, ◌≡◌, refl, ap, ◌≢◌, sym, ◌∙◌, inl, inr, some, List, [], ◌∷◌,
  ◌++◌, append-nil, append_assoc, arith, leb, ◌==◌, ◌!=◌, length, take, length-append, take-append,
  drop-append, nil_of_length, Bool-cases, ==_iff,
}
use linux.Pipe.{
  Pipe, Queue, Wake, Signals, pipe_size, room, wake_up, write_wait, read_chunk, after_writer,
  read_loop, read_pipe,
}
use linux.Common.Int.{pos}
use linux.Pipe.Ring.{IsValid, contents, chunk_length_bounds, read_chunk-contents}
use linux.Pipe.Others.{length-contents, writer_runs-Filled}
use linux.Pipe.Fifo
use linux.Pipe.Fifo.{view, read_step, capacity}

-- The bytes and the validity do not depend on the queues of sleeping tasks.
pub contents-wake_up : (q : Queue) (p : Pipe) → contents (wake_up q p) ≡ contents p
unfolding wake_up pipe_size
contents-wake_up q p = refl

pub wake_up-IsValid : (q : Queue) {p : Pipe} → IsValid p → IsValid (wake_up q p)
unfolding wake_up
wake_up-IsValid q v = record { whole = v.whole; head_in = v.head_in; tail_in = v.tail_in }

pub after_writer-Filled :
    {p : Pipe} (w : Wake)
    → IsValid p
    → (contents (after_writer p w) ≡ contents p ++ take (room p) w.bytes)
      × IsValid (after_writer p w)
unfolding after_writer pipe_size
after_writer-Filled {p} w v =
    let (filled, v') = writer_runs-Filled w.bytes v in
    (filled, record { whole = v'.whole; head_in = v'.head_in; tail_in = v'.tail_in })

room_of_empty : (p : Pipe) → pipe_size p ≡ 0 → room (wake_up write_wait p) ≡ capacity
unfolding room wake_up pipe_size
room_of_empty p e = omega arith

-- A writer that runs while the reader sleeps on an empty pipe.
after_writer-empty :
    {p : Pipe} (w : Wake)
    → IsValid p
    → pipe_size p ≡ 0
    → let p' = after_writer (wake_up write_wait p) w in
      (contents p' ≡ take capacity w.bytes) × (p'.i_count ≡ w.opens) × IsValid p'
unfolding after_writer wake_up pipe_size
after_writer-empty {p} w v none_ =
    let p1 = wake_up write_wait p in
    let (filled, v') = after_writer-Filled w (wake_up-IsValid write_wait v) in
    let nothing : contents p1 ≡ [] = nil_of_length (contents p) (length-contents p ∙ none_) in
    let space : room p1 ≡ capacity = room_of_empty p none_ in
    (filled ∙ rw (nothing, space) refl, refl, v')

leb_shift : (a b c : ℕ) → b ≤ a → leb a (b + c) ≡ leb (a - b) c
leb_shift a b c h = ground arith

-- The queue does not care in how many copies its bytes are taken.
read_step-append :
    (s : Signals) (bytes queue : List ℕ) (opens count : ℕ) (out : List ℕ) (slept : Fifo.Result)
    → length bytes ≤ count
    → read_step s (bytes ++ queue) opens count out slept
      ≡ read_step s queue opens (count - length bytes) (out ++ bytes) slept
unfolding read_step
read_step-append s bytes queue opens count out slept h =
    let total : length out + count ≡ length (out ++ bytes) + (count - length bytes) =
      omega (arith, length-append out bytes) in
    rw
      (
        length-append bytes queue,
        leb_shift count (length bytes) (length queue) h,
        take-append count bytes queue h,
        drop-append count bytes queue h,
        total,
        ← append_assoc out bytes queue,
        ← append_assoc out bytes (take (count - length bytes) queue),
      )
      refl

read-append :
    (wakes : List Wake) (s : Signals) (bytes queue : List ℕ) (opens count : ℕ) (out : List ℕ)
    → length bytes ≤ count
    → Fifo.read wakes s (bytes ++ queue) opens count out
      ≡ Fifo.read wakes s queue opens (count - length bytes) (out ++ bytes)
unfolding Fifo.read
read-append [] s bytes queue opens count out h =
    read_step-append s bytes queue opens count out _ h ∙ rw (append_assoc out bytes queue) refl
read-append (w ∷ ws) s bytes queue opens count out h =
    let less : count - length (bytes ++ queue) ≡ count - length bytes - length queue =
      omega (arith, length-append bytes queue) in
    read_step-append s bytes queue opens count out _ h
    ∙ rw (append_assoc out bytes queue, less) refl

read-zero :
    (wakes : List Wake) (s : Signals) (queue : List ℕ) (opens : ℕ) (out : List ℕ)
    → Fifo.read wakes s queue opens 0 out ≡ Fifo.Result.returned (pos (length out)) out queue s
unfolding Fifo.read read_step
read-zero [] s queue opens out = ground (arith, append-nil out)
read-zero (w ∷ ws) s queue opens out = ground (arith, append-nil out)

-- On an empty pipe `read_pipe` returns, fails or sleeps as the queue does.
module _ (f : ℕ) (s : Signals) (p : Pipe) (count : ℕ) (out : List ℕ) where
  read_loop-empty :
      (wakes : List Wake)
      → count ≢ 0
      → pipe_size p ≡ 0
      → ((w : Wake) (ws : List Wake)
          → length ws < length wakes
          → let s' = record s { signal = w.signal } in
            view (read_loop f ws s' (after_writer (wake_up write_wait p) w) count out)
            ≡ some (Fifo.read ws s' (take capacity w.bytes) w.opens count out))
      → view (read_loop (suc f) wakes s p count out)
        ≡ some (Fifo.read wakes s [] p.i_count count out)
  unfolding read_loop Fifo.read read_step wake_up pipe_size
  read_loop-empty [] some_ none_ ih = ground (arith, append-nil out)
  read_loop-empty (w ∷ ws) some_ none_ ih = ground (arith, append-nil out, ih w ws)

-- With a round of fuel for each byte and each sleep, `read_pipe` does what the queue does.
read_loop-refines :
    (f : ℕ) (wakes : List Wake) (s : Signals) {p : Pipe} (count : ℕ) (out : List ℕ)
    → IsValid p
    → count + length wakes < f
    → view (read_loop f wakes s p count out)
      ≡ some (Fifo.read wakes s (contents p) p.i_count count out)
unfolding read_loop
read_loop-refines zero wakes s count out v fuel = absurd (omega arith)
read_loop-refines (suc f) wakes s {p} count out v fuel = elim (Bool-cases (count == 0)) [
  | inl e ↦ let z : count ≡ 0 = (==_iff count 0).0 e in rw (e, z, read-zero, contents-wake_up) refl
  | inr more ↦ elim (Bool-cases (pipe_size p != 0)) [
    | inl full ↦
        let (split, size, opens, at, v') = read_chunk-contents v count in
        let bytes = (read_chunk p count).0 in
        let p' = (read_chunk p count).1 in
        let bounds = chunk_length_bounds p.tail count (pipe_size p) in
        rw (more, full)
          (read_loop-refines f wakes s (count - length bytes) (out ++ bytes) v' (ground arith)
            ∙ ap some (
                rw (opens, split)
                  (sym
                    (read-append wakes s bytes (contents p') p.i_count count out (omega arith)))))
    | inr empty ↦
        let none_ : pipe_size p ≡ 0 = ground arith in
        let nothing = nil_of_length (contents p) (length-contents p ∙ none_) in
        rw nothing (
          read_loop-empty f s p count out wakes (ground arith) none_ (λ w ws l.
            let (bytes, opens, v') = after_writer-empty w v none_ in
            read_loop-refines f ws (record s { signal = w.signal }) count out v' (omega arith)
            ∙ rw (bytes, opens) refl))
  ]
]

-- On a valid ring, with more fuel than bytes asked for and sleeps together, `read_pipe` ends, and
-- its return value, the bytes read, the bytes left in the pipe and the signals are those of
-- `Fifo.read` on the bytes that the ring holds, whatever the writer does while the reader sleeps.
pub read_pipe-refines :
    (fuel : ℕ) (wakes : List Wake) (s : Signals) {p : Pipe} (count : ℕ)
    → IsValid p
    → count + length wakes < fuel
    → view (read_pipe fuel wakes s p count)
      ≡ some (Fifo.read wakes s (contents p) p.i_count count [])
unfolding read_pipe
read_pipe-refines fuel wakes s count v enough = read_loop-refines fuel wakes s count [] v enough
