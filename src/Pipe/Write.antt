-- ===== src/Pipe/Write.antt =====
-- `write_pipe` against the queue of bytes.
use linux.Common.{
  ℕ, zero, suc, ◌+◌, ◌-◌, ◌≤◌, ◌<◌, ◌≡◌, ◌≢◌, refl, ap, sym, ◌∙◌, inl, inr, some, List, [], ◌∷◌,
  ◌++◌, append-nil, append_assoc, arith, leb, ◌==◌, ◌!=◌, length, take, drop, length-append,
  length-take, length-drop, drop-drop, take-add, take-append-drop, nil_of_length, Bool-cases,
  ==_iff,
}
use linux.Common.Int.{pos}
use linux.Pipe.{
  Pipe, Wake, Signals, pipe_size, room, wake_up, read_wait, chunk_length, after_reader, write_loop,
  write_pipe,
}
use linux.Pipe.Ring.{IsValid, contents, chunk_length_bounds, write_chunk-contents, pipe_size-lt}
use linux.Pipe.Others.{length-contents, reader_runs-Drained}
use linux.Pipe.Read.{wake_up-IsValid, contents-wake_up}
use linux.Pipe.Fifo
use linux.Pipe.Fifo.{view, write_step, capacity}

-- A reader that runs while the writer sleeps on a full pipe.
after_reader-drop :
    {p : Pipe} (w : Wake)
    → IsValid p
    → let p' = after_reader (wake_up read_wait p) w in
      (contents p' ≡ drop w.taken (contents p)) × (p'.i_count ≡ w.opens) × IsValid p'
unfolding after_reader wake_up pipe_size
after_reader-drop {p} w v =
    let (drained, v') = reader_runs-Drained w.taken (wake_up-IsValid read_wait v) in
    (drained, refl, record { whole = v'.whole; head_in = v'.head_in; tail_in = v'.tail_in })

-- The queue does not care in how many copies its bytes come. `c` of them come first.
record Copied (queue : List ℕ) (c : ℕ) (buf : List ℕ) : Type 0 where
  enough : c ≤ length buf
  fits : length queue + c ≤ capacity

module _ {queue : List ℕ} {c : ℕ} {buf : List ℕ} (h : Copied queue c buf) where
  space-left : c + (capacity - length (queue ++ take c buf)) ≡ capacity - length queue
  space-left = omega (arith, length-append queue (take c buf), length-take c buf)

  drop-left :
      drop (capacity - length (queue ++ take c buf)) (drop c buf)
      ≡ drop (capacity - length queue) buf
  drop-left = rw drop-drop (ap (λ n. drop n buf) space-left)

  take-left :
      (queue ++ take c buf) ++ take (capacity - length (queue ++ take c buf)) (drop c buf)
      ≡ queue ++ take (capacity - length queue) buf
  take-left =
      append_assoc queue (take c buf) (take (capacity - length (queue ++ take c buf)) (drop c buf))
      ∙ ap (λ r. queue ++ r)
          (sym (take-add c (capacity - length (queue ++ take c buf)) buf)
            ∙ ap (λ n. take n buf) space-left)

  whole-left : (queue ++ take c buf) ++ drop c buf ≡ queue ++ buf
  whole-left =
      append_assoc queue (take c buf) (drop c buf) ∙ ap (λ r. queue ++ r) (take-append-drop c buf)

  fits-left :
      leb (length (drop c buf)) (capacity - length (queue ++ take c buf))
      ≡ leb (length buf) (capacity - length queue)
  fits-left = ground (
    arith,
    h.enough,
    h.fits,
    length-append queue (take c buf),
    length-take c buf,
    length-drop c buf,
  )

  write_step-append :
      (s : Signals) (opens written : ℕ) (slept : Fifo.Result)
      → write_step s (queue ++ take c buf) opens (drop c buf) (written + c) slept
        ≡ write_step s queue opens buf written slept
  unfolding write_step
  write_step-append s opens written slept =
      let total : written + c + length (drop c buf) ≡ written + length buf =
        omega (arith, length-drop c buf) in
      let partial : written + c + (capacity - length (queue ++ take c buf))
          ≡ written + (capacity - length queue) =
        omega (arith, space-left) in
      rw (fits-left, drop-left, take-left, whole-left, total, partial) refl

  write-append :
      (wakes : List Wake) (s : Signals) (opens written : ℕ)
      → Fifo.write wakes s (queue ++ take c buf) opens (drop c buf) (written + c)
        ≡ Fifo.write wakes s queue opens buf written
  unfolding Fifo.write
  write-append [] s opens written = rw (drop-left, take-left) (write_step-append s opens written _)
  write-append (w ∷ ws) s opens written =
      let partial : written + c + (capacity - length (queue ++ take c buf))
          ≡ written + (capacity - length queue) =
        omega (arith, space-left) in
      rw (drop-left, take-left, partial) (write_step-append s opens written _)

write-nil :
    (wakes : List Wake) (s : Signals) (queue : List ℕ) (opens written : ℕ)
    → Fifo.write wakes s queue opens [] written ≡ Fifo.Result.returned (pos written) [] queue s
unfolding Fifo.write write_step
write-nil [] s queue opens written = ground (arith, append-nil queue)
write-nil (w ∷ ws) s queue opens written = ground (arith, append-nil queue)

-- On a full pipe `write_pipe` fails or sleeps as the queue does.
module _ (f : ℕ) (s : Signals) (p : Pipe) (buf : List ℕ) (written : ℕ) where
  write_loop-full :
      (wakes : List Wake)
      → length buf ≢ 0
      → room p ≡ 0
      → length (contents p) ≡ capacity
      → ((w : Wake) (ws : List Wake)
          → length ws < length wakes
          → let s' = record s { signal = w.signal } in
            view (write_loop f ws s' (after_reader (wake_up read_wait p) w) buf written)
            ≡ some (Fifo.write ws s' (drop w.taken (contents p)) w.opens buf written))
      → view (write_loop (suc f) wakes s p buf written)
        ≡ some (Fifo.write wakes s (contents p) p.i_count buf written)
  unfolding write_loop Fifo.write write_step wake_up pipe_size
  write_loop-full [] some_ none_ full ih = rw full (ground (arith, append-nil (contents p)))
  write_loop-full (w ∷ ws) some_ none_ full ih =
      let same : written + 0 ≡ written = omega arith in
      rw (full, same, append-nil (contents p)) (ground (arith, ih w ws (omega arith)))

room_lem : (p : Pipe) → room p ≡ capacity - pipe_size p
unfolding room
room_lem p = refl

write_loop-refines :
    (f : ℕ) (wakes : List Wake) (s : Signals) {p : Pipe} (buf : List ℕ) (written : ℕ)
    → IsValid p
    → length buf + length wakes < f
    → view (write_loop f wakes s p buf written)
      ≡ some (Fifo.write wakes s (contents p) p.i_count buf written)
unfolding write_loop
write_loop-refines zero wakes s buf written v fuel = absurd (omega arith)
write_loop-refines (suc f) wakes s {p} buf written v fuel = elim (Bool-cases (length buf == 0)) [
  | inl e ↦
      let z : buf ≡ [] = nil_of_length buf ((==_iff (length buf) 0).0 e) in
      rw (e, z, write-nil, contents-wake_up) refl
  | inr more ↦ elim (Bool-cases (room p != 0)) [
    | inl open_ ↦
        let (put, rest_lem, left, opens, at, v') = write_chunk-contents v buf in
        let c = chunk_length p.head (length buf) (room p) in
        let bounds = chunk_length_bounds p.head (length buf) (room p) in
        let h : Copied (contents p) c buf = record {
          enough = bounds.1;
          fits = omega (arith, length-contents p, room_lem p, pipe_size-lt v);
        } in
        let count : length buf - length (drop c buf) ≡ c = omega (arith, length-drop c buf) in
        rw (more, open_, rest_lem, count)
          (write_loop-refines f wakes s (drop c buf) (written + c) v'
              (ground (arith, length-drop c buf))
            ∙ ap some (rw (opens, put) (write-append h wakes s p.i_count written)))
    | inr full ↦
        let none_ : room p ≡ 0 = ground arith in
        write_loop-full f s p buf written wakes (ground arith) none_
          (omega (arith, length-contents p, room_lem p, pipe_size-lt v))
          (λ w ws l.
            let (bytes, opens, v') = after_reader-drop w v in
            write_loop-refines f ws (record s { signal = w.signal }) buf written v' (omega arith)
            ∙ rw (bytes, opens) refl)
  ]
]

-- On a valid ring, with more fuel than bytes to write and sleeps together, `write_pipe` ends, and
-- its return value, the bytes not written, the bytes in the pipe and the signals are those of
-- `Fifo.write` on the bytes that the ring holds, whatever the reader does while the writer sleeps.
pub write_pipe-refines :
    (fuel : ℕ) (wakes : List Wake) (s : Signals) {p : Pipe} (buf : List ℕ)
    → IsValid p
    → length buf + length wakes < fuel
    → view (write_pipe fuel wakes s p buf) ≡ some (Fifo.write wakes s (contents p) p.i_count buf 0)
unfolding write_pipe
write_pipe-refines fuel wakes s buf v enough = write_loop-refines fuel wakes s buf 0 v enough
