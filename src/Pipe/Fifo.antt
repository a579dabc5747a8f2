-- ===== src/Pipe/Fifo.antt =====
-- What fs/pipe.c promises: a bounded first-in first-out queue of bytes, with no ring, no copies in
-- stretches and no fuel.
use linux.Common.{
  ℕ, ◌+◌, ◌-◌, ◌^◌, bit_or, Option, none, some, List, [], ◌∷◌, ◌++◌, leb, ◌!=◌, if◌then◌else◌,
  length, take, drop,
}
use linux.Common.Int.{ℤ, pos, negsuc}
use linux.Pipe.{Wake, Signals, signal_pending, Outcome, out_of_fuel, sigpipe, erestartsys}
use linux.Pipe.Ring.{contents}

abbrev pub capacity : ℕ
capacity = 4095

-- An outcome with the bytes in the pipe in place of the ring.
pub data Result : Type 0 where
  returned : (ret : ℤ) → (out queue : List ℕ) → Signals → Result
  asleep : (out queue : List ℕ) → Signals → Result

-- `none` if the fuel ran out.
abbrev pub view : Outcome → Option Result
view (Outcome.returned ret out p s) = some (Result.returned ret out (contents p) s)
view (Outcome.asleep out p s) = some (Result.asleep out (contents p) s)
view out_of_fuel = none

-- One attempt to read `count` bytes. `slept` is what follows if the reader has to sleep.
unfoldable pub read_step :
    Signals → (queue : List ℕ) → (opens count : ℕ) → (out : List ℕ) → Result → Result
read_step s queue opens count out slept =
    let all = out ++ queue in
    if leb count (length queue)
    then Result.returned (pos (length out + count)) (out ++ take count queue) (drop count queue) s
    else (if opens != 2
        then Result.returned (pos (length all)) all [] s
        else (if signal_pending s
            then Result.returned
                (if length all != 0 then pos (length all) else negsuc (erestartsys - 1)) all [] s
            else slept))

unfoldable pub read : List Wake → Signals → List ℕ → ℕ → ℕ → List ℕ → Result
read [] s queue opens count out =
    read_step s queue opens count out (Result.asleep (out ++ queue) [] s)
read (w ∷ ws) s queue opens count out = read_step s queue opens count out (
    read ws (record s { signal = w.signal }) (take capacity w.bytes) w.opens (count - length queue)
      (out ++ queue))

-- One attempt to write `buf`, with `written` bytes written before.
unfoldable pub write_step : Signals → (queue : List ℕ) → ℕ → (buf : List ℕ) → ℕ → Result → Result
write_step s queue opens buf written slept =
    let space = capacity - length queue in
    if leb (length buf) space
    then Result.returned (pos (written + length buf)) [] (queue ++ buf) s
    else (if opens != 2
        then Result.returned (if written + space != 0 then pos (written + space) else negsuc 0)
            (drop space buf) (queue ++ take space buf)
            (record s { signal = bit_or s.signal (2 ^ (sigpipe - 1)) })
        else slept)

unfoldable pub write : List Wake → Signals → List ℕ → ℕ → List ℕ → ℕ → Result
write [] s queue opens buf written =
    let space = capacity - length queue in
    write_step s queue opens buf written
      (Result.asleep (drop space buf) (queue ++ take space buf) s)
write (w ∷ ws) s queue opens buf written =
    let space = capacity - length queue in
    write_step s queue opens buf written (
      write ws (record s { signal = w.signal }) (drop w.taken (queue ++ take space buf)) w.opens
        (drop space buf) (written + space))
