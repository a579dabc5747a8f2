-- ===== src/Pipe/Tests.antt =====
-- The theorems about fs/pipe.c at concrete inputs, and runs of its functions.
use linux.Common.{◌≡◌, refl, some, [], ◌∷◌, ◌++◌, arith, length, replicate}
use linux.Common.Int.{pos}
use linux.Pipe.{Pipe, Wake, Signals, signal_pending, read_pipe, write_pipe}
use linux.Pipe.Ring.{IsValid, contents}
use linux.Pipe.Fifo
use linux.Pipe.Fifo.{view, read_step, write_step}
use linux.Pipe.Read.{read_pipe-refines}
use linux.Pipe.Write.{write_pipe-refines}

abbrev quiet : Signals
quiet = record { signal = 0; blocked = 0 }

-- Three bytes round the end of the page.
abbrev wrapped : Pipe
wrapped = record {
  page = 7 ∷ replicate 4093 0 ++ 5 ∷ 6 ∷ [];
  head = 1;
  tail = 4094;
  i_count = 2;
  woken = [];
}

page_length : length wrapped.page ≡ 4096
page_length = refl

wrapped-IsValid : IsValid wrapped
wrapped-IsValid = record { whole = page_length; head_in = omega arith; tail_in = omega arith }

-- A writer that puts in two bytes and closes its end.
abbrev writer_closes : Wake
writer_closes = record { bytes = 8 ∷ 9 ∷ []; taken = 0; opens = 1; signal = 0 }

abbrev reader_closes : Wake
reader_closes = record { bytes = []; taken = 1; opens = 1; signal = 0 }

-- The reader that wants 10 bytes gets the 3 that are there and the 2 that come.
read_runs :
    Fifo.read (writer_closes ∷ []) quiet (5 ∷ 6 ∷ 7 ∷ []) 2 10 []
    ≡ Fifo.Result.returned (pos 5) (5 ∷ 6 ∷ 7 ∷ 8 ∷ 9 ∷ []) [] quiet
unfolding Fifo.read read_step signal_pending
read_runs = refl

read_pipe-refines_example :
    view (read_pipe 12 (writer_closes ∷ []) quiet wrapped 10)
    ≡ some (Fifo.read (writer_closes ∷ []) quiet (contents wrapped) 2 10 [])
read_pipe-refines_example =
    read_pipe-refines 12 (writer_closes ∷ []) quiet 10 wrapped-IsValid (omega arith)

write_pipe-refines_example :
    view (write_pipe 9 (reader_closes ∷ []) quiet wrapped (1 ∷ 2 ∷ []))
    ≡ some (Fifo.write (reader_closes ∷ []) quiet (contents wrapped) 2 (1 ∷ 2 ∷ []) 0)
write_pipe-refines_example =
    write_pipe-refines 9 (reader_closes ∷ []) quiet (1 ∷ 2 ∷ []) wrapped-IsValid (omega arith)
