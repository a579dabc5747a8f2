-- ===== src/Pipe.antt =====
-- fs/pipe.c: a page used as a ring of bytes between a reader and a writer. While the caller sleeps
-- the other side runs; what it does meanwhile is the next entry of a list that the calls are given.
pub mod Window
pub mod Ring
pub mod Others
pub mod Fifo
pub mod Read
pub mod Write
mod Tests
use linux.Common.{
  ℕ, zero, suc, ◌+◌, ◌-◌, ◌%◌, ◌^◌, bit_and, bit_or, List, [], ◌∷◌, ◌++◌, Bool, ltb, ◌==◌, ◌!=◌,
  if◌then◌else◌, length, set, take, drop,
}
use linux.Common.Bits.{bit_not32}
use linux.Common.Int.{ℤ, pos, negsuc}

abbrev pub page_size : ℕ
page_size = 4096

-- The queues of sleeping tasks, `i_wait` and `i_wait2`.
pub data Queue : Type 0 where
  read_wait write_wait : Queue

-- The fields of the pipe's inode: the page that `i_size` points to, `i_zone[0]` (head), `i_zone[1]`
-- (tail), `i_count`, and the calls of `wake_up`, the last one first.
pub record Pipe : Type 0 where
  pub page : List ℕ
  pub head : ℕ
  pub tail : ℕ
  pub i_count : ℕ
  pub woken : List Queue

-- `PIPE_SIZE`: an `int` difference of two shorts, masked by `PAGE_SIZE-1`.
unfoldable pub pipe_size : Pipe → ℕ
pipe_size p = (2 ^ 32 + p.head - p.tail) % page_size

unfoldable pub wake_up : Queue → Pipe → Pipe
wake_up q p = record p { woken = q ∷ p.woken }

-- The signal words of the current task.
pub record Signals : Type 0 where
  pub signal : ℕ
  pub blocked : ℕ

-- `current->signal & ~current->blocked`
unfoldable pub signal_pending : Signals → Bool
signal_pending s = bit_and s.signal (bit_not32 s.blocked) != 0

abbrev pub sigpipe : ℕ
sigpipe = 13

abbrev pub erestartsys : ℕ
erestartsys = 512

-- The length of one copy: up to the end of the page, at most `count` and at most `size`.
unfoldable pub chunk_length : ℕ → ℕ → ℕ → ℕ
chunk_length start count size =
    let chars = page_size - start in
    let chars1 = if ltb count chars then count else chars in
    if ltb size chars1 then size else chars1

-- One round of the outer loop of `read_pipe` when `size` bytes are there: the bytes copied out, and
-- the pipe behind them.
unfoldable pub read_chunk : Pipe → ℕ → List ℕ × Pipe
read_chunk p count =
    let chars = chunk_length p.tail count (pipe_size p) in
    (take chars (drop p.tail p.page), record p { tail = (p.tail + chars) % page_size })

-- `((char *)inode->i_size)[size++]=get_fs_byte(buf++)`
unfoldable pub write_bytes : List ℕ → ℕ → List ℕ → List ℕ
write_bytes page i [] = page
write_bytes page i (b ∷ bs) = write_bytes (set page i b) (i + 1) bs

-- `size=(PAGE_SIZE-1)-PIPE_SIZE(*inode)`
unfoldable pub room : Pipe → ℕ
room p = page_size - 1 - pipe_size p

-- One round of the outer loop of `write_pipe`: the pipe with the first bytes of `buf`, and the
-- bytes that are left.
unfoldable pub write_chunk : Pipe → List ℕ → Pipe × List ℕ
write_chunk p buf =
    let chars = chunk_length p.head (length buf) (room p) in
    (
      record p {
        page = write_bytes p.page p.head (take chars buf);
        head = (p.head + chars) % page_size;
      },
      drop chars buf,
    )

-- What the other side does while the caller sleeps: the bytes that a writer puts in or how many a
-- reader takes out, the count of open ends afterwards, and the signals that have come.
pub record Wake : Type 0 where
  pub bytes : List ℕ
  pub taken : ℕ
  pub opens : ℕ
  pub signal : ℕ

-- A call that returned `ret` (the reader with the bytes `out`, the writer with `out` not written),
-- or that sleeps for good since nobody wakes it.
pub data Outcome : Type 0 where
  returned : (ret : ℤ) → (out : List ℕ) → Pipe → Signals → Outcome
  asleep : (out : List ℕ) → Pipe → Signals → Outcome
  out_of_fuel : Outcome

-- The writer's rounds until its bytes or the room are used up; two rounds reach round the ring.
unfoldable pub writer_runs : ℕ → Pipe → List ℕ → Pipe
writer_runs zero p buf = p
writer_runs (suc n) p buf =
    let (p', rest) = write_chunk p buf in
    if length buf == 0 then p else (if room p == 0 then p else writer_runs n p' rest)

-- The reader's rounds until it has its count or the pipe is empty.
unfoldable pub reader_runs : ℕ → Pipe → ℕ → Pipe
reader_runs zero p count = p
reader_runs (suc n) p count =
    let (out, p') = read_chunk p count in
    if count == 0
    then p
    else (if pipe_size p == 0 then p else reader_runs n p' (count - length out))

-- The pipe when the reader, or the writer, wakes.
unfoldable pub after_writer : Pipe → Wake → Pipe
after_writer p w = record (writer_runs 2 p w.bytes) { i_count = w.opens }

unfoldable pub after_reader : Pipe → Wake → Pipe
after_reader p w = record (reader_runs 2 p w.taken) { i_count = w.opens }

-- `read_pipe`, on fuel for the rounds of both loops. `out` is what has been read.
unfoldable pub read_loop : ℕ → List Wake → Signals → Pipe → ℕ → List ℕ → Outcome
read_loop zero wakes s p count out = out_of_fuel
read_loop (suc f) wakes s p count out =
    let (bytes, p') = read_chunk p count in
    let more = read_loop f wakes s p' (count - length bytes) (out ++ bytes) in
    let p1 = wake_up write_wait p in
    let slept = λ (w : Wake) (ws : List Wake).
      read_loop f ws (record s { signal = w.signal }) (after_writer p1 w) count out in
    if count == 0
    then returned (pos (length out)) out p1 s
    else (if pipe_size p != 0
        then more
        else (if p1.i_count != 2
            then returned (pos (length out)) out p1 s
            else (if signal_pending s
                then returned
                    (if length out != 0 then pos (length out) else negsuc (erestartsys - 1)) out p1
                    s
                else elim wakes [ [] ↦ asleep out p1 s | w ∷ ws ↦ slept w ws ])))

pub read_pipe : ℕ → List Wake → Signals → Pipe → ℕ → Outcome
read_pipe fuel wakes s p count = read_loop fuel wakes s p count []

-- `write_pipe`. `written` counts what has been written, `buf` is what is left.
unfoldable pub write_loop : ℕ → List Wake → Signals → Pipe → List ℕ → ℕ → Outcome
write_loop zero wakes s p buf written = out_of_fuel
write_loop (suc f) wakes s p buf written =
    let (p', rest) = write_chunk p buf in
    let more = write_loop f wakes s p' rest (written + (length buf - length rest)) in
    let p1 = wake_up read_wait p in
    let slept = λ (w : Wake) (ws : List Wake).
      write_loop f ws (record s { signal = w.signal }) (after_reader p1 w) buf written in
    if length buf == 0
    then returned (pos written) buf p1 s
    else (if room p != 0
        then more
        else (if p1.i_count != 2
            then returned (if written != 0 then pos written else negsuc 0) buf p1
                (record s { signal = bit_or s.signal (2 ^ (sigpipe - 1)) })
            else elim wakes [ [] ↦ asleep buf p1 s | w ∷ ws ↦ slept w ws ]))

pub write_pipe : ℕ → List Wake → Signals → Pipe → List ℕ → Outcome
write_pipe fuel wakes s p buf = write_loop fuel wakes s p buf 0
