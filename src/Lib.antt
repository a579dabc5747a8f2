-- ===== src/Lib.antt =====
-- A model of the kernel's core (Linux 0.12), and theorems about it.
--
-- Each module models a part of the kernel and is named after it; the proofs are its children, and
-- each part's `Tests` run the functions on concrete inputs.
--
--   Bitmap: fs/bitmap.c and `get_super` of fs/super.c. A block is a function of 256 long words, and
--   the maps of a super block are numbers of buffers of the cache. The super blocks are not locked.
--   Bitmap/Blocks.antt takes and frees blocks in the cache; the bits of `clear_bit` and `set_bit`
--   are written as sums and differences of powers of two.
--   Blk: kernel/blk_drv/ll_rw_blk.c and blk.h. `add_request` with the elevator on a device's queue, a
--   list in the order of the links, and `make_request` with the table of 32 entries and its buffer.
--   What other tasks and interrupts do while the caller sleeps is the next entry of a list of states,
--   one list for each of its two loops; where the states run out, the result is `asleep`. The
--   driver's function is not called, but its call is a result. Blk/Pages.antt has `ll_rw_page`,
--   `ll_rw_block` and `blk_dev_init`; which devices have a driver is an argument.
--   Buffer: fs/buffer.c. The cache (`Cache`) has the heads and the contents of the buffers by number,
--   the hash queues and the free list in the order of their links, and the request table with the
--   queues of the devices, which Buffer/Requests.antt fills by the functions of Blk. Code that may
--   sleep is a `Step`: it takes the states of the whole cache that it finds when it wakes up, one for
--   each sleep, and may end in `asleep`, `panicked` or `no_fuel`. `getblk` runs on fuel, one unit for
--   each of its repetitions and for each round of its two loops; where it need not sleep, two units
--   are enough. `sync_inodes`, which writes inodes into buffers, is an argument.
--   A device's number is taken to be one that the unsigned short `b_dev` holds.
--   Common: numbers, tests, lists, machine words bit by bit, and C's signed integers.
--   Exit: kernel/exit.c and a part of kernel/fork.c. Signals to processes and groups, on the table of
--   tasks. An empty slot is a null pointer, and the code reads fields through it: what stands at
--   address 0 is the argument `null`; a write through it is left out. A pointer to a task is the number
--   of its slot. Exit/Tree.antt has `release`, `do_exit` from the zombie state on, with the adoption of
--   the children by init, and the links that `copy_process` makes; its loop over the children runs on
--   64 rounds, as many as there are slots. Exit/Wait.antt has `sys_waitpid`: the tasks that it finds
--   when it wakes up are the next entry of a list.
--   Inode: fs/inode.c. `_bmap` on an inode of memory (`Inode`) with its tables in the cache; the
--   function gives the inode afterwards besides its result.
--   Malloc: lib/malloc.c. The directory of buckets is a list of sizes with their chains; the free
--   objects of a page are a list of addresses, where the program links them through their first words.
--   Pages come from a list and go back to it.
--   Memory: mm/memory.c and mm/swap.c. Physical memory is a function of long words, with the page
--   directory at 0 and each page table in its page, so tables may share words; `mem_map` and the swap
--   device are functions, too. Masks of 32-bit words are written by division. Memory/Swap.antt finds
--   frames, Memory/Tables.antt copies and frees tables, Memory/Faults.antt has the faults and sharing.
--   `get_free_page` runs on fuel, one unit for each of its repetitions; where a frame is free, one
--   unit is enough. Sleeping in reads and writes of the swap device is not modelled, and `oom` is a
--   result.
--   Mktime: kernel/mktime.c. `kernel_mktime` is the function of that name; Mktime/Calendar.antt counts
--   the days of the Gregorian calendar one by one.
--   Pipe: fs/pipe.c. `read_pipe` and `write_pipe` with the ring in a page (`Pipe`), the copies in
--   stretches (`read_chunk`, `write_chunk`), and sleeping. What the other process does while the caller
--   sleeps is the next entry of a list of `Wake`s: the writer puts in bytes, or the reader takes some
--   out, by the same copies. The loops run on fuel, one unit for each copy and each sleep; each copy
--   moves a byte at least, so the byte count and the number of sleeps bound it. Pipe/Fifo.antt is the
--   specification, a bounded queue.
--   Sched: kernel/sched.c. `schedule` with its pass over alarms, timeouts and signals and its choice of
--   the next task; the counters and the priorities are C's long integers, which wrap. The loop of the
--   choice runs on fuel 2, which is enough where no counter is negative, every priority is positive
--   and no new counter overflows. `switch_to` is the result. Sched/WaitQueue.antt has `sleep_on` and `wake_up` on one queue
--   as steps of interleaved tasks; Sched/Timer.antt has the chain of `add_timer` and `do_timer`, whose
--   handlers are numbers: a handler that calls `add_timer` itself is not modelled.
--   Signal: kernel/signal.c. The mask and the table of actions of the current process, and `do_signal`
--   on it, its parent, the saved registers and the words of user memory. `do_exit` is a result
--   (`Outcome`), and `sys_pause` ends where it calls `schedule`; the assembly code that picks the
--   signal and clears its bit is not modelled.
--   Sys: kernel/sys.c. The calls that set the user and group ids of the current process, each an
--   unsigned short that an `int` is cut down to. Sys/Groups.antt has the supplementary groups,
--   Sys/Session.antt `sys_setpgid` and `sys_setsid` on the table of Exit, and Sys/Limits.antt the
--   resource limits on the words of `task_struct`, so that a number out of range reaches its other
--   fields, as it does in the program.
--   Vsprintf: kernel/vsprintf.c. Strings are lists of character codes. `number` gives the bytes that
--   it writes, in the order in which it writes them; the digits are taken on fuel 32, one round for
--   each bit of a word. `vsprintf` (Vsprintf/Format.antt) is a loop on fuel over the format, one round
--   more than it has characters; arguments are words or strings, a missing one is a result, and what
--   `%n` stores is a list of pointers with counts.
--
-- Machine words are natural numbers with their wrap-around written out. Interrupt flags (`cli`, `sti`),
-- ports, messages (`printk`) and the assembly code are not modelled; `panic` is a result of its own.
--
-- Not modelled: the inode table and truncation, names and the calls on files (fs/namei.c, fs/open.c and
-- others); `new_inode` of fs/bitmap.c and reading ahead in fs/buffer.c; the memory and the registers
-- of a new process (kernel/fork.c), and what an exit gives back; the terminals; `do_no_page` of
-- mm/memory.c, which reads files. The disk drivers, the console, the boot code, the traps and the
-- emulation of the coprocessor work on ports and raw registers.
pub mod Blk
pub mod Bitmap
pub mod Buffer
pub mod Common
pub mod Exit
pub mod Inode
pub mod Malloc
pub mod Memory
pub mod Mktime
pub mod Pipe
pub mod Sched
pub mod Signal
pub mod Sys
pub mod Vsprintf
