-- ===== src/Lib.antt =====
-- Verified models of the labs in this repository.
--
-- - Prelude: numbers, tests and lists that all parts share.
-- - Shell (bash/pipe): `TokenizerInit` cuts a line into tokens (Shell/Lexer, tokenizer.h);
--   `SplitInCommands` and the validators check the tokens (Shell/Syntax, bash.h), against the grammar
--   of Shell/Syntax/Grammar; `Exec` starts a child for each command, over tables of descriptors
--   (Shell/Exec, bash.h). A `char*` or `struct Token*` is the list from that place on.
-- - Locks (atomic/): the instructions of atomic.h (Locks/Atomic), the reader-writer lock
--   (Locks/RwLock, rwlock.h and spinlock.h) and the sequence lock (Locks/SeqLock, seqlock.h and
--   spinlock.h), each a relation between the states of threads that interleave one access at a time.
-- - Fibers (fibers/fibers): the ring of fibers that fiber.c links, and `FiberSpawn`, `FiberYield` and
--   `FiberTryJoin` on it, against a queue of the fibers that wait.
-- - Alarm (signal/alarm): the system call `alarm` of sysproc.c, with syscall.c's fetching of arguments,
--   and what trap.c does with it on a tick of the timer, for the process that the tick interrupts.
-- - Logger (fs/logger/main.c): the loop of `main` over lines and signals, and `rotate`, over files whose
--   operations are parameters.
-- - XvPipe (signal/alarm/pipe.c): the pipe of xv6, a ring of bytes with `pipewrite`, `piperead` and
--   `pipeclose`, against a queue.
-- - Kalloc (signal/alarm/kalloc.c): the page allocator of xv6, `kalloc`, `kfree` and `freerange`, against
--   a list of pages.
-- - XvString (signal/alarm/string.c): the functions of the kernel on bytes and strings, over a memory of
--   bytes, with the string instructions of x86.h.
-- - XvLog (signal/alarm/log.c): the redo log of the file system, `begin_op`, `end_op`, `log_write`,
--   `commit` and `recover_from_log`, over a disk that is known by the writes sent to it; a crash keeps
--   some first part of them.
-- - XvProc (signal/alarm/proc.c): the process table of xv6 and the states of processes; `allocproc`,
--   `fork`, `exit`, `wait`, `scheduler`, `yield`, `sleep`, `wakeup` and `kill` are steps under the
--   lock of the table that interleave on any number of processors. For fewer than 2^32 pids.
-- - XvSpin (signal/alarm/spinlock.c): the spin locks of xv6, `acquire` and `release` with `pushcli` and
--   `popcli`, as steps of any number of processors. The other models of the kernel take what a lock
--   protects as one step.
-- - XvBio (signal/alarm/bio.c): the buffer cache, its list of buffers, `bget`, `bread`, `bwrite` and
--   `brelse`; a buffer is its index, and a request of `iderw` reads or writes the disk at once.
-- - XvFile (signal/alarm/file.c): the table of open files, `filealloc`, `filedup` and `fileclose`, against
--   the references that processes have, and `filewrite` over `writei`, which is a parameter.
-- - XvPath (signal/alarm/fs.c): `skipelem` and the walk of `namei` along a path, over inodes whose types
--   and entries are parameters.
-- - Backtrace (elf/backtrace/backtrace.c): `AddrToName` searches the tables of symbols of an ELF file,
--   which is given by its sections, symbols and strings, and `Backtrace` follows the frames of a stack,
--   which is given by its words; a load from it may fault.
--
-- Bounds and fuel: the tokenizer gets one round more than the line has bytes, which is enough since
-- each round but the last consumes a byte; a walk over the ring of fibers gets more than the queue is
-- long, `freerange` more than the range has pages, `filewrite` more than there are bytes to write, and
-- `namei` more than the path is long. The locks are taken with fewer than 2^64 threads, and the
-- sequence lock for fewer than 2^64 accesses, so that no counter comes round.
--
-- Parameters: the kernel's choices of descriptors, of the paths that open, of the programs that start
-- and of the forks that succeed; the operations on files that the logger uses; the layout of a block of
-- data as the header of the log; the test that a name is "main". A kernel gives out only descriptors
-- that are not in use.
--
-- Not modelled: freeing of memory in user programs, the stacks and registers that fibers switch, output
-- to the terminal, the reading of lines, the wake-ups inside the kernel of signal/alarm and its locks
-- except in XvSpin and XvProc, and the weak memory order that the locked instructions and the fences
-- exclude.
pub mod Prelude
pub mod Shell
pub mod Locks
pub mod Fibers
pub mod Alarm
pub mod Logger
pub mod XvPipe
pub mod Kalloc
pub mod XvString
pub mod XvLog
pub mod XvProc
pub mod XvBio
pub mod Backtrace
pub mod XvSpin
pub mod XvFile
pub mod XvPath
