-- ===== src/Lib.antt =====
-- Verification library of the xv6 variant in xv6-public: the redo log of the file system, the
-- multi-level feedback queue, and the scheduler that shares the processor between it, fixed shares
-- and default processes by stride; processes and threads; pipes, the buffer cache, the
-- block map of files, the page allocator, page tables, the byte strings of the kernel, the file
-- table, console input, and the parser of the shell.
--
-- Parts and files
--   Log        xv6-public/log.c, and `bwrite` of xv6-public/bio.c. `initlog`, `recover_from_log`,
--              `read_head`, `write_head`, `install_trans`, `write_log`, `commit`, `begin_op`,
--              `end_op`, `log_write` and `sync` are functions of the same names on a record of the
--              log, the buffer cache and the disk. Log/Commit and Log/Recover say what a commit and a
--              recovery leave on disk, Log/Crash joins them, Log/Write is about `log_write`,
--              Log/Reserve about the reservation of log blocks by concurrent operations: the credit of an
--              operation is the number of blocks that it may still add to the log.
--   Mlfq       xv6-public/proc.c lines 33 to 165. `insertafter`, `insertBefore`, `remove`, `delete`,
--              `lowerlevel`, `allocmlfqnode`, `priorityboost` and the list part of `initmlfq` are
--              functions on the slab of nodes. Mlfq/Links is about the pointers alone, Mlfq/Levels
--              about the queue as three lists of nodes.
--   Sched      xv6-public/proc.c and proc.h: `get_highest_master`, `getminproc`, `updatevals`,
--              `choosebymlfq`, `choosebystride`, `getminpath`, `cpu_share`, `run_MLFQ`, `initmlfq`
--              and one turn of `scheduler`. Sched uses Mlfq for the queue.
--   Process    xv6-public/proc.c: `allocproc`, `userinit`, `growproc`, `fork`, `exit`, `wait`, `kill`,
--              `sleep`, `wakeup1`, `yield`, on the process table of Sched with the fields of
--              `struct proc` that the scheduler does not use. Process/Threads has `thread_create`,
--              `thread_exit`, `thread_join`, `dealloc_thread`, `dealloc_other_threads` and
--              `sleep_other_threads`; Threads/Links relates the thread list to the lists of Mlfq/Links.
--              Process/Fork, Exit, Wait, Wake and Kill are about the functions they are named for.
--   Pipe       xv6-public/pipe.c: `pipewrite`, `piperead` and `pipeclose` on the ring of 512 bytes.
--              Pipe/Queue relates the ring to a list of bytes, Pipe/Stream follows a row of calls.
--   Bcache     xv6-public/bio.c: `binit` and `bget` on the list in the order of use.
--              Bcache/Get is about finding and reusing buffers, Bcache/Start about `binit`.
--   Fs         xv6-public/fs.c: `balloc`, `bfree` and `bmap`, on the buffers of Log and with its
--              `log_write`. Fs/Blocks is about pointers in blocks, Fs/Paths about block numbers, Fs/Again about blocks that are there; Fs/Names has `skipelem`.
--   Kalloc     xv6-public/kalloc.c: `kalloc`, `kfree` and `freerange`; Kalloc/Pages is about the free
--              list.
--   Strings    xv6-public/string.c. Strings/Move is about the functions that fill and move,
--              Strings/Compare about `strncmp`, `memcmp` and `strncpy`.
--   Shell      xv6-public/sh.c: the parser of command lines, `parsecmd`, `parseline`, `parsepipe`,
--              `parseexec`, `parseblock`, `parseredirs`, `gettoken` and `peek`. Shell/Printer has a
--              printer of commands, Shell/Tokens, Args, Levels and RoundTrip read its output back;
--              Shell/Total is about the fuel.
--   Vm         xv6-public/vm.c: `walkpgdir`, `mappages`, `allocuvm`, `deallocuvm`, `clearpteu` and
--              `uva2ka` on a store of pages, with `kfree`, its checks and its filling of a page.
--              Vm/Entries reads a page directory as a function from addresses to entries, Vm/Pages,
--              Map and Unmap follow the functions on it.
--   Files      xv6-public/file.c: `filealloc`, `filedup` and `fileclose`; Files/Counts relates the
--              reference counts to the references that callers hold.
--   Console    xv6-public/console.c: `consoleintr` and `consoleread` on the ring of 128 characters.
--              Console/Lines is about keys and the line that is edited, Console/Read about readers.
--   Prelude    lists, Boolean tests and finite updates that all parts share.
--
-- State
--   A pointer is a number and 0 is null: process `ptable.proc[i]` and node `mlfqnodeslabs[i]` have the
--   address i + 1. A disk block is a function from word indices, the disk and the buffer cache are
--   functions from block numbers. A function of the source that changes state returns the new state;
--   `ptable.lock` and the log's lock are held in the code that one function here models; in Process
--   `held` and `mem_held` say whether `ptable.lock` and `memlock` are held when a call returns. A double
--   enters through the record `Double` of Sched/State, about whose operations nothing is assumed.
--
-- Bounds and fuel
--   A loop has the rounds left as its first argument. The walks over the queue have `slab_end` rounds,
--   one more than the slab has nodes, and a list of distinct nodes is no longer; the theorems about
--   them ask for a list of at most that length. `get_highest_master` and the loops over threads have
--   NPROC rounds, the size of the process table. The search of `scheduler` for a runnable thread does
--   not always end, so its fuel is an argument and running out of it is a result. A power failure is
--   a number of disk writes that still succeed: after them the disk no longer changes.
--   `nextpid`, `nexttid`, the sum and the argument of `cpu_share`, and the counters of a pipe and of the
--   console are numbers of 32 bits that wrap; where a theorem needs that one does not, that is a hypothesis of
--   it. Other numbers are unbounded where the source has int or uint: the counters of the log stay
--   below LOGSIZE and at most 3 operations run, and the scheduler's are reset or compared in the
--   theorems. Addresses in Strings are numbers, whose ranges do not run over the end of memory. The block map needs no fuel: it has at most three levels.
--   `balloc` looks at `sb.size` bits, `freerange` frees at most as many pages as lie below the end of
--   its range, and the loop of `namex` has the length of the path.
--   The functions of the shell's parser call each other, so each call and each round costs one unit of
--   fuel; `parsecmd` starts with sixteen for each character and sixteen more.
--
-- Not modelled
--   `bread` is the contents of a block; that it panics when all buffers are held shows in `bget` alone.
--   Sleeping callers are results of the functions (`begin_op`, `sync`, `wait`, `thread_join`, pipes and
--   the console), not threads that run; the spinlocks, the other processors, the context switch, trap
--   frames, devices other than the console's input, system calls on files, the rest of the kernel and the
--   user programs.
pub mod Bcache
pub mod Console
pub mod Files
pub mod Fs
pub mod Kalloc
pub mod Log
pub mod Mlfq
pub mod Pipe
pub mod Prelude
pub mod Process
pub mod Sched
pub mod Shell
pub mod Strings
pub mod Vm
