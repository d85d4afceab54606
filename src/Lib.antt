-- ===== src/Lib.antt =====
-- The kernels of two course projects that extend xv6, a small Unix for the x86, and the theorems on
-- what makes them correct.
--
-- Parts. project01/xv6-public is xv6 with a scheduler of three queues: L0 and L1 are served in the
-- order of arrival, L2 by priority and then by arrival; a process that uses up its quantum goes down a
-- level, every hundred passes of the scheduler loop all processes go back to L0, and a process may
-- lock the scheduler for itself with a password. project02/xv6-public has threads inside a process
-- instead. Most of the other files are the same in both trees and are modelled once; the paths below
-- name one of the two.
--
-- How they interact. The process table is one value, Proc.Ptable, with the scheduler's variables and
-- the clock. The scheduler chooses a process, which runs until it returns to it: a pass of the loop is
-- the part before the switch and the part after it, and what the process does to the table in between
-- is a parameter. The clock's interrupt charges the running process and takes it down. The kernel
-- state Kernel.Kernel adds the page allocator, the table of open files and the pipes to the table of
-- processes: fork takes a stack from the allocator and counts the parent's descriptors once more in
-- the open files; exit gives the descriptors back, closes pipes, and wakes the parent; wait frees what
-- is left. The file system is seen by its calls there, in their order. Its log, its buffer cache, and
-- its blocks, files and directories have models of their own: Fs takes a block as bytes that can be
-- read and written, which is what bread, log_write and brelse give.
--
-- Files and code.
--   Common     shared names, and lists, options, searches and C integers over the native numbers
--   Kalloc     project01/xv6-public/kalloc.c: kfree, kalloc, freerange
--   Proc       proc.h and proc.c of project01/xv6-public: the table, wakeup, kill, setPriority
--   Mlfq       scheduler, schedulerLock and schedulerUnlock of project01/xv6-public/proc.c, and the
--              clock tick of trap.c. Order: the choice; Quantum: the clock; Rounds and Boost: passes
--              of the loop; Lock: the end of a lock; Held: the passes while it is held
--   File       project01/xv6-public/file.c: filealloc, filedup, fileclose on the reference counts
--   Pipe       project01/xv6-public/pipe.c. Ring: the buffer as a list; Laws: one call; Stream: runs
--   Kernel     allocproc, fork, exit, wait and sleep of project01/xv6-public/proc.c, with pipeclose
--              and the end of fileclose. Table: the table in order; Birth, Descriptors, Fork, Forked:
--              fork; Exit: exit, wait and sleep; Adopt, Death: exit; Handover: exit and wait together;
--              Open: pipealloc, and argfd and fdalloc of sysfile.c
--   Log        project01/xv6-public/log.c. Disk: writes that have reached the disk; Traces: the writes
--              of a commit; Crash and Atomic: what crashes leave; Space: the reservation, which is one block
--              short on the disks that mkfs.c makes
--   Bio        project01/xv6-public/bio.c: bget and brelse. Order: which buffer; Unique: one per block
--   Lock       spinlock.c and sleeplock.c of project01/xv6-public. Nesting: the interrupts
--   Thread     project02/xv6-public/thread.c. Life: exit and join; Pool: the recycled stacks
--   Tasks      project02/xv6-public/proc.c. Turns: the scheduler; Limit: the memory limit; Birth:
--              allocproc, fork and wait; Panic: a failure of fork; Reap: what wait frees
--   Args       project01/xv6-public/syscall.c: argint, argptr, argstr. Checks: what argstr accepts
--   Paging     project01/xv6-public/vm.c: the page tables; Copy: copyout, setupkvm, copyuvm, freevm.
--              Tree: the tables apart from each other; Entries: walkpgdir; Range, Rounds, Pages: mappages
--   Fs         project01/xv6-public/fs.c: balloc, bfree and iupdate; Content: bmap, itrunc, readi and
--              writei; Path: skipelem; Namex: namex. Bits, Map, Alloc: the bit map; Slots,
--              Grow, Mapped, Bmap: the blocks of a file; Copied, Write, Loops, Read, Grown, Roundtrip:
--              writing and reading; Freed, Clear, Truncate: truncation; Elements, Names: paths; Dir:
--              dirlookup and dirlink; Put, Lookup, Search, Entry, Link: what they do
--   Str        project01/xv6-public/string.c. Move: memmove; Compare: memcmp; Copy: safestrcpy; Name:
--              strncpy and strncmp
--
-- Conventions. A pointer to an entry of a table is its index, and a pointer to a page is its address.
-- A panic, the use of a null pointer and a read past a table are `none`. A critical section is one
-- step, so the locks themselves do not appear, except where they are held too long. Words of 32 bits
-- wrap around where the code lets them: the counters of a pipe, the clock, and the sizes in thread.c.
-- Reference counts do not, as the descriptors of the 64 processes bound them, nor do the ids of
-- processes, which are counted up from 1 and wrap around after 2^31 forks only. Loops over a table are
-- recursion on the table, or on the number of entries left, which is the table's size; the loops of
-- string.c are recursion on the number of bytes left. The loops of readi and writei and the one over a
-- path run on fuel: the number of bytes to move, of which each round moves one at least, and the
-- length of the path and one, with the theorem that this is enough. balloc looks at size / 4096 + 1
-- blocks of the bit map, which are all. In Paging a loop runs on the number of pages that are left to
-- visit, at most; for mappages the theorem says that it is enough. dirlookup and dirlink look at size
-- / 16 + 1 entries, with the theorem that these are all.
--
-- Interfaces. copyuvm and freevm of vm.c are arguments of fork and wait; kalloc, kfree, allocuvm,
-- clearpteu, copyout and freevm are the record Thread.Vm, an argument of the functions of thread.c;
-- their code has a model in Paging. The theorem on fork asks of copyuvm that it leaves the end of the
-- kernel alone. namex takes as arguments whether
-- an inode is a directory and what dirlookup finds in it, as the cache of inodes stands between.
--
-- Not modelled: the cache of inodes, the loading of programs, exec, the drivers, the boot code and the
-- user programs; the saved kernel contexts and swtch, which are assembly; and messages on the console,
-- with the names of processes that only they show.
pub mod Common
pub mod Kalloc
pub mod Proc
pub mod Mlfq
pub mod File
pub mod Pipe
pub mod Kernel
pub mod Log
pub mod Bio
pub mod Lock
pub mod Thread
pub mod Tasks
pub mod Args
pub mod Paging
pub mod Str
pub mod Fs
