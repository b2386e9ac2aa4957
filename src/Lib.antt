-- ===== src/Lib.antt =====
-- LAB-SO: three projects of a course on operating systems. The first, so24lab1g02/LAB1, is a shell; the
-- second and third, so24lab2g02 and so24lab3g02, are copies of the xv6 kernel for RISC-V, the second with
-- semaphores as new system calls, the third with programs that measure its scheduler. Their kernels share
-- most files.
--
-- The parts, by file; a path is from the root of the repository:
--   Log: so24lab3g02/kernel/log.c. The disk is the header block and the other blocks, and writes go to it
--     one at a time, as many as its `power` allows; a crash is a power that runs out. begin_op, end_op
--     and log_write change the log in memory, commit and recover_from_log also the disk. end_op is two
--     definitions, before and after the commit that it runs without the lock.
--   Bio: so24lab3g02/kernel/bio.c and sleeplock.c. The array of buffers is a function of the position,
--     the doubly linked list the positions from head.next to head.prev.
--   Pipe: so24lab3g02/kernel/pipe.c. The counters are 32-bit integers that wrap around. A call runs up to
--     where it returns or sleeps; whether the process is killed is read anew for each byte that pipewrite
--     puts.
--   Kalloc: so24lab3g02/kernel/kalloc.c. The free list is a list of addresses.
--   Spinlock: so24lab3g02/kernel/spinlock.c. push_off and pop_off act on one CPU; acquire and release are
--     cut into single accesses to the lock, which many CPUs interleave.
--   Proc: so24lab3g02/kernel/proc.c, from allocproc to wait. A function holds wait_lock or the locks of
--     the slots while it runs, so that its effect is one step.
--   Grep: the matcher of so24lab3g02/user/grep.c.
--   Semaphore: so24lab2g02/kernel/semaphore.c. An `int` is an integer without bound. A sleep splits
--     sem_down in two.
--   Shell: so24lab1g02/LAB1: command.c and strextra.c (Command, with the texts in Text), builtin.c,
--     parsing.c and execute.c. execute_pipeline takes pipelines that parse_pipeline makes, and gives a
--     single internal command to builtin_run.
--   Memory: so24lab3g02/kernel/string.c. Memory is a function from addresses to bytes, and ranges do not
--     wrap around its end.
--   File: so24lab3g02/kernel/file.c, filealloc, filedup and fileclose. The table is a list; a count is a
--     number without bound.
--   Vm: so24lab3g02/kernel/vm.c. Page tables are a function from the page and the index to the entry, and
--     the free list is that of Kalloc. walk, mappages and walkaddr are in Vm/Defs, uvmunmap and the copies
--     between kernel and user, on the memory of Memory, in Vm/User.
--   Fs: so24lab3g02/kernel/fs.c: balloc, bfree and bzero in Fs/Defs, bmap in Fs/Content, writei and readi
--     in Fs/Writei and Fs/Readi. The blocks are those that the buffer cache shows, as a function of the
--     block and the byte; an inode is its table of blocks and its size, in memory. Fs/Logged lists the blocks
--     that balloc and bmap log; writei and readi pass them to the log_write of Log, whose panics are theirs.
--   Console: so24lab3g02/kernel/console.c. consoleintr and consoleread act on the ring, whose indices are
--     32-bit integers that wrap around; a consoleread runs up to where it returns or sleeps.
--   Print: printint of so24lab3g02/user/printf.c and atoi of user/ulib.c beside it.
--   Proc/Scheduler: the scheduler of proc.c, on one CPU. What a process does until it switches back is a
--     parameter.
--
-- A string in C is the list of its character codes up to the NUL. A failed assert or a panic is `none`.
-- These loops run on fuel. The loops of parsing.c end when the parser says so, and the theorem on them
-- gives an amount that is enough for every line; freerange has one more than the pages below its end, and the
-- theorem on kinit includes that it is enough. copyout and copyin have the number of bytes, at least one of
-- which a round copies; the round trip of the two includes that it is enough. printint has the 16 bytes of
-- its buffer, past which a store is `none`; the loop of ^U has the number of bytes of the line, at which its
-- own test ends it. Every other loop is a recursion on its list or counter.
--
-- What the code takes from outside is a parameter: the parser of the shell (parser.h, which has no source
-- here), whether chdir, pipe and fork succeed, what copyin and copyout give to pipes, files and the console, the
-- contents of the disk and the ends of memory, and what a process does while it has the CPU. Memory that
-- is freed, messages that are printed, and the names of locks are left out. In execute_scommand the files of redirections are taken to open.
--
-- Not modelled: the inodes on the disk, directories and paths of fs.c, the rest of vm.c, exec.c, trap.c, the devices, start-up and
-- assembly, the user programs but for grep, the tests, mkfs, the shell's main loop, and the obfuscated
-- module of the shell.
pub mod Prelude
pub mod Log
pub mod Semaphore
pub mod Shell
pub mod Pipe
pub mod Kalloc
pub mod Spinlock
pub mod Grep
pub mod Bio
pub mod Proc
pub mod Memory
pub mod File
pub mod Vm
pub mod Fs
pub mod Print
pub mod Console
