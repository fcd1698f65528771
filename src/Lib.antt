-- ===== src/Lib.antt =====
-- A model of the kernel in c/ and of its headers in h/: a preemptive kernel for one i386 processor
-- with a process table, a memory manager, message passing, signals, a sleep timer and a keyboard.
--
-- The parts, by file:
--   Kernel      the state (Kernel/State: the variables of the kernel and the table of processes of
--               h/xeroskernel.h), the commands on it (Kernel/Command), the constants, and what lies
--               outside of the C code (Kernel/External)
--   Queue       lists of processes linked by `next`, and the loops that walk them
--   Disp        c/disp.c: get_proc, ready, next, count, stop, release
--   Calls       h/xeroskernel.h and c/disp.c: the request codes, and the arguments of each
--   Ctsw        c/ctsw.c: contextswitch behind its assembly
--   Dispatch    c/disp.c: dispatch (Dispatch/Rounds and Turns: processes that yield; Dispatch/Ticks
--               and Alarms: the sleep device; Dispatch/Interrupt: a timer interrupt; Dispatch/Slices and
--               Rings: rounds that the timer ends; Dispatch/Layout, Service, System and Loop: any
--               number of rounds of processes that keep to themselves)
--   Syscall     c/syscall.c: the stubs by which a process asks for something
--   Mem         c/mem.c: kmeminit, kmalloc, kfree, kmemhdsize, kmemtotalsize (Mem/Blocks: the free list as a
--               list of blocks; Mem/Search, Cutting, Relink, FirstFit and Allocated: kmalloc; Mem/Joined,
--               Join, Coalesce, Reattach, Insert, Ends, LinkIn, Placed and Freed: kfree; Mem/Start: kmeminit;
--               Mem/Total and Roundtrip: what is free)
--   Machine     c/i386.c, c/evec.c and contextinit of c/ctsw.c (Machine/Ports and Masks: the interrupt
--               controllers and the timer; Machine/Vectors and Boot: the interrupt vectors;
--               Machine/Segments: the segments and the free memory)
--   Create      c/create.c: create, find_pid, set_max_pid, set_min_pid (Create/Loops and Bounds: the last
--               two; Create/Search and Fresh: find_pid)
--   Sleep       c/sleep.c: sleep, wake, wake_early, tick, sleeper (Sleep/Delta: what the list stands
--               for, an alarm for each process; Sleep/Steps, Insert, Order and Entry: sleep; Sleep/Wake:
--               wake; Sleep/Early: wake_early for the head; Sleep/Unlink and Cancel: behind it; Sleep/Clock
--               and Later: the alarms as slices pass)
--   Msg         c/msg.c: send, recv, block, unblock, deadlock
--   Signal      c/signal.c: signal, sigdeliver, sighigh, siginstall, sigcease (Signal/Highest: the
--               loop over a mask)
--   Devices     c/di_calls.c: di_open, di_close, di_read, di_write, di_ioctl (Devices/Opened and Exclusive:
--               di_open and di_close)
--   Kbd         c/kbd.c and c/scanToASCII.c: the keyboard's queue, buffer and scan codes
--   Init        c/init.c: initproc up to the dispatcher
--   Base        numbers, lists and machine words that the parts share
--   Tests       examples: the theorems at concrete states
--
-- The dispatcher takes the head of the ready queue, delivers a signal if one is pending, runs it by
-- way of the context switch and serves the request that it comes back with. The services call the
-- other parts, and these hand processes back by `ready` of c/disp.c.
--
-- A pointer to a process is a number: 0 is NULL, and i + 1 is &proc_table[i]. A command takes the
-- state and ends with a value and a new state (done), at a write or read through NULL (fault), or
-- with its fuel used up (spin). Integers are their patterns of 32 bits, and the sums and differences
-- of the source wrap at 2 ^ 32 (add32, sub32); a comparison of signed integers tests the top bit.
-- Memory that is not the process table is a function from addresses to words, beside one from
-- addresses to bytes for the text of messages and keys; the two are not views of one store.
--
-- A heap is valid where its free blocks lie one behind the other between the first 16 bytes and 4 MB, and
-- are linked both ways in this order. kfree joins blocks by the forward links only, so behind it the list
-- is linked forward, and the links back say no more than which block is the first.
--
-- The tables of the processor and the writes to its ports are a state of their own. What a port gives is a
-- parameter, by the writes before.
--
-- A list of sleeping processes is valid where its links are, the times of its alarms are words, and its
-- head has a slice to wait.
--
-- Loops over a queue have fuel for 33 processes, one more than the table has entries, so no walk of
-- a chain without repetition runs out; the proofs on queues say so. Loops over the blocks of memory have
-- fuel for 0x40001 of them, one more than the paragraphs of 4 MB. Loops over the bits of a mask have
-- fuel for 33.
--
-- Not modelled: assembly (c/startup.S, c/intr.S but for the writes of disable, getCS and getDS), trap of c/evec.c, which prints and
-- halts, output (c/kprintf.c and the printers puts_*), the library in lib/, boot/, and the user's processes
-- in c/user.c and c/test.c. What the kernel takes from them (addresses of functions and of the
-- image's end, ports, sprintf, the registers at a trap) is a parameter.
pub mod Base
pub mod Kernel
pub mod Queue
pub mod Disp
pub mod Machine
pub mod Mem
pub mod Create
pub mod Sleep
pub mod Msg
pub mod Kbd
pub mod Signal
pub mod Devices
pub mod Calls
pub mod Ctsw
pub mod Dispatch
pub mod Syscall
pub mod Init
pub mod Tests
