-- ===== src/Lib.antt =====
-- The scheduler of the Smart MLFQ kernel, a uCore kernel with multi-level feedback queues, and the
-- parts of the kernel that it rests on. Paths below are from the repository's root; the kernel lies
-- in the folder `Smart MLFG`.
--
-- How the parts interact. kern/schedule/sched.c keeps the current process running: `schedule` puts
-- it back into a run queue, asks the scheduling class for the next one, takes that out of the queue
-- and switches to it; `wakeup_proc` puts a sleeping process into the queue; the clock interrupt calls
-- `run_timer_list`, which wakes the processes whose timers have run out and tells the class about the
-- tick. The class is a table of functions (`struct sched_class`): mlfq_sched.c, basic_mlfq_sched.c
-- and others fill it.
--
-- Files.
--   Common            numbers, lists, C's int, stores, and faults as `none`
--   Sched/Proc        struct proc_struct and alloc_proc (kern/process/proc.h, proc.c)
--   Sched/State       struct run_queue, struct sched_class and struct mlfq_data
--   Sched/Mlfq        enqueue, dequeue, boost, choice and tick, which mlfq_sched.c and
--                     basic_mlfq_sched.c share word for word; the level update is a parameter,
--                     whose laws stand in Sched/Mlfq/Policy
--   Sched/Smart       mlfq_predict_and_level_update (mlfq_sched.c)
--   Sched/Basic       basic_mlfq_update_level (basic_mlfq_sched.c)
--   Sched/Framework   sched.c over a class; Sched/Framework/Laws is the interface between the two
--   Sched/Timer       the timer list of sched.c
--   Sched/Tests       the theorems at concrete states
--   Sched/RoundRobin  rr_sched.c
--   Sched/Stride      default_sched.c, whose pool is a skew heap
--   Ring              libs/list.h, on a store of pointers
--   Heap              libs/skew_heap.h, under any comparison
--   Process/Pid       get_pid (kern/process/proc.c); the jumps back to `repeat` take fuel, of which
--                     max_pid is enough, since each one passes a pid in use
--   Process/Table     hash_proc, unhash_proc and find_proc (kern/process/proc.c), libs/hash.c
--   Process/Family    the pointers between parents, children and siblings (set_links, remove_links)
--   Process/Life      one round of do_wait, do_kill, do_yield and lab6_set_priority; the walk along
--                     the children takes nr_process as fuel, and the number of children is enough
--   Process/Fork      do_fork; what allocations answer is an argument
--   Process/Exit      do_exit and the loop that hands the children to initproc, on the same fuel
--   Process/Scene     the theorems on processes at a concrete state
--   Memory            find_vma, insert_vma_struct and user_mem_check (kern/mm/vmm.c), whose loop
--                     takes fuel for the addresses; the length of the range is enough
--   Pages             the first-fit allocator of kern/mm/default_pmm.c
--   Format            libs/printfmt.c; the loop takes a round for each byte of the format and ten more,
--                     which is enough, and 64 digits, which is enough for 64 bits
--   Strings           the functions of libs/string.c that are compiled for this machine; a value that
--                     does not fit in the 32 bits of `long` is `none`
--
-- State and operations. A structure lives at an address, a natural number, and `procs` says what
-- stands there. An operation takes the state and returns the new one, and `none` where an assertion
-- fails or an access is out of bounds. A doubly linked list is the list of its entries' addresses;
-- the entry that is embedded in a process says whether its pointers are NULL, point to itself or lie
-- in a list. `int` is an integer with a sign, since nothing overflows where the invariants hold,
-- but for `sched_count`, which is kept as its 32-bit word;
-- `unsigned int` wraps at 2^32. Interrupts are off in the functions of sched.c, so a call is one step.
--
-- Not modelled: page tables, kmalloc, swapping, page faults, the address space of a process, what
-- do_wait does when it runs again after its switch, execve, traps and system calls, the red-black
-- tree, console output, the switch of stacks and page tables, the debugger, the boot code,
-- the drivers and the user programs.
pub mod Common
pub mod Format
pub mod Ring
pub mod Heap
pub mod Sched
pub mod Process
pub mod Memory
pub mod Pages
pub mod Strings
