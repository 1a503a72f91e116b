-- ===== src/Lib.antt =====
-- InfOS, a teaching operating system for x86-64. Paths are from the repository's root.
--
-- The parts and how they meet. A key press comes in at the keyboard (drivers/input), is turned into a
-- character by the virtual console (drivers/console) and waits in the read buffer of the terminal
-- (drivers/terminal), whose event wakes the thread that reads. Threads are scheduling entities: a
-- change of an entity's state (kernel/sched.cpp) puts it into or takes it out of the run queue of the
-- scheduling algorithm (kernel/sched-cfs.cpp) and triggers the event `_state_changed`, whose wake
-- queue makes each waiter runnable in turn. The run queue and the wake queues are linked lists
-- (include/infos/util/list.h). The tables of the kernel, of objects, devices and file system nodes,
-- are red-black trees (include/infos/util/map.h), with handles or hashes of strings as keys. Memory is
-- handed out in pages (mm/page-allocator.cpp), among others for the page tables of a process
-- (mm/vma.cpp). Messages go through the formatted printing (util/printf.cpp).
--
-- The files. Each part has a module with the definitions, one for each function of the source and with
-- its name in snake case, and modules below it with the theorems, named for what they are about.
--   Prelude     shared names; Boolean tests; lists over the native numbers; Option for faults
--   Map         include/infos/util/map.h. A node's parent pointer is the path of crumbs from it to the
--               root; Map/Contents has the sorted list that a map stands for, Map/Shape the red-black
--               rules, Map/Rebalance the loop of rebalance_insert, Map/Owner and Map/AddAt the two
--               halves of add, Map/Laws and Map/Runs what callers see, Map/Height the depth, Map/Iterator
--               the loop over a map
--   LinkedList  include/infos/util/list.h, with the cached count
--   Sched       kernel/sched.cpp, with Thread::wake_up, sleep and activate of kernel/thread.cpp and
--               WakeQueue::wake of util/wakequeue.cpp; Sched/Clock the differences of time.h;
--               Sched/Runqueue the run queue, Sched/Waking and Sched/Setting that changes of state end;
--               Sched/Cfs the algorithm; Sched/Lawful what the scheduler needs of an algorithm, which
--               Sched/Cfs/Laws shows of this one
--   PageAlloc   mm/page-allocator.cpp over mm/simple-page-alloc.cpp
--   Memory      mm/mm.cpp and the start of mm/page-allocator.cpp; Memory/Blocks the blocks of physical
--               memory, Memory/Fill and Memory/Init the page descriptors after the start
--   Vma         mm/vma.cpp, the page tables; Vma/Entry their 64-bit entries, Vma/Tables the tree that
--               they form, but for the kernel's own links at the top, Vma/Ensure one level of insert_mapping, Vma/Walks the walk of get_mapping,
--               Vma/Insert and Vma/Returns the walk of insert_mapping, Vma/Laws both together,
--               Vma/Range the loop of allocate_virt
--   Objects     kernel/om.cpp, over Map
--   CommandLine util/cmdline.cpp
--   Locks       util/lock.cpp
--   Futex       the futex calls of kernel/syscall.cpp with Process::set_thread_waiting and
--               wake_up_threads of include/infos/kernel/process.h and util/wakequeue.cpp, as steps of
--               many threads; Futex/Exclusion and Futex/Sound what holds in every state, Futex/Faults
--               what is left of it when an exception leaves a call or a thread is stopped in one,
--               Futex/Release and Futex/Progress that no thread is stuck, Futex/Alone and Futex/Wakes
--               a call on its own, Futex/Lost a wake-up that is lost
--   Vfs         fs/vfs.cpp and fs/vfs-node.cpp over the nodes of fs/rootfs.cpp, fs/tmpfs.cpp and
--               fs/devfs.cpp; Vfs/Paths the names of a path, Vfs/Sound the nodes, Vfs/Children and
--               Vfs/Making get_child, mkdir and mount, Vfs/Lookups the look-ups, Vfs/Boot the part of
--               kernel/kernel.cpp that starts the file systems
--   Devices     kernel/device-manager.cpp and include/infos/drivers/device.h
--   Syscalls    kernel/syscall.cpp: Syscalls/Table the table of calls, Syscalls/Handles the calls on
--               files and directories, Syscalls/Secure what a handle gives to whom, Syscalls/Listing
--               a directory read through the calls, from Vfs/Listing and Directories
--   TimeOfDay   the clock of kernel/kernel.cpp
--   Directories fs/directory.cpp and the directories of fs/tmpfs.cpp and fs/devfs.cpp
--   Strings     util/string.cpp and include/infos/util/string.h
--   Printf      util/printf.cpp
--   Console     drivers/input/keyboard.cpp, drivers/console/virtual-console.cpp and
--               drivers/terminal/terminal.cpp
--
-- How the code corresponds. Objects that are changed in place are passed as records; a pointer to an
-- element of an array is its index, a pointer to a file system node or a device its number, a pointer
-- into memory its address or what stands there. An int may be given by its 32 bits. Numbers are natural numbers, with the wrap-around of a machine word written out where the source can reach
-- it. A failed `assert`, a null pointer that is followed and an access out of the bounds of an array
-- are `none`, so a theorem that gives `some` also shows that there is none of these.
--
-- Fuel. Map.rebalance_loop has one round more than the path is long, and each round goes up the path.
-- PageAlloc.search_from has a round for each descriptor and one more, and each round passes one.
-- Sched.set_entity_state takes fuel for the wake-ups that wake-ups cause; more than the number of
-- entities that are not runnable is enough, since each makes one of them runnable. Strings.split takes
-- a round for each character and one more; when it drops empty parts no number of rounds is enough for
-- some strings. CommandLine.parse_from and Vfs.lookup_from take a round for each character and one
-- more; Map.Iterator.entries_from and the reading of a directory a round for each entry and one more;
-- Devices.is_class a round for each parent; and as many as the depth of the classes are enough; TimeOfDay.count_seconds a round for each second and one
-- more. The futex calls are steps, without fuel. The other loops
-- are structural.
--
-- What is not modelled. The hardware and the assembly under arch/x86 and the device drivers that are
-- register accesses; the libraries copied from other projects (mm/dlmalloc.cpp, kernel/unwind-dw2.c);
-- text output; locks that only keep interrupts out around an operation that is one step here; the
-- system calls on processes and threads, and those that only hand their arguments on; processes and
-- the loader of programs; the file system of the boot disk; the handler of page faults, but for what
-- its exceptions do to a futex call. Functions of the assembly that the source calls, as memcpy and
-- pnzero, are written as what they store.
pub mod Prelude
pub mod Map
pub mod LinkedList
pub mod Sched
pub mod PageAlloc
pub mod Vma
pub mod Strings
pub mod Printf
pub mod Console
pub mod Objects
pub mod CommandLine
pub mod Locks
pub mod Futex
pub mod Memory
pub mod Syscalls
pub mod TimeOfDay
pub mod Vfs
pub mod Devices
pub mod Directories
