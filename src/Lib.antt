-- ===== src/Lib.antt =====
-- A verification library for modit-micro, a 32-bit x86 kernel whose parts are modules that fill in
-- tables of functions of the kernel core (`physical_allocator`, `virtual_allocator`, the interrupt
-- tables), with user programs that ask for memory, tasks and messages by system calls. The
-- library follows the C code function by function and states what each part promises to the others.
--
-- Parts and files:
-- - Base: names of the libraries, Boolean tests on numbers, and the bits of a number (Base/Bits).
-- - Pmm (module/bmpmm/main.c): the allocator of physical pages. The record `Pmm` holds the bitmap, the
--   counters and the search mark; the entries of `physical_allocator` are functions on it, and `apply`
--   is one call. Pmm/Seek is the search, Pmm/Getpg and Pmm/Handout are `bm_getpg`, Pmm/Balance and
--   Pmm/Calls say how the counters follow the bitmap, Pmm/Blocks is about blocks of pages, Pmm/Init and
--   Pmm/Init/Balanced about `_pmm_init`, and Pmm/Faults is about calls that go wrong.
-- - Heap (module/heap/main.c, root/usr/include/module/heap.h): the kernel's heap. A `Heap` maps the
--   address of a header to the header, and holds the file's four pointers; each C function is a
--   function of the same name, with the heap in and out. Heap/Links has the doubly linked lists,
--   Heap/Bins the two lists of a heap, Heap/Adding and Heap/Remove take bins in and out, Heap/Tiles is
--   about the memory of the blocks, Heap/Fit is the search, Heap/Split, Heap/Alloc and Heap/Kalloc are
--   `kalloc`, Heap/Aligned is `kalloc_a`, Heap/Merge, Heap/Halves and Heap/Kfree are `kfree`, Heap/Calls follows any sequence of
--   calls, and Heap/Unique is about the lists that the headers determine.
-- - Message (module/message/main.c, root/usr/include/api/message.h): the ring of messages. Message/Queue
--   is the queue that it stands for, Message/Faults is about the cases where it is none.
-- - User (module/user/main.c, module/message/main.c): the table of user tasks, each with its ring, and
--   the calls that send and receive. User/Table is about ids and the loops over the table, User/Perms
--   about permissions, User/Messages about sending and receiving, User/Badges about the ids and
--   permissions that these leave.
-- - Kernel: the state that the system calls share (tasks, heap, pages, page tables, ports, messages), the
--   table `virtual_allocator`, and how a call ends. The page tables and the physical pages behind them are one
--   state, on which the entries of the table work.
-- - Syscall (module/syscall/main.c, root/usr/include/api/syscall.h): the twenty calls, their table and the
--   dispatch; `utsk` is the user task of the caller. A call that gives the processor away carries what it
--   does when it goes on with the kernel that it then finds. Syscall/Outcomes, Syscall/Granted and
--   Syscall/Permissions are about what a call may change, Syscall/Ports about the I/O bitmap,
--   Syscall/Pages about the loops over message pages, Syscall/Ramdisk about files, Syscall/Delivery
--   about a message on its way from one task to another.
-- - Tasking (module/tasking/main.c, root/usr/include/module/tasking.h): the round list of kernel tasks.
--   A task is known by its place. Tasking/RoundRobin is the choice of the next task, Tasking/Ticks the
--   clock tick that leads to it.
-- - Interrupt (module/idt/main.c, module/isr/main.c, module/irq/main.c,
--   root/usr/include/module/interrupt.h): the table of gates, the handlers and the nesting of critical
--   sections. Interrupt/Gates is the table that start-up leaves, Interrupt/Dispatch is about handlers,
--   Interrupt/Sections about `disable_interrupts` and `enable_interrupts`.
-- - Paging (module/paging/main.c): the two levels of page tables of the current address space, with the
--   physical allocator behind them. Tables and directory are words of page frames, and the code reaches a
--   table as the processor does, through the last directory entry. Paging/Views is what the tables say of
--   each page and when they are sound, Paging/Tables is about a new table, Paging/Stock about the pages it
--   takes, Paging/Translate is where an address is sent by `remappg` and `mappg`, Paging/Alloc and
--   Paging/Ranges are about pages that are taken, Paging/Releases about `freepg`.
-- - Processes (apps/procsvr/process_tree.c): the process server's tree. A node and the list of its
--   children are two types; the functions that search are one function with a test. Processes/Search
--   compares them with a search of a list, Processes/Adding is about `proc_add`.
-- - Print (lib/libc/stdio/print.c): what `vfprintf` writes; Print/Numbers reads the numbers again.
-- - Segments (module/gdt/main.c, root/usr/include/module/gdt.h): segment descriptors and the task state
--   segment. Segments/Descriptors is what the processor reads from a descriptor.
-- - Lists (module/dthelper/list.c, root/usr/include/module/datatype/list.h): doubly linked lists, plain and
--   round. A `Store` has the nodes and the lists by address. Lists/Chain says for which sequence a list
--   stands, Lists/Push is `list_push`, Lists/Index is `list_at` and `list_find`, Lists/Between and
--   Lists/Insert are `list_insert`, Lists/Freeing is about nodes that are freed.
-- - UserHeap (lib/libc/stdlib/heap.c): the heap of user programs, modelled as the kernel's, from which the
--   code differs. UserHeap/Fit is the search, UserHeap/Malloc is `malloc`, UserHeap/Damage is about
--   headers and memory that are handed out twice.
-- - Elf (module/user/elf.c, root/usr/include/elf.h): the loading of a program. A `Machine` has the bytes by
--   address; Elf/Loading says what stands where afterwards.
-- - Arguments (lib/libc/sys/argconst.c): the stack with the arguments of a program; Arguments/Texts says
--   where they stand.
-- - Acpi (module/acpi/rsdt.c, module/acpi/main.c): the search for the ACPI tables, Acpi/Search, and the
--   pages that they are mapped to, Acpi/Relocation.
-- - Logger (module/logger/print.c): the texts of the kernel's messages. Logger/Digits is about the digits of a
--   number, Logger/Powers about the power of the base that they begin with, Logger/Readable reads the
--   number again.
-- - In each part, Tests runs the code and the theorems on concrete data.
--
-- How the code is read: a `uint32_t` is a natural number with its wrap-around written out, a pointer is
-- an address and NULL is 0, a store changes one field of one header. A loop over a list of headers takes
-- fuel, and `none` means that the fuel ran out or that the code would fault. The fuel chosen is one more
-- than the number of bins for the walks of `kalloc`, and one more than twice the bins and once the empty
-- headers for `kfree`, since every merge makes that number smaller; a switch of tasks takes as much as
-- there are tasks. A search of a list, `malloc` and the loop over program headers take one round more than
-- there are nodes, bins and headers, and `delete_list` as many as there are nodes. `l_itoa` takes 34
-- rounds in each of its loops, two more than a 32-bit word has digits. The memory behind a message array
-- is part of its ring's `buffer`, since the code can read it. A call that gives the processor away is
-- cut in two there (`Send`, `Receive`), and other calls may stand between the halves.
--
-- Not modelled: the locks (the functions run one at a time), the screen and the port that the kernel
-- prints to, the first page of the ACPI table, and outside Paging the mapping of pages, which is
-- recorded as a list of calls or is a function of the record `VirtualAllocator`. Message structures and
-- the other bytes of user memory are two stores, so that a message that overlaps them is not followed.
-- Of user tasks, the stacks, the kernel memory and the page directory of a new task, and `user_exec`
-- are left out. The copying of address spaces, the clocks, whose periods are floating-point numbers,
-- drivers, and the other user programs and library functions have no file here.
pub mod Base
pub mod Acpi
pub mod Arguments
pub mod Elf
pub mod Heap
pub mod Interrupt
pub mod Kernel
pub mod Lists
pub mod Logger
pub mod Message
pub mod Paging
pub mod Pmm
pub mod Print
pub mod Processes
pub mod Segments
pub mod Syscall
pub mod Tasking
pub mod User
pub mod UserHeap
