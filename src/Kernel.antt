-- ===== src/Kernel.antt =====
-- The state that the system calls of module/syscall/main.c work on, and the function table
-- `virtual_allocator` of the kernel core, whose entries module/paging/main.c fills in.
use modit_micro.Base.{ℕ, List}
use modit_micro.Heap.{Heap}
use modit_micro.User.{Users}

-- `syscall_state_t`, the registers that a call reads or writes. The others are kept as they are.
pub record Regs : Type 0 where
  pub num : ℕ
  pub arg1 : ℕ
  pub arg2 : ℕ
  pub arg3 : ℕ
  pub arg4 : ℕ
  pub arg5 : ℕ

-- `message_t`.
pub record Message : Type 0 where
  pub dst : ℕ
  pub src : ℕ
  pub msgsz : ℕ
  pub dat : ℕ
  pub kdat : ℕ

-- The entries of `virtual_allocator` that are called, on `T`, the page tables with the pages of the
-- physical allocator behind them. A page is mapped by its
-- physical address, its virtual address and flags.
pub record VirtualAllocator (T : Type 0) : Type 0 where
  pub getphys : ℕ → T → ℕ
  pub remappg : ℕ → ℕ → ℕ → T → T
  pub mappg : ℕ → ℕ → ℕ → T → ℕ × T
  pub allocpgs : ℕ → ℕ → ℕ → T → ℕ × T
  pub freepgs : ℕ → ℕ → T → T

-- `initrd_file_t`; `data` is the memory from `data_start` on, of which the file is the first `size`
-- bytes.
pub record InitrdFile : Type 0 where
  pub name : List ℕ
  pub size : ℕ
  pub data_start : ℕ → ℕ

-- What the calls find around them: the page functions, `resvpg` of `physical_allocator`, the ramdisk, what stands in memory behind the
-- ring of a new task, and the fuel of loops.
pub record Surroundings (T : Type 0) : Type 0 where
  pub virtual_allocator : VirtualAllocator T
  pub resvpg : ℕ → T → T
  pub files : List InitrdFile
  pub behind : ℕ → ℕ
  pub fuel : ℕ

-- `iobm` is the I/O bitmap of the task that runs, by bytes, and `state` the saved registers of its
-- user task. `messages` are the message structures by address, `memory` the other bytes of user
-- memory, `filled` the file structures that were copied out with the number of the file, `screen`
-- what was printed.
pub record Kernel (T : Type 0) : Type 0 where
  pub users : Users
  pub heap : Heap
  pub tables : T
  pub iobm : ℕ → ℕ
  pub state : Regs
  pub messages : ℕ → Message
  pub memory : ℕ → ℕ
  pub filled : List (ℕ × ℕ)
  pub screen : List ℕ

-- A call returns, or gives the processor away and goes on with the kernel that it then finds, or
-- faults.
pub data Outcome (T A : Type 0) : Type 0 where
  returns : A → Kernel T → Outcome T A
  gives_away : Kernel T → (Kernel T → Outcome T A) → Outcome T A
  faults : Outcome T A
