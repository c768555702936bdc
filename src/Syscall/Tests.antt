-- ===== src/Syscall/Tests.antt =====
-- Runs of module/syscall/main.c, and the theorems at a concrete kernel.
use modit_micro.Base.{
  none, ℕ, ◌-◌, ◌%◌, ◌≡◌, refl, arith, true, false, some, List, [], ◌∷◌, ◌==◌, if◌then◌else◌, min,
}
use modit_micro.Base.Bits.{bit-ones}
use modit_micro.Heap.{Heap, kalloc, kfree}
use modit_micro.User.{UserTask, new_task}
use modit_micro.Kernel.{Regs, VirtualAllocator, InitrdFile, Surroundings, Kernel, returns}
use modit_micro.Syscall.{
  minus, page_loop, syscall_print, syscall_reqio, syscall_initrd_read, syscall_handler,
  syscall_getpid,
}
use modit_micro.Syscall.Granted.{Granted}
use modit_micro.Syscall.Ports.{in_ports, port_blocked, Reblocked, reqio-blkio}
use modit_micro.Syscall.Pages.{pages_of, each_page, page_loop-each_page}
use modit_micro.Syscall.Ramdisk.{Copied, syscall_initrd_read-Copied}

-- Page tables as the list of all mappings, newest first.
abbrev Pages : Type 0
Pages = List (ℕ × ℕ)

abbrev lookup : ℕ → Pages → ℕ
lookup v [] = 0
lookup v ((phys, virt) ∷ ps) = if virt == v then phys else lookup v ps

abbrev list_pages : VirtualAllocator Pages
list_pages = record {
  getphys = lookup;
  remappg = λ phys virt flags ps. (phys, virt) ∷ ps;
  mappg = λ phys virt flags ps. (phys, (phys, virt) ∷ ps);
  allocpgs = λ virt n flags ps. (virt, (virt, virt) ∷ ps);
  freepgs = λ virt n ps. (0, virt) ∷ ps;
}

-- The file "ab" with 100 bytes.
abbrev file_ab : InitrdFile
file_ab = record { name = 97 ∷ 98 ∷ []; size = 100; data_start = λ j. j }

abbrev around : Surroundings Pages
around = record {
  virtual_allocator = list_pages;
  resvpg = λ phys t. t;
  files = file_ab ∷ [];
  behind = λ i. 0;
  fuel = 8;
}

abbrev caller : UserTask
caller = new_task 1 3 (λ i. 0)

abbrev regs : ℕ → ℕ → ℕ → Regs
regs num arg1 arg2 = record { num = num; arg1 = arg1; arg2 = arg2; arg3 = 0; arg4 = 0; arg5 = 0 }

abbrev empty_heap : Heap
empty_heap = record {
  bins = λ p. record { addr = 0; taken = false; size = 0; prev = 0; next = 0 };
  bin_tail = 0;
  bin_head = 0;
  bin_hiaddr = 0x1000;
  empty_head = 0;
  mapped = [];
}

-- All ports are blocked, and "ab" stands at 500.
abbrev kernel : Kernel Pages
kernel = record {
  users = record { next_pid = 2; utsk_list = new_task 0 7 (λ i. 0) ∷ caller ∷ [] };
  heap = empty_heap;
  tables = [];
  iobm = λ j. 255;
  state = regs 0 0 0;
  messages = λ p. record { dst = 0; src = 0; msgsz = 0; dat = 0; kdat = 0 };
  memory = λ p. if p == 500 then 97 else if p == 501 then 98 else 0;
  filled = [];
  screen = [];
}

all_blocked : (q : ℕ) → in_ports 0x60 5 q ≡ true → port_blocked (λ j. 255) q ≡ true
all_blocked q i = ground (arith, bit-ones 8 (q % 8) (omega arith))

reqio-blkio_example : Reblocked 0x60 5 caller kernel
reqio-blkio_example = reqio-blkio 0x60 5 caller kernel (omega arith) refl all_blocked

page_loop-each_page_example :
    page_loop (λ i (t : List ℕ). i ∷ t) 4 0x1800 0 []
    ≡ some (each_page (λ i (t : List ℕ). i ∷ t) (pages_of 0x1800) 0 [])
page_loop-each_page_example =
    page_loop-each_page (λ i (t : List ℕ). i ∷ t) 4 0x1800 [] (omega arith) (omega arith)

syscall_initrd_read-Copied_example :
    Copied file_ab 0x9000 90
      (min 50 (file_ab.size - 90))
      kernel
      (syscall_initrd_read around 0x9000 0 90 50 caller kernel)
syscall_initrd_read-Copied_example =
    syscall_initrd_read-Copied around file_ab 0x9000 0 90 50 caller kernel refl refl (omega arith)

-- An unknown number is left in its register.
unknown_run : syscall_handler around (regs 20 0 0) caller kernel ≡ returns (regs 20 0 0) kernel
unfolding syscall_handler
unknown_run = refl

getpid_run :
    syscall_handler around (regs 2 0 0) caller kernel
    ≡ returns (regs 1 0 0) (record kernel { state = regs 2 0 0 })
unfolding syscall_handler syscall_getpid
getpid_run = refl

-- Ports may not be asked for beyond 0xFF.
reqio_run :
    syscall_handler around (regs 3 0xF0 0x10) caller kernel
    ≡ returns
        (record (regs 3 0xF0 0x10) { num = minus 2 })
        (record kernel { state = regs 3 0xF0 0x10 })
unfolding syscall_handler syscall_reqio
reqio_run = refl

print_run :
    syscall_print around 500 caller kernel ≡ returns 0 (record kernel { screen = 97 ∷ 98 ∷ [] })
unfolding syscall_print
print_run = refl

-- One free bin of a page, and a message of 100 bytes at 0x7000.
abbrev one_bin : Heap
one_bin = record {
  bins = λ p.
      if p == 0x1000
      then record { addr = 0xE1000000; taken = false; size = 0x1000; prev = 0; next = 0 }
      else record { addr = 0; taken = false; size = 0; prev = 0; next = 0 };
  bin_tail = 0x1000;
  bin_head = 0x1000;
  bin_hiaddr = 0x1000;
  empty_head = 0;
  mapped = [];
}

abbrev ready : Kernel Pages
ready = record kernel {
  heap = one_bin;
  messages = λ p.
      if p == 0x7000
      then record { dst = 0; src = 0; msgsz = 100; dat = 0x1000; kdat = 0xE2000000 }
      else record { dst = 0; src = 0; msgsz = 0; dat = 0; kdat = 0 };
}

abbrev allocated : Heap
allocated = elim (kalloc 8 20 one_bin) [ none ↦ one_bin | some x ↦ x.1 ]

abbrev freed : Heap
freed = elim (kfree 8 0xE1000000 (record allocated { mapped = [] })) [ none ↦ one_bin | some x ↦ x ]

abbrev init : UserTask
init = new_task 0 7 (λ i. 0)
