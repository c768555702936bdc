-- ===== src/Syscall.antt =====
-- module/syscall/main.c: the system calls and their dispatch.
pub mod Outcomes
pub mod Granted
pub mod Permissions
pub mod Ports
pub mod Pages
pub mod Ramdisk
pub mod Delivery
mod Tests
use modit_micro.Base.{
  ℕ, zero, suc, ◌+◌, ◌-◌, ◌*◌, ◌/◌, ◌%◌, ◌^◌, Bool, true, false, not, ◌&&◌, Option, none, some,
  List, [], ◌∷◌, ◌++◌, length, leb, ltb, ◌==◌, if◌then◌else◌, bit_and, bit_or,
}
use modit_micro.Heap.{Heap, kalloc, kfree}
use modit_micro.Heap.Aligned.{kalloc_a}
use modit_micro.User.{
  UserTask, user_spawn, user_fork, deliver, Send, not_found, busy, waits, sent, message_async_send,
  Receive, sleeps, takes, message_async_recv, message_async_recv_poll,
}
use modit_micro.Kernel.{
  Regs, Message, VirtualAllocator, InitrdFile, Surroundings, Kernel, Outcome, returns, gives_away,
  faults,
}

-- The error code `-n` in a 32-bit register.
abbrev pub minus : ℕ → ℕ
minus n = 2 ^ 32 - n

abbrev pub user_perm_io : ℕ
user_perm_io = 1

abbrev pub user_perm_ird : ℕ
user_perm_ird = 2

abbrev pub user_perm_mem : ℕ
user_perm_mem = 4

-- `(utsk->perms & perm) == 0`.
abbrev pub lacks : ℕ → UserTask → Bool
lacks perm utsk = bit_and utsk.perms perm == 0

-- The string at `p`, up to its terminating 0.
pub string_at : ℕ → ℕ → (ℕ → ℕ) → Option (List ℕ)
string_at zero p memory = none
string_at (suc fuel) p memory =
    let rest = string_at fuel (p + 1) memory in
    if memory p == 0 then some [] else elim rest [ none ↦ none | some cs ↦ some (memory p ∷ cs) ]

pub syscall_print : {T : Type 0} → Surroundings T → ℕ → UserTask → Kernel T → Outcome T ℕ
unfolding string_at
syscall_print e msg utsk k = elim (string_at e.fuel msg k.memory) [
  | none ↦ faults
  | some cs ↦ returns 0 (record k { screen = k.screen ++ cs })
]

pub syscall_getperms : {T : Type 0} → UserTask → Kernel T → Outcome T ℕ
syscall_getperms utsk k = returns utsk.perms k

pub syscall_getpid : {T : Type 0} → UserTask → Kernel T → Outcome T ℕ
syscall_getpid utsk k = returns utsk.pid k

-- The loops' bodies: a port whose bit is 1 is blocked.
pub open_port : ℕ → (ℕ → ℕ) → ℕ → ℕ
open_port i iobm j = if i / 8 == j then bit_and (iobm j) (2 ^ 8 - 1 - 2 ^ (i % 8)) else iobm j

pub block_port : ℕ → (ℕ → ℕ) → ℕ → ℕ
block_port i iobm j = if i / 8 == j then bit_or (iobm j) (2 ^ (i % 8)) else iobm j

pub port_loop : (ℕ → (ℕ → ℕ) → ℕ → ℕ) → ℕ → ℕ → (ℕ → ℕ) → ℕ → ℕ
port_loop body zero i iobm = iobm
port_loop body (suc n) i iobm = port_loop body n (i + 1) (body i iobm)

pub change_ports : {T : Type 0} → (ℕ → (ℕ → ℕ) → ℕ → ℕ) → ℕ → ℕ → UserTask → Kernel T → Outcome T ℕ
unfolding port_loop
change_ports body base len utsk k =
    if ltb 0xFF (base + len)
    then returns (minus 2) k
    else if lacks user_perm_io utsk
    then returns (minus 1) k
    else returns 0 (record k { iobm = port_loop body len base k.iobm })

pub syscall_reqio : {T : Type 0} → ℕ → ℕ → UserTask → Kernel T → Outcome T ℕ
unfolding change_ports open_port
syscall_reqio base len utsk k = change_ports open_port base len utsk k

pub syscall_blkio : {T : Type 0} → ℕ → ℕ → UserTask → Kernel T → Outcome T ℕ
unfolding change_ports block_port
syscall_blkio base len utsk k = change_ports block_port base len utsk k

-- The pages that the heap asked for are mapped, in the order of its calls.
abbrev pub map_heap : {T : Type 0} → VirtualAllocator T → List (ℕ × ℕ) → T → T
map_heap va [] t = t
map_heap va ((addr, n) ∷ calls) t = (va.allocpgs addr n 3 (map_heap va calls t)).1

abbrev pub settle : {T : Type 0} → Surroundings T → Heap → Kernel T → Kernel T
settle e h k = record k {
  heap = record h { mapped = [] };
  tables = map_heap e.virtual_allocator h.mapped k.tables;
}

-- `for(size_t i = 0; i < size; i += 0x1000)`.
pub page_loop : {T : Type 0} → (ℕ → T → T) → ℕ → ℕ → ℕ → T → Option T
page_loop body zero size i t = none
page_loop body (suc fuel) size i t =
    let rest = page_loop body fuel size ((i + 0x1000) % 2 ^ 32) (body i t) in
    if ltb i size then rest else some t

-- Page `i` of a message buffer becomes a page of the task.
abbrev pub share_page : {T : Type 0} → VirtualAllocator T → Message → ℕ → ℕ → T → T
share_page va m flags i t =
    va.remappg (va.getphys ((m.kdat + i) % 2 ^ 32) t) ((i + m.dat) % 2 ^ 32) flags t

abbrev pub take_page_away : {T : Type 0} → VirtualAllocator T → Message → ℕ → T → T
take_page_away va m i t = va.remappg 0 ((i + m.dat) % 2 ^ 32) 0 t

abbrev pub write_message : {T : Type 0} → ℕ → Message → Kernel T → Kernel T
write_message p m k = record k { messages = λ q. if p == q then m else k.messages q }

-- The loops of the message calls, and what follows them.
pub remap :
    {T : Type 0}
    → Surroundings T
    → (ℕ → T → T)
    → ℕ
    → Kernel T
    → (Kernel T → Outcome T ℕ)
    → Outcome T ℕ
unfolding page_loop
remap e body size k next = elim (page_loop body e.fuel size 0 k.tables) [
  | none ↦ faults
  | some t ↦ next (record k { tables = t })
]

pub syscall_msg_req : {T : Type 0} → Surroundings T → ℕ → ℕ → UserTask → Kernel T → Outcome T ℕ
unfolding remap
syscall_msg_req e bufsz msgbuf utsk k =
    let size = (bufsz + 0xFFF) / 0x1000 * 0x1000 in
    if msgbuf == 0
    then returns (minus 1) k
    else if ltb 0xFF000 bufsz
    then returns (minus 2) k
    else elim (kalloc_a e.fuel size 0x1000 k.heap) [
      | none ↦ faults
      | some (kdat, h) ↦
          (let m = record (k.messages msgbuf) { src = utsk.pid; dat = 0x1000; kdat = kdat } in
            remap e (share_page e.virtual_allocator m 7) size
              (write_message msgbuf m (settle e h k)) (returns 0))
    ]

pub syscall_msg_free : {T : Type 0} → Surroundings T → ℕ → UserTask → Kernel T → Outcome T ℕ
syscall_msg_free e msg utsk k =
    if msg == 0
    then returns (minus 1) k
    else if (k.messages msg).kdat == 0
    then returns (minus 1) k
    else elim (kfree e.fuel (k.messages msg).kdat k.heap) [
      | none ↦ faults
      | some h ↦ returns 0 (record k { heap = h })
    ]

-- What `syscall_msg_send` returns does not depend on the answer of `message_async_send`.
pub after_send : {T : Type 0} → ℕ → ℕ → Kernel T → Send → Outcome T ℕ
after_send kmsg pid k not_found = returns 0 k
after_send kmsg pid k busy = returns 0 k
after_send kmsg pid k (waits u) =
    gives_away (record k { users = u })
      (λ k'. returns 0 (record k' { users = deliver kmsg pid k'.users }))
after_send kmsg pid k (sent u) = returns 0 (record k { users = u })

pub send_copy : {T : Type 0} → ℕ → ℕ → UserTask → Kernel T → Outcome T ℕ
unfolding after_send
send_copy kmsg pid utsk k = elim (message_async_send kmsg utsk.pid pid k.users) [
  | none ↦ faults
  | some r ↦ after_send kmsg pid k r
]

pub syscall_msg_send : {T : Type 0} → Surroundings T → ℕ → ℕ → UserTask → Kernel T → Outcome T ℕ
unfolding remap send_copy
syscall_msg_send e msg pid utsk k =
    let m = record (k.messages msg) { src = utsk.pid; dst = pid } in
    if msg == 0
    then returns (minus 1) k
    else if leb 0xFF000 (k.messages msg).msgsz
    then returns (minus 2) k
    else elim (kalloc e.fuel 20 k.heap) [
      | none ↦ faults
      | some (kmsg, h) ↦
          remap e (take_page_away e.virtual_allocator m) m.msgsz
            (write_message kmsg m (settle e h (write_message msg m k))) (send_copy kmsg pid utsk)
    ]

-- The header `m` at `kmsg` is moved to `msg`.
pub move_header : {T : Type 0} → Surroundings T → ℕ → ℕ → Message → Kernel T → Outcome T ℕ
move_header e msg kmsg m k = elim (kfree e.fuel kmsg k.heap) [
  | none ↦ faults
  | some h ↦ returns 0 (record (write_message msg m k) { heap = h })
]

-- The pages of the message `kmsg` are given to the caller.
pub hand_over : {T : Type 0} → Surroundings T → ℕ → ℕ → ℕ → Kernel T → Outcome T ℕ
unfolding remap move_header
hand_over e flags msg kmsg k =
    let m = k.messages kmsg in
    remap e (share_page e.virtual_allocator m flags) m.msgsz k (move_header e msg kmsg m)

abbrev pub receive : {T : Type 0} → Surroundings T → ℕ → ℕ → Kernel T → Outcome T ℕ
receive e msg kmsg k = if kmsg == 0 then faults else hand_over e 7 msg kmsg k

pub after_recv : {T : Type 0} → Surroundings T → ℕ → UserTask → Kernel T → Receive → Outcome T ℕ
unfolding hand_over
after_recv e msg utsk k (sleeps u) =
    gives_away (record k { users = u })
      (λ k'. elim (message_async_recv_poll utsk.pid k'.users) [
        | none ↦ faults
        | some (kmsg, u') ↦ receive e msg kmsg (record k' { users = u' })
      ])
after_recv e msg utsk k (takes kmsg u) = receive e msg kmsg (record k { users = u })

pub syscall_msg_recv : {T : Type 0} → Surroundings T → ℕ → UserTask → Kernel T → Outcome T ℕ
unfolding after_recv
syscall_msg_recv e msg utsk k =
    if msg == 0 then returns (minus 1) k else elim (message_async_recv utsk.pid k.users) [
      | none ↦ faults
      | some r ↦ after_recv e msg utsk k r
    ]

pub syscall_msg_poll : {T : Type 0} → Surroundings T → ℕ → UserTask → Kernel T → Outcome T ℕ
unfolding hand_over
syscall_msg_poll e msg utsk k =
    if msg == 0 then returns (minus 1) k else elim (message_async_recv_poll utsk.pid k.users) [
      | none ↦ faults
      | some (kmsg, u) ↦
          if kmsg == 0
          then returns (minus 2) (record k { users = u })
          else hand_over e 5 msg kmsg (record k { users = u })
    ]

-- The kernel memory and the page directory that `user_spawn` and `user_fork` take for a task are not followed.
pub syscall_spawn : {T : Type 0} → Surroundings T → UserTask → Kernel T → Outcome T ℕ
syscall_spawn e utsk k =
    let out = user_spawn utsk.perms e.behind (some utsk) k.users in
    returns (elim out.0 [ none ↦ minus 1 | some t ↦ t.pid ]) (record k { users = out.1 })

pub syscall_fork : {T : Type 0} → Surroundings T → UserTask → Kernel T → Outcome T ℕ
syscall_fork e utsk k =
    let out = user_fork e.behind utsk k.users in returns out.0 (record k { users = out.1 })

pub syscall_exec : {T : Type 0} → Surroundings T → ℕ → UserTask → Kernel T → Outcome T ℕ
syscall_exec e file utsk k =
    let out = user_spawn utsk.perms e.behind (some utsk) k.users in
    if file == 0
    then returns (minus 1) k
    else returns (elim out.0 [ none ↦ 0 | some t ↦ 1 ]) (record k { users = out.1 })

pub syscall_initrd_getfc : {T : Type 0} → Surroundings T → UserTask → Kernel T → Outcome T ℕ
syscall_initrd_getfc e utsk k =
    if lacks user_perm_ird utsk then returns (minus 1) k else returns (length e.files) k

-- `strcmp(name, p) == 0`.
pub same_name : List ℕ → ℕ → (ℕ → ℕ) → Bool
same_name [] p memory = memory p == 0
same_name (c ∷ cs) p memory = let rest = same_name cs (p + 1) memory in memory p == c && rest

-- The number of the first file with the name, or of files.
pub find_file : ℕ → (ℕ → ℕ) → List InitrdFile → ℕ
unfolding same_name
find_file p memory [] = 0
find_file p memory (f ∷ fs) =
    let rest = find_file p memory fs in if same_name f.name p memory then 0 else suc rest

pub syscall_initrd_getf : {T : Type 0} → Surroundings T → ℕ → ℕ → UserTask → Kernel T → Outcome T ℕ
unfolding find_file
syscall_initrd_getf e buf name utsk k =
    let fi = find_file name k.memory e.files in
    if lacks user_perm_ird utsk
    then returns (minus 1) k
    else if leb (length e.files) fi
    then returns (minus 2) k
    else if buf == 0
    then returns (minus 3) k
    else returns fi (record k { filled = (buf, fi) ∷ k.filled })

abbrev pub entry : {A : Type 0} → ℕ → List A → Option A
entry i [] = none
entry zero (x ∷ xs) = some x
entry (suc i) (x ∷ xs) = entry i xs

-- `memcpy(buf, from, len)`.
pub copy_bytes : ℕ → (ℕ → ℕ) → ℕ → (ℕ → ℕ) → ℕ → ℕ
copy_bytes buf from len memory q =
    if leb buf q && ltb q (buf + len) then from (q - buf) else memory q

-- How many bytes `initrd_read` copies; `base + len` is a sum of 32 bits.
pub read_length : ℕ → ℕ → ℕ → ℕ
read_length size base len =
    if leb size base then 0 else if leb size ((base + len) % 2 ^ 32) then size - base else len

pub syscall_initrd_read :
    {T : Type 0} → Surroundings T → ℕ → ℕ → ℕ → ℕ → UserTask → Kernel T → Outcome T ℕ
unfolding copy_bytes read_length
syscall_initrd_read e buf i base len utsk k =
    if lacks user_perm_ird utsk then returns (minus 1) k else elim (entry i e.files) [
      | none ↦ returns (minus 2) k
      | some f ↦
          (let n = read_length f.size base len in
            returns n
              (record k { memory = copy_bytes buf (λ j. f.data_start (base + j)) n k.memory }))
    ]

pub syscall_resvpg : {T : Type 0} → Surroundings T → ℕ → UserTask → Kernel T → Outcome T ℕ
syscall_resvpg e phys utsk k =
    if lacks user_perm_mem utsk
    then returns (minus 1) k
    else returns 0 (record k { tables = e.resvpg phys k.tables })

-- The guards of the calls on the caller's own pages.
abbrev pub guarded : {T : Type 0} → ℕ → UserTask → Kernel T → ℕ × T → Outcome T ℕ
guarded virt utsk k out =
    if lacks user_perm_mem utsk
    then returns (minus 1) k
    else if leb 0xD8000000 virt
    then returns (minus 2) k
    else returns out.0 (record k { tables = out.1 })

-- The first argument of `virtual_allocator->mappg` is the physical address, but is given `virt`.
pub syscall_mappg : {T : Type 0} → Surroundings T → ℕ → ℕ → ℕ → UserTask → Kernel T → Outcome T ℕ
syscall_mappg e virt phys flgs utsk k =
    guarded virt utsk k (e.virtual_allocator.mappg virt phys flgs k.tables)

pub syscall_allocpgs : {T : Type 0} → Surroundings T → ℕ → ℕ → ℕ → UserTask → Kernel T → Outcome T ℕ
syscall_allocpgs e virt cnt flgs utsk k =
    guarded virt utsk k (e.virtual_allocator.allocpgs virt cnt flgs k.tables)

pub syscall_freepgs : {T : Type 0} → Surroundings T → ℕ → ℕ → UserTask → Kernel T → Outcome T ℕ
syscall_freepgs e virt cnt utsk k =
    guarded virt utsk k (0, e.virtual_allocator.freepgs virt cnt k.tables)

-- `scalls`. A 16-bit parameter is the low half of its register.
pub scalls : {T : Type 0} → Surroundings T → List (Regs → UserTask → Kernel T → Outcome T ℕ)
scalls e =
    (λ r. syscall_print e r.arg1)
    ∷ (λ r. syscall_getperms)
    ∷ (λ r. syscall_getpid)
    ∷ (λ r. syscall_reqio (r.arg1 % 2 ^ 16) (r.arg2 % 2 ^ 16))
    ∷ (λ r. syscall_blkio (r.arg1 % 2 ^ 16) (r.arg2 % 2 ^ 16))
    ∷ (λ r. syscall_msg_req e r.arg1 r.arg2)
    ∷ (λ r. syscall_msg_free e r.arg1)
    ∷ (λ r. syscall_msg_send e r.arg1 r.arg2)
    ∷ (λ r. syscall_msg_recv e r.arg1)
    ∷ (λ r. syscall_msg_poll e r.arg1)
    ∷ (λ r. syscall_spawn e)
    ∷ (λ r. syscall_fork e)
    ∷ (λ r. syscall_exec e r.arg1)
    ∷ (λ r. syscall_initrd_getfc e)
    ∷ (λ r. syscall_initrd_getf e r.arg1 r.arg2)
    ∷ (λ r. syscall_initrd_read e r.arg1 r.arg2 r.arg3 r.arg4)
    ∷ (λ r. syscall_resvpg e r.arg1)
    ∷ (λ r. syscall_mappg e r.arg1 r.arg2 r.arg3)
    ∷ (λ r. syscall_allocpgs e r.arg1 r.arg2 r.arg3)
    ∷ (λ r. syscall_freepgs e r.arg1 r.arg2)
    ∷ []

-- `r->num = ret` when the call returns.
pub answer : {T : Type 0} → Regs → Outcome T ℕ → Outcome T Regs
answer r (returns ret k) = returns (record r { num = ret }) k
answer r (gives_away k next) = gives_away k (λ k'. answer r (next k'))
answer r faults = faults

pub syscall_handler : {T : Type 0} → Surroundings T → Regs → UserTask → Kernel T → Outcome T Regs
unfolding scalls answer
syscall_handler e r utsk k = elim (entry r.num (scalls e)) [
  | none ↦ returns r k
  | some sc ↦ answer r (sc r utsk (record k { state = r }))
]
