-- ===== src/Interrupt.antt =====
-- module/idt/main.c, module/isr/main.c, module/irq/main.c and module/interrupt.h: the table of interrupt
-- gates, the handlers that modules add, and the nesting of critical sections. `syscall_init` of
-- module/syscall/main.c makes the last gate.
pub mod Gates
pub mod Dispatch
pub mod Sections
mod Tests
use modit_micro.Base.{
  ℕ, zero, suc, ◌+◌, ◌-◌, ◌*◌, ◌/◌, ◌%◌, ◌^◌, Bool, true, false, List, [], ◌∷◌, ◌++◌, leb, ltb,
  ◌==◌, if◌then◌else◌,
}

-- `idt_entry_t`.
pub record IdtEntry : Type 0 where
  pub offset_low : ℕ
  pub selector : ℕ
  pub zero_byte : ℕ
  pub flags : ℕ
  pub offset_high : ℕ

-- `_idt.entries`.
abbrev pub Idt : Type 0
Idt = ℕ → IdtEntry

pub idt_create_entry : ℕ → ℕ → ℕ → ℕ → Idt → Idt
idt_create_entry i func selector flags idt j =
    if i == j
    then record {
      offset_low = func % 2 ^ 16;
      selector = selector;
      zero_byte = (idt j).zero_byte;
      flags = flags;
      offset_high = func / 2 ^ 16 % 2 ^ 16;
    }
    else idt j

-- `idt_init`, with the table cleared. `idt_ptr_t` is a size and an address.
pub idt_init : Idt
idt_init j = record { offset_low = 0; selector = 0; zero_byte = 0; flags = 0; offset_high = 0 }

pub setup_idt : ℕ → ℕ × ℕ
setup_idt entries = (8 * 256 - 1, entries)

-- `n` calls `idt_createEntry(i, f, 0x08, 0x8E)`, which the source writes out: the gates from `i` on lead to
-- the entry points `stub 0`, `stub 1` and so on.
pub create_gates : ℕ → ℕ → ℕ → (ℕ → ℕ) → Idt → Idt
unfolding idt_create_entry
create_gates zero i s stub idt = idt
create_gates (suc n) i s stub idt =
    create_gates n (i + 1) (s + 1) stub (idt_create_entry i (stub s) 0x08 0x8E idt)

pub isr_init : (ℕ → ℕ) → Idt → Idt
isr_init isr idt = create_gates 32 0 0 isr idt

pub irq_gates : (ℕ → ℕ) → Idt → Idt
irq_gates irq idt = create_gates 224 32 0 irq idt

pub syscall_init : ℕ → Idt → Idt
syscall_init isr_77_syscall idt = idt_create_entry 0x4D isr_77_syscall 0x08 (0x8E + 0x60) idt

-- What the processor is made to do: a byte to a port, the call of a handler, an error screen, a stop.
pub data Event : Type 0 where
  outb : ℕ → ℕ → Event
  calls : ℕ → Event
  panics : ℕ → Event
  halts : Event

-- The words from `_handlers` on, of which the array is the first 32 (isr) or 224 (irq).
abbrev pub Handlers : Type 0
Handlers = ℕ → ℕ

abbrev pub write_handler : ℕ → ℕ → Handlers → Handlers
write_handler i handler hs j = if i == j then handler else hs j

pub isr_add_handler : ℕ → ℕ → Handlers → Handlers
isr_add_handler i handler hs = if leb 32 i then hs else write_handler i handler hs

pub irq_add_handler : ℕ → ℕ → Handlers → Handlers
irq_add_handler i handler hs = write_handler i handler hs

-- The numbers of the cases of `_unhandled_exception`, and 256 for the last case.
pub unhandled_case : ℕ → ℕ
unhandled_case n =
    if n == 0
    then 0
    else if n == 2
    then 2
    else if n == 4
    then 4
    else if n == 5
    then 5
    else if n == 6
    then 6
    else if n == 7
    then 7
    else if n == 8
    then 8
    else if n == 10
    then 10
    else if n == 11
    then 11
    else if n == 12
    then 12
    else if n == 13
    then 13
    else if n == 14
    then 14
    else 256

pub isr_handler : Handlers → ℕ → List Event
unfolding unhandled_case
isr_handler hs num =
    if hs num == 0 then panics (unhandled_case num) ∷ halts ∷ [] else calls (hs num) ∷ []

-- `state->num - 32`.
abbrev pub irq_of : ℕ → ℕ
irq_of num = (num + 2 ^ 32 - 32) % 2 ^ 32

pub irq_handler : Handlers → ℕ → List Event
irq_handler hs num =
    let i = irq_of num in
    if hs i == 0
    then (if leb 16 i
        then []
        else if leb 8 i
        then outb 0xA0 0x20 ∷ outb 0x20 0x20 ∷ []
        else outb 0x20 0x20 ∷ [])
    else calls (hs i) ∷ []

-- The programming of the two interrupt controllers at the end of `irq_init`.
pub irq_init_ports : List Event
irq_init_ports =
    outb 0x20 0x11
    ∷ outb 0xA0 0x11
    ∷ outb 0x21 0x20
    ∷ outb 0xA1 0x28
    ∷ outb 0x21 0x04
    ∷ outb 0xA1 0x02
    ∷ outb 0x21 0x01
    ∷ outb 0xA1 0x01
    ∷ outb 0x21 0x0
    ∷ outb 0xA1 0x0
    ∷ []

-- `interrupt_disable_depth`, which is never negative between calls, and the processor's interrupt flag.
pub record Depth : Type 0 where
  pub depth : ℕ
  pub enabled : Bool

pub disable_interrupts : Depth → Depth
disable_interrupts s = record {
  depth = s.depth + 1;
  enabled = if ltb s.depth 1 then false else s.enabled;
}

-- From 0 the counter goes to -1 and back to 0.
pub enable_interrupts : Depth → Depth
enable_interrupts s = record {
  depth = s.depth - 1;
  enabled = if leb s.depth 1 then true else s.enabled;
}

-- `irq_init`: the gates, the controllers and the first `enable_interrupts`.
pub irq_init : (ℕ → ℕ) → Idt → Depth → Idt × List Event × Depth
irq_init irq idt s = (irq_gates irq idt, irq_init_ports, enable_interrupts s)
