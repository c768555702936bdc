-- ===== src/Interrupt/Dispatch.antt =====
-- The handlers of module/isr/main.c and module/irq/main.c, and who is told that an interrupt is done.
use modit_micro.Base.{
  ==-self, ==-false, Bool-cases, ℕ, ◌+◌, ◌≤◌, ◌<◌, ◌≡◌, ◌≢◌, refl, inl, inr, false, arith, [], ◌∷◌,
  leb, ltb, ◌==◌, if◌then◌else◌,
}
use modit_micro.Interrupt.{
  outb, calls, Handlers, isr_add_handler, irq_add_handler, isr_handler, irq_handler, irq_of,
}

-- The handler that a module added is called for its interrupt, and all others are as before.
pub added_handlers :
    (i handler j : ℕ) (isrs irqs : Handlers)
    → handler ≢ 0
    → i < 32
    → j < 32
    → (isr_handler (isr_add_handler i handler isrs) j
        ≡ (if i == j then calls handler ∷ [] else isr_handler isrs j))
      × (irq_handler (irq_add_handler i handler irqs) (j + 32)
          ≡ (if i == j then calls handler ∷ [] else irq_handler irqs (j + 32)))
unfolding isr_handler isr_add_handler irq_handler irq_add_handler
added_handlers i handler j isrs irqs nz l m =
    let in_table : leb 32 i ≡ false = ground arith in
    let at : irq_of (j + 32) ≡ j = omega arith in
    let set : (handler == 0) ≡ false = ==-false nz in
    elim (Bool-cases (i == j)) [
      | inl y ↦ (rw (in_table, y, set) refl, rw (at, y, set) refl)
      | inr n ↦ (rw (in_table, n) refl, rw (at, n) refl)
    ]

-- What is done for a hardware interrupt without a handler: line `i` of the second controller is
-- acknowledged there and at the first one, a line of the first one at it alone.
pub irq_handler_acknowledges :
    (hs : Handlers) (i : ℕ)
    → hs i ≡ 0
    → i < 224
    → irq_handler hs (i + 32) ≡ (
        if ltb i 8
        then outb 0x20 0x20 ∷ []
        else if ltb i 16
        then outb 0xA0 0x20 ∷ outb 0x20 0x20 ∷ []
        else [])
unfolding irq_handler
irq_handler_acknowledges hs i z l =
    let at : irq_of (i + 32) ≡ i = omega arith in rw (at, z) (ground arith)

-- `irq_add_handler` for a number from 224 on leaves all 224 handlers alone and writes behind them.
pub irq_add_handler_overruns :
    (i handler : ℕ) (hs : Handlers)
    → 224 ≤ i
    → ((j : ℕ) → j < 224 → irq_add_handler i handler hs j ≡ hs j)
      × (irq_add_handler i handler hs i ≡ handler)
unfolding irq_add_handler
irq_add_handler_overruns i handler hs far = (
  λ j l.
      (let apart : (i == j) ≡ false = ==-false {a = i} {b = j} (λ e. absurd (omega (arith, far))) in
        rw apart refl),
  rw (==-self i) refl,
)
