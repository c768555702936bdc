-- ===== src/Interrupt/Gates.antt =====
-- The gates that module/isr/main.c, module/irq/main.c and module/syscall/main.c make.
use modit_micro.Base.{
  ℕ, zero, suc, ◌+◌, ◌-◌, ◌*◌, ◌/◌, ◌%◌, ◌^◌, ◌≤◌, ◌<◌, ◌≡◌, refl, sym, ◌∙◌, ap, ◌⊎◌, inl, inr,
  Bool, true, false, arith, ltb, ◌==◌, if◌then◌else◌, Bool-cases, ==-cases, ==-self, ==-false,
  subst,
}
use modit_micro.Interrupt.{
  IdtEntry, Idt, idt_create_entry, idt_init, create_gates, isr_init, irq_gates, syscall_init,
}

-- Where the processor goes.
abbrev pub offset : IdtEntry → ℕ
offset g = g.offset_high * 2 ^ 16 + g.offset_low

-- Bits 5 and 6 of the flags, the descriptor privilege level, and bit 7, which says that the gate is
-- there.
abbrev pub privilege : IdtEntry → ℕ
privilege g = g.flags / 2 ^ 5 % 2 ^ 2

abbrev pub is_present : IdtEntry → Bool
is_present g = g.flags / 2 ^ 7 % 2 == 1

-- A gate for the kernel's code that leads to `func`.
pub record LeadsTo (func privilege_level : ℕ) (g : IdtEntry) : Type 0 where
  pub at : offset g ≡ func
  pub code : g.selector ≡ 0x08
  pub level : privilege g ≡ privilege_level
  pub present : is_present g ≡ true

-- The table does not change at other places.
created :
    (i func s fl j : ℕ) (idt : Idt)
    → idt_create_entry i func s fl idt j ≡ (
        if i == j
        then record {
          offset_low = func % 2 ^ 16;
          selector = s;
          zero_byte = (idt j).zero_byte;
          flags = fl;
          offset_high = func / 2 ^ 16 % 2 ^ 16;
        }
        else idt j)
unfolding idt_create_entry
created i func s fl j idt = refl

created_own :
    (i func s fl : ℕ) (idt : Idt)
    → func < 2 ^ 32
    → let g = idt_create_entry i func s fl idt i in
      (offset g ≡ func) × (g.selector ≡ s) × (g.flags ≡ fl)
unfolding idt_create_entry
created_own i func s fl idt small =
    let own =
      created i func s fl i idt
      ∙ ap
          (λ b.
            if b
            then record {
              offset_low = func % 2 ^ 16;
              selector = s;
              zero_byte = (idt i).zero_byte;
              flags = fl;
              offset_high = func / 2 ^ 16 % 2 ^ 16;
            }
            else idt i)
          (==-self i) in
    (
      ap offset own ∙ omega arith,
      ap (λ (g : IdtEntry). g.selector) own,
      ap (λ (g : IdtEntry). g.flags) own,
    )

create_gates_outside :
    (n i s j : ℕ) (stub : ℕ → ℕ) (idt : Idt)
    → (j < i) ⊎ (i + n ≤ j)
    → create_gates n i s stub idt j ≡ idt j
unfolding create_gates
create_gates_outside zero i s j stub idt out = refl
create_gates_outside (suc n) i s j stub idt out =
    let apart : (i == j) ≡ false = ==-false {a = i} {b = j} (λ e. absurd (omega (arith, out))) in
    create_gates_outside n (i + 1) (s + 1) j stub (idt_create_entry i (stub s) 0x08 0x8E idt)
      (ground (arith, out))
    ∙ created i (stub s) 0x08 0x8E j idt
    ∙ rw apart refl

create_gates-LeadsTo :
    (n i s j : ℕ) (stub : ℕ → ℕ) (idt : Idt)
    → ((k : ℕ) → stub k < 2 ^ 32)
    → j < n
    → LeadsTo (stub (s + j)) 0 (create_gates n i s stub idt (i + j))
unfolding create_gates
create_gates-LeadsTo zero i s j stub idt small l = absurd (omega arith)
create_gates-LeadsTo (suc n) i s zero stub idt small l =
    let idt1 = idt_create_entry i (stub s) 0x08 0x8E idt in
    let (at, code, flags) = created_own i (stub s) 0x08 0x8E idt (small s) in
    let same = create_gates_outside n (i + 1) (s + 1) i stub idt1 (inl (omega arith)) in
    let is : i + 0 ≡ i = omega arith in
    let ss : s + 0 ≡ s = omega arith in
    rw (is, ss, same)
      (record {
        at = at;
        code = code;
        level = ap (λ f. f / 2 ^ 5 % 2 ^ 2) flags;
        present = ap (λ f. f / 2 ^ 7 % 2 == 1) flags;
      })
create_gates-LeadsTo (suc n) i s (suc j) stub idt small l =
    let is : i + suc j ≡ i + 1 + j = omega arith in
    let ss : s + suc j ≡ s + 1 + j = omega arith in
    rw (is, ss)
      (create_gates-LeadsTo n (i + 1) (s + 1) j stub (idt_create_entry i (stub s) 0x08 0x8E idt)
        small (omega (arith, l)))

create_gates_at :
    (n i j : ℕ) (stub : ℕ → ℕ) (idt : Idt)
    → ((k : ℕ) → stub k < 2 ^ 32)
    → i ≤ j
    → j < i + n
    → LeadsTo (stub (j - i)) 0 (create_gates n i 0 stub idt j)
create_gates_at n i j stub idt small lo hi =
    let at : i + (j - i) ≡ j = omega arith in
    let nth : 0 + (j - i) ≡ j - i = omega arith in
    subst (λ k. LeadsTo (stub (j - i)) 0 (create_gates n i 0 stub idt k)) at
      (subst (λ k. LeadsTo (stub k) 0 (create_gates n i 0 stub idt (i + (j - i)))) nth
        (create_gates-LeadsTo n i 0 (j - i) stub idt small (omega arith)))

-- The table when the kernel runs user programs.
abbrev pub boot_table : (ℕ → ℕ) → (ℕ → ℕ) → ℕ → Idt
boot_table isr irq isr_77_syscall =
    syscall_init isr_77_syscall (irq_gates irq (isr_init isr idt_init))

abbrev pub entry_point : (ℕ → ℕ) → (ℕ → ℕ) → ℕ → ℕ → ℕ
entry_point isr irq isr_77_syscall j =
    if 0x4D == j then isr_77_syscall else if ltb j 32 then isr j else irq (j - 32)

below_boot :
    (isr irq : ℕ → ℕ) (j : ℕ)
    → ((k : ℕ) → isr k < 2 ^ 32)
    → ((k : ℕ) → irq k < 2 ^ 32)
    → j < 256
    → LeadsTo (if ltb j 32 then isr j else irq (j - 32)) 0 (irq_gates irq (isr_init isr idt_init) j)
unfolding irq_gates isr_init
below_boot isr irq j small_isr small_irq l =
    let idt1 = isr_init isr idt_init in
    elim (Bool-cases (ltb j 32)) [
      | inl y ↦
          (let lt : j < 32 = ground arith in
            let start : j - 0 ≡ j = omega arith in
            let first =
              subst (λ k. LeadsTo (isr k) 0 (isr_init isr idt_init j)) start
                (create_gates_at 32 0 j isr idt_init small_isr (omega arith) (omega arith)) in
            rw y (
              subst (λ g. LeadsTo (isr j) 0 g)
                (sym (create_gates_outside 224 32 0 j irq idt1 (inl lt))) first))
      | inr n ↦ rw n (create_gates_at 224 32 j irq idt1 small_irq (ground arith) (omega arith))
    ]

-- After `idt_init`, `isr_init`, `irq_init` and `syscall_init`, each of the 256 vectors has a gate to its
-- own entry point, and user programs may raise exactly the vector 0x4D of system calls.
pub boot_table-LeadsTo :
    (isr irq : ℕ → ℕ) (isr_77_syscall j : ℕ)
    → ((k : ℕ) → isr k < 2 ^ 32)
    → ((k : ℕ) → irq k < 2 ^ 32)
    → isr_77_syscall < 2 ^ 32
    → j < 256
    → LeadsTo
        (entry_point isr irq isr_77_syscall j)
        (if 0x4D == j then 3 else 0)
        (boot_table isr irq isr_77_syscall j)
unfolding syscall_init
boot_table-LeadsTo isr irq s j small_isr small_irq small l = elim (==-cases 0x4D j) [
  | inl e ↦
      (let (at, code, flags) =
          created_own 0x4D s 0x08 0xEE (irq_gates irq (isr_init isr idt_init)) small in
        subst
          (λ j.
            LeadsTo (entry_point isr irq s j) (if 0x4D == j then 3 else 0) (boot_table isr irq s j))
          e
          (record {
            at = at;
            code = code;
            level = ap (λ f. f / 2 ^ 5 % 2 ^ 2) flags;
            present = ap (λ f. f / 2 ^ 7 % 2 == 1) flags;
          }))
  | inr n ↦
      (let same : boot_table isr irq s j ≡ irq_gates irq (isr_init isr idt_init) j =
          created 0x4D s 0x08 (0x8E + 0x60) j (irq_gates irq (isr_init isr idt_init)) ∙ rw n refl in
        rw n (
          subst (λ g. LeadsTo (if ltb j 32 then isr j else irq (j - 32)) 0 g) (sym same)
            (below_boot isr irq j small_isr small_irq l)))
]
