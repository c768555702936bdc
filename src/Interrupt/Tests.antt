-- ===== src/Interrupt/Tests.antt =====
-- Runs of the interrupt tables and handlers, and the theorems at concrete tables.
use modit_micro.Base.{ℕ, ◌+◌, ◌≡◌, ◌<◌, ◌^◌, refl, arith, true, [], ◌∷◌, ltb, if◌then◌else◌}
use modit_micro.Interrupt.{panics, halts, Depth, isr_handler}
use modit_micro.Interrupt.Gates.{LeadsTo, boot_table, entry_point, boot_table-LeadsTo}

-- Entry points in steps of 16 bytes.
abbrev stubs : ℕ → ℕ → ℕ
stubs base k = if ltb k 256 then base + k else 0

stubs_small : (base k : ℕ) → base < 2 ^ 31 → stubs base k < 2 ^ 32
stubs_small base k l = ground arith

boot_table-LeadsTo_example :
    LeadsTo
      (entry_point (stubs 0x100000) (stubs 0x200000) 0x300000 0x4D)
      3
      (boot_table (stubs 0x100000) (stubs 0x200000) 0x300000 0x4D)
boot_table-LeadsTo_example =
    boot_table-LeadsTo (stubs 0x100000) (stubs 0x200000) 0x300000 0x4D
      (λ k. stubs_small 0x100000 k (omega arith)) (λ k. stubs_small 0x200000 k (omega arith))
      (omega arith) (omega arith)

abbrev no_handlers : ℕ → ℕ
no_handlers j = 0

abbrev outside : Depth
outside = record { depth = 0; enabled = true }

divide_run : isr_handler no_handlers 0 ≡ panics 0 ∷ halts ∷ []
unfolding isr_handler
divide_run = refl
