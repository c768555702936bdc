-- ===== src/Segments/Tests.antt =====
-- Runs of module/gdt/main.c, and the theorem at a concrete descriptor.
use modit_micro.Base.{ℕ, ◌/◌, ◌%◌, ◌^◌, ◌≡◌, ◌≢◌, refl, arith}
use modit_micro.Segments.{add_gdt, add_tss, gdt_init, cleared}
use modit_micro.Segments.Descriptors.{segment_limit, Describes, add_gdt-Describes}

add_gdt-Describes_example :
    Describes 0xC0123456 0xABCDE 0xF2 0xCF (add_gdt 4 0xC0123456 0xABCDE 0xF2 0xCF cleared 4)
    × ((j : ℕ) → 4 ≢ j → add_gdt 4 0xC0123456 0xABCDE 0xF2 0xCF cleared j ≡ cleared j)
add_gdt-Describes_example =
    add_gdt-Describes 4 0xC0123456 0xABCDE 0xF2 0xCF cleared (omega arith) (omega arith)
      (omega arith)

-- The segments of user programs reach over all pages, with privilege 3.
user_run :
    (segment_limit ((gdt_init 0xC0200000).0 3) ≡ 0xFFFFF)
    × (((gdt_init 0xC0200000).0 3).access / 2 ^ 5 % 2 ^ 2 ≡ 3)
    × (((gdt_init 0xC0200000).0 1).access / 2 ^ 5 % 2 ^ 2 ≡ 0)
unfolding gdt_init add_gdt add_tss
user_run = (refl, refl, refl)

-- The limit of the task state segment depends on its address.
tss_run :
    (segment_limit ((gdt_init 0xC0200000).0 5) ≡ 8296)
    × (segment_limit ((gdt_init 0xC02F0000).0 5) ≡ 0xF2068)
unfolding gdt_init add_gdt add_tss
tss_run = (refl, refl)
