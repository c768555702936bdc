-- ===== src/Acpi/Tests.antt =====
-- Runs of module/acpi/rsdt.c, and instances of the theorems.
use modit_micro.Base.{
  ℕ, ◌+◌, ◌<◌, ◌≤◌, ◌^◌, ◌≡◌, refl, false, some, [], ◌∷◌, arith, ◌==◌, if◌then◌else◌,
}
use modit_micro.Acpi.{
  has_bytes, search_from, byte_sum, load_rsdp, validate_acpi_table, max_from, alloc_size, relocate,
  strncmp_equal, rsdt_find_table,
}
use modit_micro.Acpi.Search.{Located, load_rsdp-Located}
use modit_micro.Acpi.Relocation.{AllReach, relocate-AllReach}

-- The signature at 0xE0010.
abbrev rom : ℕ → ℕ
rom a =
    if a == 0xE0010
    then 82
    else if a == 0xE0011
    then 83
    else if a == 0xE0012
    then 68
    else if a == 0xE0013
    then 32
    else if a == 0xE0014
    then 80
    else if a == 0xE0015
    then 84
    else if a == 0xE0016
    then 82
    else if a == 0xE0017
    then 32
    else 0

rom_bytes : (a : ℕ) → rom a < 2 ^ 8
rom_bytes a = ground arith

search_test : search_from 3 0xE0000 rom ≡ some 0xE0010
unfolding search_from has_bytes
search_test = refl

-- The eight bytes have the sum 0x21D.
sum_test : validate_acpi_table 0xE0010 8 rom ≡ false
unfolding validate_acpi_table byte_sum
sum_test = refl

table_test : rsdt_find_table (82 ∷ 83 ∷ 68 ∷ 32 ∷ []) (0 ∷ 0xE0010 ∷ []) rom ≡ 0xE0010
unfolding rsdt_find_table strncmp_equal
table_test = refl

-- A signature of two letters is no match for one of four.
short_test : rsdt_find_table (82 ∷ 83 ∷ []) (0xE0010 ∷ []) rom ≡ 0
unfolding rsdt_find_table strncmp_equal
short_test = refl

load_rsdp-Located_example : Located 0 rom (load_rsdp 0 rom)
load_rsdp-Located_example = load_rsdp-Located 0 rom rom_bytes

below_top : max_from 0 (0x7FE1234 ∷ 0x7FE0010 ∷ []) + 0x1000 < 2 ^ 32
unfolding max_from
below_top = omega arith

two_pages : 0xE2000000 + alloc_size (0x7FE1234 ∷ 0x7FE0010 ∷ []) ≤ 2 ^ 32
unfolding alloc_size
two_pages = omega arith

relocate_test :
    (relocate 0xE2000000 (0x7FE1234 ∷ 0x7FE0010 ∷ [])).rsdt_ptrs ≡ 0xE2001234 ∷ 0xE2000010 ∷ []
unfolding relocate
relocate_test = refl

relocate-AllReach_example :
    AllReach
      (0x7FE1234 ∷ 0x7FE0010 ∷ [])
      (relocate 0xE2000000 (0x7FE1234 ∷ 0x7FE0010 ∷ [])).rsdt_ptrs
      (relocate 0xE2000000 (0x7FE1234 ∷ 0x7FE0010 ∷ [])).remapped
relocate-AllReach_example =
    relocate-AllReach 0xE2000000 0x7FE1234 (0x7FE0010 ∷ []) below_top (omega arith) two_pages
