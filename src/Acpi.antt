-- ===== src/Acpi.antt =====
-- module/acpi/rsdt.c and module/acpi/main.c: the search for the ACPI tables and their mapping.
pub mod Search
pub mod Relocation
mod Tests
use modit_micro.Base.{
  ℕ, zero, suc, ◌+◌, ◌-◌, ◌*◌, ◌/◌, ◌%◌, ◌^◌, Bool, true, false, not, ◌&&◌, Option, none, some,
  List, [], ◌∷◌, leb, ltb, ◌==◌, if◌then◌else◌, map, length,
}

-- The bytes at `p` are those of a signature.
pub has_bytes : List ℕ → ℕ → (ℕ → ℕ) → Bool
has_bytes [] p mem = true
has_bytes (c ∷ cs) p mem = if mem p == c then has_bytes cs (p + 1) mem else false

-- "RSD PTR ".
abbrev pub rsdsig : List ℕ
rsdsig = 82 ∷ 83 ∷ 68 ∷ 32 ∷ 80 ∷ 84 ∷ 82 ∷ 32 ∷ []

-- The rounds of the search, of 16 bytes each.
pub search_from : ℕ → ℕ → (ℕ → ℕ) → Option ℕ
search_from zero p mem = none
search_from (suc n) p mem =
    let rest = search_from n (p + 16) mem in if has_bytes rsdsig p mem then some p else rest

-- The value of a `char`, added in 32 bits.
abbrev pub char_value : ℕ → ℕ
char_value b = if ltb b 128 then b else b + 2 ^ 32 - 2 ^ 8

pub byte_sum : ℕ → ℕ → (ℕ → ℕ) → ℕ
byte_sum zero p mem = 0
byte_sum (suc n) p mem = (char_value (mem p) + byte_sum n (p + 1) mem) % 2 ^ 32

-- The rounds from 0xE0000 to 0xFFFFF, and the size of the descriptor; `none` is NULL.
pub load_rsdp : ℕ → (ℕ → ℕ) → Option ℕ
load_rsdp virt_base mem = elim (search_from 8192 (0xE0000 + virt_base) mem) [
  | none ↦ none
  | some p ↦ if byte_sum 20 p mem % 2 ^ 8 == 0 then some p else none
]

-- `validate_acpi_table`, which adds in 8 bits; `len` is the length in the header.
pub validate_acpi_table : ℕ → ℕ → (ℕ → ℕ) → Bool
validate_acpi_table header len mem = byte_sum len header mem % 2 ^ 8 == 0

-- `max_range` and `min_range` over the pointers.
pub max_from : ℕ → List ℕ → ℕ
max_from m [] = m
max_from m (p ∷ ps) = max_from (if ltb m p then p else m) ps

pub min_from : ℕ → List ℕ → ℕ
min_from m [] = m
min_from m (p ∷ ps) = min_from (if ltb p m then p else m) ps

abbrev pub min_range : List ℕ → ℕ
min_range ps = min_from 0xFFFFFFFF ps - min_from 0xFFFFFFFF ps % 0x1000

pub alloc_size : List ℕ → ℕ
unfolding max_from min_from
alloc_size ps = ((max_from 0 ps / 4096 + 1) * 4096 % 2 ^ 32 + 2 ^ 32 - min_range ps) % 2 ^ 32

-- What is mapped to where, a page each, in the order of the calls of `remappg`; the same physical pages are
-- reserved.
pub remap_pages : ℕ → ℕ → ℕ → List (ℕ × ℕ)
remap_pages zero phys virt = []
remap_pages (suc n) phys virt =
    (phys % 2 ^ 32, virt % 2 ^ 32) ∷ remap_pages n (phys + 4096) (virt + 4096)

-- `rsdt_ptrs` and the pages that were mapped.
pub record Rsdt : Type 0 where
  pub rsdt_ptrs : List ℕ
  pub remapped : List (ℕ × ℕ)

-- Of `load_rsdt`, what it does with the pointers of the table; `remap` is the answer of `kalloc_a` for
-- `alloc_size` bytes.
pub relocate : ℕ → List ℕ → Rsdt
unfolding alloc_size remap_pages
relocate remap ps = record {
  rsdt_ptrs = map (λ p. (remap + (p + 2 ^ 32 - min_range ps) % 2 ^ 32) % 2 ^ 32) ps;
  remapped = remap_pages ((alloc_size ps + 4095) / 4096) (min_range ps) remap;
}

-- `strncmp(sig, p, n) == 0`, where `sig` is a text without the NUL at its end.
pub strncmp_equal : ℕ → List ℕ → ℕ → (ℕ → ℕ) → Bool
strncmp_equal zero sig p mem = true
strncmp_equal (suc n) [] p mem = mem p == 0
strncmp_equal (suc n) (c ∷ cs) p mem = if mem p == c then strncmp_equal n cs (p + 1) mem else false

-- 0 is the NULL that is answered where no table has the signature.
pub rsdt_find_table : List ℕ → List ℕ → (ℕ → ℕ) → ℕ
unfolding strncmp_equal
rsdt_find_table sig [] mem = 0
rsdt_find_table sig (p ∷ ps) mem =
    if strncmp_equal 4 sig p mem then p else rsdt_find_table sig ps mem
