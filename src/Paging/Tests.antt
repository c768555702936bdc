-- ===== src/Paging/Tests.antt =====
-- Runs of module/paging/main.c, and the theorems at a concrete address space.
use modit_micro.Base.{
  ◌⊎◌, ◌-◌, ==-cases, ℕ, zero, suc, ◌+◌, ◌*◌, ◌^◌, ◌<◌, ◌≡◌, inl, inr, refl, arith, true, some,
  ◌==◌, if◌then◌else◌,
}
use modit_micro.Pmm.{Pmm, bm_test}
use modit_micro.Pmm.Balance.{IsBalanced}
use modit_micro.Pmm.Count.{count_taken}
use modit_micro.Paging.{Space, present, tables_phys, table_at, remappg, allocpg, allocpgs}
use modit_micro.Paging.Views.{frame, translate, old_entry, Sound}
use modit_micro.Paging.Stock.{Stocked}
use modit_micro.Paging.Translate.{Remapped, remappg-Remapped}
use modit_micro.Paging.Alloc.{Allocates, allocpg-Allocates}
use modit_micro.Paging.Ranges.{Range, allocpgs-Range}

-- Page 0, the directory in page 4 and a table in page 5 are taken, and all that lies behind the memory.
abbrev memory : Pmm
memory = record {
  bitmap = λ i. if i == 0 then 49 else (if i == 1 then 0 else 2 ^ 32 - 1);
  mapsize = 64 * 4096;
  pages_free = 61;
  pages_taken = 3;
  pages_total = 64;
  last_free = 1;
}

-- One table, for the addresses from 0x400000 on, with one page.
abbrev small : Space
small = record {
  dir = 4;
  words = λ f i.
      if f == 4
      then (if i == 1 then 0x5003 else (if i == 1023 then 0x4003 else 0))
      else (if f == 5 then (if i == 0 then 0x9003 else 0) else 0xFFFFFFFF);
  tables = λ d. if d == 1 then 0xFFC01000 else (if d == 1023 then 0xFFFFF000 else 0);
  pmm = memory;
}

memory-IsBalanced : IsBalanced memory
unfolding count_taken bm_test
memory-IsBalanced = record { taken = refl; free = refl; sized = refl; small = omega arith }

memory-Stocked : Stocked memory
unfolding bm_test
memory-Stocked = record {
  balanced = memory-IsBalanced;
  first = refl;
  guard = refl;
  start = omega arith;
}

two_tables : (d : ℕ) → present (tables_phys small d) ≡ true → (d ≡ 1) ⊎ (d ≡ 1023)
two_tables d h = elim (==-cases d 1) [
  | inl e ↦ inl e
  | inr n ↦ elim (==-cases d 1023) [ inl e ↦ inr e | inr m ↦ ground (arith, h, n, m) ]
]

tables_taken : (d : ℕ) → (d ≡ 1) ⊎ (d ≡ 1023) → bm_test memory.bitmap (frame small d) ≡ true
unfolding bm_test
tables_taken d (inl e) = rw e refl
tables_taken d (inr e) = rw e refl

tables_at : (d : ℕ) → (d ≡ 1) ⊎ (d ≡ 1023) → small.tables d ≡ table_at d
tables_at d (inl e) = rw e refl
tables_at d (inr e) = rw e refl

tables_apart :
    (d e : ℕ) → (d ≡ 1) ⊎ (d ≡ 1023) → (e ≡ 1) ⊎ (e ≡ 1023) → frame small d ≡ frame small e → d ≡ e
tables_apart d e (inl x) (inl y) h = omega (arith, x, y)
tables_apart d e (inr x) (inr y) h = omega (arith, x, y)
tables_apart d e (inl x) (inr y) h = absurd (ground (arith, x, y, h))
tables_apart d e (inr x) (inl y) h = absurd (ground (arith, x, y, h))

small-Sound : Sound small
small-Sound = record {
  here = refl;
  itself = refl;
  pointers = λ d l h. tables_at d (two_tables d h);
  apart = λ d e l l' h h' eq. tables_apart d e (two_tables d h) (two_tables e h') eq;
  taken = λ d l h. tables_taken d (two_tables d h);
}

remappg-Remapped_example :
    Remapped small 7 0x400000 3 0x9003 (remappg (7 * 0x1000) 0x400000 3 small)
remappg-Remapped_example =
    remappg-Remapped 7 0x400000 3 small small-Sound memory-Stocked (omega arith) (inr refl)

-- A new table.
allocpg-Allocates_example : Allocates small 0x800000 (allocpg 0x800000 3 small)
allocpg-Allocates_example =
    allocpg-Allocates 0x800000 3 small small-Sound memory-Stocked (omega arith) refl (omega arith)
      refl (omega arith)

three_free : (j : ℕ) → j < 3 → old_entry small (0x401000 + j * 0x1000) ≡ 0
three_free zero l = refl
three_free (suc zero) l = refl
three_free (suc (suc zero)) l = refl
three_free (suc (suc (suc j))) l = absurd (omega (arith, l))

-- Three pages behind the one that is there.
allocpgs-Range_example :
    (space : Space) × (allocpgs 0x401000 0x2800 3 small ≡ some (0x401000, space))
    × Range small 0x401000 3 space
allocpgs-Range_example =
    allocpgs-Range 0x401000 0x2800 3 small small-Sound memory-Stocked (omega arith) refl
      (omega arith) three_free (omega arith)

translate_run : translate small 0x400123 ≡ some 0x9123
translate_run = refl
