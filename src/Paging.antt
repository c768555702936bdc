-- ===== src/Paging.antt =====
-- module/paging/main.c: the pages of the current address space, in two levels of tables.
pub mod Views
pub mod Tables
pub mod Stock
pub mod Translate
pub mod Alloc
pub mod Ranges
pub mod Releases
mod Tests
use modit_micro.Base.{
  ℕ, zero, suc, ◌+◌, ◌-◌, ◌*◌, ◌/◌, ◌%◌, ◌^◌, Bool, true, false, Option, none, some, leb, ltb, ◌==◌,
  if◌then◌else◌, ◌&&◌, bit_and, bit_or,
}
use modit_micro.Pmm.{Pmm, bm_getpg, bm_freepg}

-- The memory as page frames of 1024 words, the frame of the current directory, which holds its entries
-- `tablesPhys`, and its pointers `tables`. `pmm` stands behind `physical_allocator`.
pub record Space : Type 0 where
  pub dir : ℕ
  pub words : ℕ → ℕ → ℕ
  pub tables : ℕ → ℕ
  pub pmm : Pmm

abbrev pub tables_phys : Space → ℕ → ℕ
tables_phys s d = s.words s.dir d

abbrev pub dindex : ℕ → ℕ
dindex virt = virt / 2 ^ 22

abbrev pub tindex : ℕ → ℕ
tindex virt = virt / 2 ^ 12 % 2 ^ 10

-- The fields `present` and `addr` of an entry.
abbrev pub present : ℕ → Bool
present entry = entry % 2 == 1

abbrev pub addr : ℕ → ℕ
addr entry = entry / 2 ^ 12

abbrev pub set_at : ℕ → ℕ → (ℕ → ℕ) → ℕ → ℕ
set_at i v f j = if i == j then v else f j

abbrev pub put_word : ℕ → ℕ → ℕ → Space → Space
put_word f i v s = record s { words = λ g. if f == g then set_at i v (s.words g) else s.words g }

-- The address at which the last directory entry maps the table of entry `d`.
abbrev pub table_at : ℕ → ℕ
table_at d = (d * 0x1000 + 0xFFC00000) % 2 ^ 32

-- The frame that the processor finds for the page at `p`; `none`, here and below, is a page fault.
pub frame_at : ℕ → Space → Option ℕ
frame_at p s =
    let entry = s.words (addr (tables_phys s (dindex p))) (tindex p) in
    if present (tables_phys s (dindex p)) && present entry then some (addr entry) else none

abbrev pub clear_frame : ℕ → Space → Space
clear_frame f s = record s { words = λ g. if f == g then (λ i. 0) else s.words g }

-- A directory entry with its pointer, before the table is cleared.
abbrev pub linked : ℕ → ℕ → Space → Space
linked d flags s =
    let got = bm_getpg s.pmm in
    record (put_word s.dir d (bit_or got.0 flags) s) {
      tables = set_at d (table_at d) s.tables;
      pmm = got.1;
    }

-- The answer of `getpg` is not tested, as in the code: 0 is frame 0.
pub new_table : ℕ → ℕ → Space → Option Space
unfolding frame_at
new_table d flags s =
    let s1 = linked d flags s in
    elim (frame_at (s1.tables d) s1) [ none ↦ none | some f ↦ some (clear_frame f s1) ]

-- `ret` and the store to the table's entry.
pub swap_entry : ℕ → ℕ → ℕ → Space → Option (ℕ × Space)
unfolding frame_at
swap_entry d t entry s = elim (frame_at (s.tables d) s) [
  | none ↦ none
  | some f ↦ some (s.words f t, put_word f t entry s)
]

-- The answer is the old entry.
pub remappg : ℕ → ℕ → ℕ → Space → Option (ℕ × Space)
unfolding new_table swap_entry
remappg phys virt flags s =
    let d = dindex virt in
    let t = tindex virt in
    let entry = bit_or phys (bit_and flags 0xFFF) in
    if present (tables_phys s d)
    then swap_entry d t entry s
    else elim (new_table d flags s) [ none ↦ none | some s1 ↦ swap_entry d t entry s1 ]

-- A page that is mapped stays as it is, and its entry is the answer.
pub mappg : ℕ → ℕ → ℕ → Space → Option (ℕ × Space)
unfolding frame_at
mappg phys virt flags s =
    if present (tables_phys s (dindex virt))
    then elim (frame_at (s.tables (dindex virt)) s) [
      | none ↦ none
      | some f ↦
          if s.words f (tindex virt) == 0
          then remappg phys virt flags s
          else some (s.words f (tindex virt), s)
    ]
    else remappg phys virt flags s

pub allocpg : ℕ → ℕ → Space → Option (ℕ × Space)
allocpg req flags s =
    let got = bm_getpg s.pmm in
    if got.0 == 0
    then some (0, record s { pmm = got.1 })
    else elim (mappg got.0 req flags (record s { pmm = got.1 })) [
      | none ↦ none
      | some (prev, s1) ↦
          some (req, if prev == 0 then s1 else record s1 { pmm = bm_freepg got.0 s1.pmm })
    ]

-- `n` rounds of the loop of `allocpgs`, and whether all of them got a page.
pub alloc_loop : ℕ → ℕ → ℕ → Space → Option (Bool × Space)
alloc_loop zero req flags s = some (true, s)
alloc_loop (suc n) req flags s = elim (allocpg req flags s) [
  | none ↦ none
  | some (ret, s1) ↦
      if ret == req then alloc_loop n ((req + 0x1000) % 2 ^ 32) flags s1 else some (false, s1)
]

abbrev pub page_count : ℕ → ℕ
page_count size = (size + 0xFFF) % 2 ^ 32 / 0x1000

pub allocpgs : ℕ → ℕ → ℕ → Space → Option (ℕ × Space)
allocpgs req size flags s = elim (alloc_loop (page_count size) req flags s) [
  | none ↦ none
  | some (all, s1) ↦ some (if all then req else 0, s1)
]

pub freepg : ℕ → Space → Option Space
freepg req s = elim (remappg 0 req 0 s) [
  | none ↦ none
  | some (ret, s1) ↦
      some
        (if ret == 0 then record s1 { pmm = bm_freepg (addr ret * 0x1000 % 2 ^ 32) s1.pmm } else s1)
]

pub free_loop : ℕ → ℕ → Space → Option Space
free_loop zero req s = some s
free_loop (suc n) req s = elim (freepg req s) [
  | none ↦ none
  | some s1 ↦ free_loop n ((req + 0x1000) % 2 ^ 32) s1
]

pub freepgs : ℕ → ℕ → Space → Option Space
freepgs req size s = free_loop (page_count size) req s
