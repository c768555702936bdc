-- ===== src/Segments.antt =====
-- module/gdt/main.c and root/usr/include/module/gdt.h: the segment descriptors and the task state segment.
pub mod Descriptors
mod Tests
use modit_micro.Base.{
  ℕ, ◌+◌, ◌-◌, ◌*◌, ◌/◌, ◌%◌, ◌^◌, Bool, true, false, ◌==◌, ltb, if◌then◌else◌, bit_and, bit_or,
}

-- `gdt_entry_t`; `flags` holds `limit_high` in its low half.
pub record GdtEntry : Type 0 where
  pub limit_low : ℕ
  pub base_low : ℕ
  pub base_mid : ℕ
  pub access : ℕ
  pub flags : ℕ
  pub base_high : ℕ

abbrev pub Gdts : Type 0
Gdts = ℕ → GdtEntry

-- `entry->limit_high` is part of `flags`, which is written after it.
pub add_gdt : ℕ → ℕ → ℕ → ℕ → ℕ → Gdts → Gdts
add_gdt i base limit access flags gdts j =
    if i == j
    then record {
      limit_low = limit % 2 ^ 16;
      base_low = base % 2 ^ 16;
      base_mid = base / 2 ^ 16 % 2 ^ 8;
      access = access;
      flags = bit_or (limit / 2 ^ 16 % 2 ^ 4) (bit_and flags 0xF0);
      base_high = base / 2 ^ 24 % 2 ^ 8;
    }
    else gdts j

-- The fields of `tss_entry` that are written; `segments` is the value of `ss`, `ds`, `es`, `fs` and `gs`.
pub record Tss : Type 0 where
  pub esp0 : ℕ
  pub ss0 : ℕ
  pub cs : ℕ
  pub segments : ℕ
  pub iopb_off : ℕ
  pub iobmap : ℕ → ℕ

-- `sizeof(struct tss_entry_base)`, and with the I/O bitmap.
abbrev pub tss_entry_base_size : ℕ
tss_entry_base_size = 104

abbrev pub tss_entry_size : ℕ
tss_entry_size = 104 + 8192

-- `base` is the address of `tss_entry`.
pub add_tss : ℕ → ℕ → Gdts → Gdts × Tss
unfolding add_gdt
add_tss i base gdts = (
  add_gdt i base ((base + tss_entry_size) % 2 ^ 32) 0xE9 0x00 gdts,
  record {
    esp0 = 0;
    ss0 = 0x10;
    cs = 0x0B;
    segments = 0x13;
    iopb_off = tss_entry_base_size;
    iobmap = λ j. if ltb j 8192 then 0xFF else 0;
  },
)

pub update_iobm : (ℕ → ℕ) → Tss → Tss
update_iobm bm tss = record tss { iobmap = λ j. if ltb j 8192 then bm j else tss.iobmap j }

pub update_kstack : ℕ → Tss → Tss
update_kstack esp tss = record tss { esp0 = esp }

abbrev pub cleared : Gdts
cleared j = record {
  limit_low = 0;
  base_low = 0;
  base_mid = 0;
  access = 0;
  flags = 0;
  base_high = 0;
}

-- `tss_entry` is the address of that variable.
pub gdt_init : ℕ → Gdts × Tss
unfolding add_gdt add_tss
gdt_init tss_entry =
    let code = add_gdt 1 0 0xFFFFFFFF 0x9A 0xCF cleared in
    let flat = add_gdt 2 0 0xFFFFFFFF 0x92 0xCF code in
    let usr_code = add_gdt 3 0 0xFFFFFFFF 0xFA 0xCF flat in
    let usr_data = add_gdt 4 0 0xFFFFFFFF 0xF2 0xCF usr_code in add_tss 5 tss_entry usr_data
