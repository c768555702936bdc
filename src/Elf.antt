-- ===== src/Elf.antt =====
-- module/user/elf.c and elf.h: the loading of a program file into memory.
pub mod Loading
mod Tests
use modit_micro.Base.{
  ℕ, zero, suc, ◌+◌, ◌-◌, ◌*◌, ◌%◌, ◌^◌, Bool, true, false, not, ◌&&◌, Option, none, some, List, [],
  ◌∷◌, leb, ltb, ◌==◌, if◌then◌else◌,
}

-- The bytes by address, and the calls of `virtual_allocator->allocpgs` with flags 0x7, newest first.
pub record Machine : Type 0 where
  pub mem : ℕ → ℕ
  pub mapped : List (ℕ × ℕ)

-- The fields of the headers, little endian.
abbrev pub half_at : ℕ → Machine → ℕ
half_at p s = s.mem p + s.mem (p + 1) * 2 ^ 8

abbrev pub word_at : ℕ → Machine → ℕ
word_at p s = half_at p s + half_at (p + 2) s * 2 ^ 16

-- `elf_ehdr_t`.
abbrev pub e_type : ℕ → Machine → ℕ
e_type raw = half_at (raw + 16)

abbrev pub e_machine : ℕ → Machine → ℕ
e_machine raw = half_at (raw + 18)

abbrev pub e_version : ℕ → Machine → ℕ
e_version raw = word_at (raw + 20)

abbrev pub e_entry : ℕ → Machine → ℕ
e_entry raw = word_at (raw + 24)

abbrev pub e_phoff : ℕ → Machine → ℕ
e_phoff raw = word_at (raw + 28)

abbrev pub e_phnum : ℕ → Machine → ℕ
e_phnum raw = half_at (raw + 44)

-- `elf_phdr_t`, of 32 bytes.
abbrev pub p_type : ℕ → Machine → ℕ
p_type p = word_at p

abbrev pub p_offset : ℕ → Machine → ℕ
p_offset p = word_at (p + 4)

abbrev pub p_vaddr : ℕ → Machine → ℕ
p_vaddr p = word_at (p + 8)

abbrev pub p_filesz : ℕ → Machine → ℕ
p_filesz p s = word_at (p + 16) s

abbrev pub p_memsz : ℕ → Machine → ℕ
p_memsz p = word_at (p + 20)

-- `ELF_CHKHDR`.
abbrev pub chkhdr : ℕ → Machine → Bool
chkhdr raw s =
    s.mem raw == 0x7F && (s.mem (raw + 1) == 69 && (s.mem (raw + 2) == 76 && s.mem (raw + 3) == 70))

-- The tests before the segments are loaded.
pub loadable : ℕ → ℕ → Machine → Bool
loadable raw size s =
    if size == 0
    then false
    else if raw == 0
    then false
    else if not (chkhdr raw s)
    then false
    else if not (e_type raw s == 2)
    then false
    else if not (e_machine raw s == 3)
    then false
    else if e_version raw s == 0
    then false
    else s.mem (raw + 4) == 1

-- `memcpy`, for memory that does not overlap. An address has 32 bits.
abbrev pub memcpy : ℕ → ℕ → ℕ → Machine → Machine
memcpy dest from n s = record s {
  mem = λ a.
      let place = (a + 2 ^ 32 - dest) % 2 ^ 32 in
      if ltb a (2 ^ 32) && ltb place n then s.mem ((from + place) % 2 ^ 32) else s.mem a;
}

-- One program header. The code does not read `p_filesz`.
pub load_segment : ℕ → ℕ → Machine → Machine
load_segment raw p s =
    if p_type p s == 1
    then memcpy (p_vaddr p s) (raw + p_offset p s) (p_memsz p s)
        (record s { mapped = (p_vaddr p s, p_memsz p s) ∷ s.mapped })
    else s

-- `none`: the fuel ran out.
pub load_loop : ℕ → ℕ → ℕ → ℕ → Machine → Option Machine
load_loop zero i raw phdrs s = none
load_loop (suc fuel) i raw phdrs s =
    let rest = load_loop fuel ((i + 1) % 2 ^ 16) raw phdrs (load_segment raw (phdrs + 32 * i) s) in
    if ltb i (e_phnum raw s) then rest else some s

pub modit_elf_load : ℕ → ℕ → ℕ → Machine → Option (ℕ × Machine)
unfolding loadable
modit_elf_load fuel raw size s =
    if loadable raw size s
    then elim (load_loop fuel 0 raw (raw + e_phoff raw s) s) [
      | none ↦ none
      | some s1 ↦ some (e_entry raw s1, s1)
    ]
    else some (0, s)
