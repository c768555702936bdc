-- ===== src/Elf/Tests.antt =====
-- A small program file for module/user/elf.c, and the theorem at this file.
use modit_micro.Base.{
  ℕ, ◌<◌, ◌^◌, ◌≡◌, refl, true, List, [], ◌∷◌, Option, none, some, ◌==◌, if◌then◌else◌,
}
use modit_micro.Elf.{Machine, loadable, load_segment, load_loop, modit_elf_load}

abbrev bytes_at : List (ℕ × ℕ) → ℕ → ℕ
bytes_at [] a = 0
bytes_at ((p, v) ∷ rest) a = if p == a then v else bytes_at rest a

abbrev AllBytes : List (ℕ × ℕ) → Type 0
AllBytes [] = Unit {0}
AllBytes ((p, v) ∷ rest) = (v < 2 ^ 8) × AllBytes rest

-- At 0x1000: an executable with one segment, of 4 bytes for 0x8000, 3 of them in its image.
abbrev image : List (ℕ × ℕ)
image =
    (0x1000, 0x7F)
    ∷ (0x1001, 69)
    ∷ (0x1002, 76)
    ∷ (0x1003, 70)
    ∷ (0x1004, 1)
    ∷ (0x1010, 2)
    ∷ (0x1012, 3)
    ∷ (0x1014, 1)
    ∷ (0x1019, 0x80)
    ∷ (0x101C, 52)
    ∷ (0x102C, 1)
    ∷ (0x1034, 1)
    ∷ (0x1038, 84)
    ∷ (0x103D, 0x80)
    ∷ (0x1044, 3)
    ∷ (0x1048, 4)
    ∷ (0x1054, 11)
    ∷ (0x1055, 22)
    ∷ (0x1056, 33)
    ∷ (0x1057, 44)
    ∷ []

abbrev program : Machine
program = record { mem = bytes_at image; mapped = [] }

program_loads : loadable 0x1000 88 program ≡ true
unfolding loadable
program_loads = refl

-- The second byte of the segment.
abbrev byte_after : Option (ℕ × Machine) → ℕ
byte_after none = 0
byte_after (some (e, s)) = s.mem 0x8001

load_test : byte_after (modit_elf_load 2 0x1000 88 program) ≡ 22
unfolding modit_elf_load load_loop load_segment
load_test = refl
