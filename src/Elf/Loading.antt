-- ===== src/Elf/Loading.antt =====
-- What module/user/elf.c puts in memory.
use modit_micro.Base.{
  ℕ, ◌+◌, ◌-◌, ◌*◌, ◌^◌, ◌≤◌, ◌<◌, ◌≡◌, ◌≢◌, refl, arith, Bool, true, false, ◌&&◌, Option, some,
  leb, ltb, ◌==◌,
}
use modit_micro.Elf.{
  Machine, word_at, e_entry, e_phoff, e_phnum, p_type, p_offset, p_vaddr, p_filesz, p_memsz,
  load_segment,
}

-- The segment of the program header at `p` is loaded, and covers the address `a`.
abbrev pub covers : ℕ → Machine → ℕ → Bool
covers p s a = p_type p s == 1 && (leb (p_vaddr p s) a && ltb a (p_vaddr p s + p_memsz p s))

-- Whether `a` is in the file.
abbrev pub in_file : ℕ → ℕ → ℕ → Bool
in_file raw size a = leb raw a && ltb a (raw + size)

in_file_bounds : (raw size a : ℕ) → raw ≤ a → a < raw + size → in_file raw size a ≡ true
in_file_bounds raw size a lo hi = ground arith

-- The program header `j` of the file at `raw`, as it is in `s`.
abbrev pub header : ℕ → Machine → ℕ → ℕ
header raw s j = raw + e_phoff raw s + 32 * j

-- A file whose headers and segments lie inside it, and whose segments are loaded to places that neither meet
-- the file nor one another.
pub record IsWellPlaced (raw size : ℕ) (s : Machine) : Type 0 where
  pub bytes : (a : ℕ) → s.mem a < 2 ^ 8
  pub table : e_phoff raw s + 32 * e_phnum raw s ≤ size
  pub first : 52 ≤ size
  pub low : raw + size ≤ 2 ^ 32
  pub no_wrap :
      (j : ℕ)
      → j < e_phnum raw s
      → p_type (header raw s j) s ≡ 1
      → p_vaddr (header raw s j) s + p_memsz (header raw s j) s ≤ 2 ^ 32
  pub inside :
      (j : ℕ)
      → j < e_phnum raw s
      → p_type (header raw s j) s ≡ 1
      → p_offset (header raw s j) s + p_memsz (header raw s j) s ≤ size
  pub outside :
      (j a : ℕ)
      → j < e_phnum raw s
      → covers (header raw s j) s a ≡ true
      → in_file raw size a ≡ false
  pub apart :
      (j k a : ℕ)
      → j < e_phnum raw s
      → k < e_phnum raw s
      → j ≢ k
      → covers (header raw s j) s a ≡ true
      → covers (header raw s k) s a ≡ false

module _ (raw size : ℕ) (s0 : Machine) (w : IsWellPlaced raw size s0) where
  -- The file is as it was.
  abbrev SameFile : Machine → Type 0
  SameFile s = (a : ℕ) → in_file raw size a ≡ true → s.mem a ≡ s0.mem a

  byte_same : (s : Machine) (a : ℕ) → SameFile s → raw ≤ a → a < raw + size → s.mem a ≡ s0.mem a
  byte_same s a f lo hi = f a (in_file_bounds raw size a lo hi)

  word_same :
      (s : Machine) (p : ℕ) → SameFile s → raw ≤ p → p + 4 ≤ raw + size → word_at p s ≡ word_at p s0
  word_same s p f lo hi = omega (
    arith,
    byte_same s p f lo (omega arith),
    byte_same s (p + 1) f (omega arith) (omega arith),
    byte_same s (p + 2) f (omega arith) (omega arith),
    byte_same s (p + 2 + 1) f (omega arith) (omega arith),
  )

  -- What the loop reads of header `j`.
  abbrev ph : ℕ → ℕ
  ph j = header raw s0 j

  field_same :
      (s : Machine) (j k : ℕ)
      → SameFile s
      → j < e_phnum raw s0
      → k + 4 ≤ 32
      → word_at (ph j + k) s ≡ word_at (ph j + k) s0
  field_same s j k f h l = word_same s (ph j + k) f (omega arith) (omega (arith, w.table))

  type_same :
      (s : Machine) (j : ℕ) → SameFile s → j < e_phnum raw s0 → p_type (ph j) s ≡ p_type (ph j) s0
  type_same s j f h = word_same s (ph j) f (omega arith) (omega (arith, w.table))

  covers_same :
      (s : Machine) (j a : ℕ)
      → SameFile s
      → j < e_phnum raw s0
      → covers (ph j) s a ≡ covers (ph j) s0 a
  covers_same s j a f h =
      rw
        (field_same s j 8 f h (omega arith), field_same s j 20 f h (omega arith), type_same s j f h)
        refl

  -- What one round of the loop does, from a memory that has the file.
  abbrev next_state : Machine → ℕ → Machine
  next_state s i = load_segment raw (ph i) s

  -- A byte of the file that header `j` describes.
  abbrev source_of : ℕ → ℕ → ℕ
  source_of j a = s0.mem (raw + p_offset (ph j) s0 + (a - p_vaddr (ph j) s0))

  -- The segments from header `i` on are loaded, and nothing else is changed.
  record FromOn (s : Machine) (i : ℕ) (s' : Machine) : Type 0 where
    file : SameFile s'
    loaded :
        (j a : ℕ)
        → i ≤ j
        → j < e_phnum raw s0
        → covers (ph j) s0 a ≡ true
        → s'.mem a ≡ source_of j a
    kept :
        (a : ℕ)
        → ((j : ℕ) → i ≤ j → j < e_phnum raw s0 → covers (ph j) s0 a ≡ false)
        → s'.mem a ≡ s.mem a

-- The program is loaded: every address of a segment below `p_filesz` has the byte of the image in the
-- file, those from there on have the bytes that stand behind the image, and all other addresses have
-- what they had. The answer is the entry point.
pub record Loaded (raw : ℕ) (s : Machine) (out : Option (ℕ × Machine)) : Type 0 where
  pub after : Machine
  pub done : out ≡ some (e_entry raw s, after)
  pub image :
      (j i : ℕ)
      → j < e_phnum raw s
      → p_type (header raw s j) s ≡ 1
      → i < p_memsz (header raw s j) s
      → i < p_filesz (header raw s j) s
      → after.mem (p_vaddr (header raw s j) s + i) ≡ s.mem (raw + p_offset (header raw s j) s + i)
  pub behind :
      (j i : ℕ)
      → j < e_phnum raw s
      → p_type (header raw s j) s ≡ 1
      → p_filesz (header raw s j) s + i < p_memsz (header raw s j) s
      → after.mem (p_vaddr (header raw s j) s + (p_filesz (header raw s j) s + i))
        ≡ s.mem (raw + p_offset (header raw s j) s + p_filesz (header raw s j) s + i)
  pub kept :
      (a : ℕ)
      → ((j : ℕ) → j < e_phnum raw s → covers (header raw s j) s a ≡ false)
      → after.mem a ≡ s.mem a
