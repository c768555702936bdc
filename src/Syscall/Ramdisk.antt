-- ===== src/Syscall/Ramdisk.antt =====
-- The files of the ramdisk that the system calls of module/syscall/main.c read.
use modit_micro.Base.{
  SomeHas, ==-false, Bool-cases, true_ne_false, ℕ, zero, suc, ◌+◌, ◌-◌, ◌^◌, ◌≤◌, ◌<◌, ◌≡◌, refl,
  sym, ◌∙◌, ◌⊎◌, inl, inr, true, false, ◌&&◌, arith, ltb, leb, ◌==◌, some, List, [], ◌∷◌, length,
  min, subst, ◌↔◌,
}
use modit_micro.User.{UserTask}
use modit_micro.Kernel.{InitrdFile, Surroundings, Kernel, Outcome, returns}
use modit_micro.Syscall.{
  minus, lacks, user_perm_ird, same_name, find_file, entry, copy_bytes, read_length,
  syscall_initrd_read, syscall_initrd_getf,
}

-- `out` answers `n`, and the `n` bytes of the file from `base` on stand at `buf`; nothing else changed.
pub record Copied {T : Type 0} (f : InitrdFile) (buf base n : ℕ) (k : Kernel T) (out : Outcome T ℕ)
    : Type 0 where
  pub memory : ℕ → ℕ
  pub done : out ≡ returns n (record k { memory = memory })
  pub copied : (j : ℕ) → j < n → memory (buf + j) ≡ f.data_start (base + j)
  pub kept : (q : ℕ) → (q < buf) ⊎ (buf + n ≤ q) → memory q ≡ k.memory q

copy_bytes_in :
    (buf n j : ℕ) (from memory : ℕ → ℕ) → j < n → copy_bytes buf from n memory (buf + j) ≡ from j
unfolding copy_bytes
copy_bytes_in buf n j from memory l =
    let inside : (leb buf (buf + j) && ltb (buf + j) (buf + n)) ≡ true = ground arith in
    let at : buf + j - buf ≡ j = omega arith in rw (inside, at) refl

copy_bytes_out :
    (buf n q : ℕ) (from memory : ℕ → ℕ)
    → (q < buf) ⊎ (buf + n ≤ q)
    → copy_bytes buf from n memory q ≡ memory q
unfolding copy_bytes
copy_bytes_out buf n q from memory out =
    let outside : (leb buf q && ltb q (buf + n)) ≡ false = ground arith in rw outside refl

-- What is read, whatever the length.
read_any :
    {T : Type 0} (e : Surroundings T) (f : InitrdFile) (buf i base len : ℕ) (utsk : UserTask)
    (k : Kernel T)
    → lacks user_perm_ird utsk ≡ false
    → entry i e.files ≡ some f
    → Copied f buf base
        (read_length f.size base len)
        k
        (syscall_initrd_read e buf i base len utsk k)
unfolding syscall_initrd_read
read_any e f buf i base len utsk k ird file =
    let n = read_length f.size base len in
    let from = λ (j : ℕ). f.data_start (base + j) in
    record {
      memory = copy_bytes buf from n k.memory;
      done = rw (ird, file) refl;
      copied = λ j l. copy_bytes_in buf n j from k.memory l;
      kept = λ q o. copy_bytes_out buf n q from k.memory o;
    }

read_length-min :
    (size base len : ℕ) → base + len < 2 ^ 32 → read_length size base len ≡ min len (size - base)
unfolding read_length
read_length-min size base len small = ground arith

-- As long as `base + len` does not wrap around, `initrd_read` by a task with the permission answers
-- how many of the `len` bytes are in the file behind `base`, and copies exactly these to `buf`.
pub syscall_initrd_read-Copied :
    {T : Type 0} (e : Surroundings T) (f : InitrdFile) (buf i base len : ℕ) (utsk : UserTask)
    (k : Kernel T)
    → lacks user_perm_ird utsk ≡ false
    → entry i e.files ≡ some f
    → base + len < 2 ^ 32
    → Copied f buf base (min len (f.size - base)) k (syscall_initrd_read e buf i base len utsk k)
syscall_initrd_read-Copied e f buf i base len utsk k ird file small =
    rw (sym (read_length-min f.size base len small)) (read_any e f buf i base len utsk k ird file)

read_length_wraps :
    (size base len : ℕ)
    → base < size
    → len < 2 ^ 32
    → size < 2 ^ 32
    → 2 ^ 32 ≤ base + len
    → read_length size base len ≡ len
unfolding read_length
read_length_wraps size base len b l s wrap = ground arith

-- For a `base` in the file and a 32-bit `len` with which `base + len` wraps around, `initrd_read`
-- copies `len` bytes, far more than the file has.
pub syscall_initrd_read_overruns :
    {T : Type 0} (e : Surroundings T) (f : InitrdFile) (buf i base len : ℕ) (utsk : UserTask)
    (k : Kernel T)
    → lacks user_perm_ird utsk ≡ false
    → entry i e.files ≡ some f
    → base < f.size
    → f.size < 2 ^ 32
    → len < 2 ^ 32
    → 2 ^ 32 ≤ base + len
    → Copied f buf base len k (syscall_initrd_read e buf i base len utsk k) × (f.size < base + len)
syscall_initrd_read_overruns e f buf i base len utsk k ird file b s l wrap = (
  subst (λ n. Copied f buf base n k (syscall_initrd_read e buf i base len utsk k))
      (read_length_wraps f.size base len b l s wrap) (read_any e f buf i base len utsk k ird file),
  omega arith,
)

-- The bytes of `cs` and a 0 stand in memory from `p` on.
abbrev pub Spells : List ℕ → ℕ → (ℕ → ℕ) → Type 0
Spells [] p memory = memory p ≡ 0
Spells (c ∷ cs) p memory = (memory p ≡ c) × Spells cs (p + 1) memory

same_name-Spells :
    (cs : List ℕ) (p : ℕ) (memory : ℕ → ℕ) → (same_name cs p memory ≡ true) ↔ Spells cs p memory
unfolding same_name
same_name-Spells [] p memory = ground arith
same_name-Spells (c ∷ cs) p memory = (
  λ e. (ground (arith, e), (same_name-Spells cs (p + 1) memory).0 (ground (arith, e))),
  λ s. let rest = (same_name-Spells cs (p + 1) memory).1 s.1 in ground (arith, s.0, rest),
)

-- File `i` is the first one with the name at `p`.
abbrev pub FirstNamed : ℕ → (ℕ → ℕ) → List InitrdFile → ℕ → Type 0
FirstNamed p memory fs i =
    ((j : ℕ) (f : InitrdFile) → j < i → entry j fs ≡ some f → Spells f.name p memory → ⊥)
    × ((f : InitrdFile) → entry i fs ≡ some f → Spells f.name p memory)

some_first :
    (p : ℕ) (memory : ℕ → ℕ) (f g : InitrdFile)
    → some f ≡ some g
    → Spells f.name p memory ↔ Spells g.name p memory
some_first p memory f g e =
    let named = SomeHas (λ (x : InitrdFile). Spells x.name p memory) in
    (subst named e, subst named (sym e))

not_before :
    (p : ℕ) (memory : ℕ → ℕ) (f : InitrdFile) (fs : List InitrdFile) (i : ℕ)
    → same_name f.name p memory ≡ false
    → FirstNamed p memory fs i
    → (j : ℕ) (g : InitrdFile) → j < suc i
    → entry j (f ∷ fs) ≡ some g
    → Spells g.name p memory
    → ⊥
not_before p memory f fs i n h zero g l e s =
    true_ne_false (sym ((same_name-Spells f.name p memory).1 ((some_first p memory f g e).1 s)) ∙ n)
not_before p memory f fs i n h (suc j) g l e s = h.0 j g (omega (arith, l)) e s

find_file-FirstNamed :
    (p : ℕ) (memory : ℕ → ℕ) (fs : List InitrdFile) → FirstNamed p memory fs (find_file p memory fs)
unfolding find_file
find_file-FirstNamed p memory [] = (λ j f l e s. absurd (omega arith), λ f e. absurd (ground arith))
find_file-FirstNamed p memory (f ∷ fs) = elim (Bool-cases (same_name f.name p memory)) [
  | inl y ↦ rw y (
    λ j g l e s. absurd (omega arith),
    λ g e. (some_first p memory f g e).0 ((same_name-Spells f.name p memory).0 y),
  )
  | inr n ↦
      (let rest = find_file-FirstNamed p memory fs in
        rw n (not_before p memory f fs (find_file p memory fs) n rest, rest.1))
]

find_file-le : (p : ℕ) (memory : ℕ → ℕ) (fs : List InitrdFile) → find_file p memory fs ≤ length fs
unfolding find_file
find_file-le p memory [] = omega arith
find_file-le p memory (f ∷ fs) = ground (arith, find_file-le p memory fs)

entry_in : {A : Type 0} (i : ℕ) (xs : List A) (x : A) → entry i xs ≡ some x → i < length xs
entry_in i [] x e = absurd (ground arith)
entry_in zero (y ∷ ys) x e = omega arith
entry_in (suc i) (y ∷ ys) x e = omega (arith, entry_in i ys x e)

-- No file has the name, and the answer is -2; or `i` is the first that has it, and is answered.
abbrev pub FindsFile : {T : Type 0} → Surroundings T → ℕ → ℕ → Kernel T → Outcome T ℕ → Type 0
FindsFile e buf name k out =
    ((out ≡ returns (minus 2) k)
      × ((j : ℕ) (f : InitrdFile) → entry j e.files ≡ some f → Spells f.name name k.memory → ⊥))
    ⊎ ((i : ℕ) × (out ≡ returns i (record k { filled = (buf, i) ∷ k.filled }))
        × (i < length e.files)
        × FirstNamed name k.memory e.files i)

-- With the permission and a buffer, `initrd_getf` answers the number of the first file whose name is
-- the string at `name`, and fills the buffer with that file's data; when there is none it answers -2.
pub syscall_initrd_getf-FindsFile :
    {T : Type 0} (e : Surroundings T) (buf name : ℕ) (utsk : UserTask) (k : Kernel T)
    → lacks user_perm_ird utsk ≡ false
    → 0 < buf
    → FindsFile e buf name k (syscall_initrd_getf e buf name utsk k)
unfolding syscall_initrd_getf
syscall_initrd_getf-FindsFile e buf name utsk k ird pos =
    let i = find_file name k.memory e.files in
    let first = find_file-FirstNamed name k.memory e.files in
    let some_buf : (buf == 0) ≡ false = ==-false {a = buf} {b = 0} (λ z. absurd (omega arith)) in
    elim (Bool-cases (leb (length e.files) i)) [
      | inl y ↦ inl (
        rw (ird, y) refl,
        λ j f file s. first.0 j f (ground (arith, entry_in j e.files f file)) file s,
      )
      | inr n ↦ inr (i, rw (ird, n, some_buf) refl, ground arith, first)
    ]
