-- ===== src/Arguments.antt =====
-- lib/libc/sys/argconst.c: the stack with the arguments of a program.
pub mod Texts
mod Tests
use modit_micro.Base.{
  ℕ, zero, suc, ◌+◌, ◌-◌, ◌*◌, ◌/◌, ◌%◌, ◌^◌, List, [], ◌∷◌, ◌++◌, ◌==◌, if◌then◌else◌, length,
}

-- An address of 32 bits, moved down.
abbrev pub down : ℕ → ℕ → ℕ
down p n = (p + 2 ^ 32 - n % 2 ^ 32) % 2 ^ 32

abbrev pub write : ℕ → ℕ → (ℕ → ℕ) → ℕ → ℕ
write p v m a = if p == a then v else m a

-- `memcpy` of bytes and of words.
pub write_bytes : ℕ → List ℕ → (ℕ → ℕ) → ℕ → ℕ
write_bytes p [] m = m
write_bytes p (c ∷ cs) m = write_bytes (p + 1) cs (write p c m)

pub write_words : ℕ → List ℕ → (ℕ → ℕ) → ℕ → ℕ
unfolding write_bytes
write_words p [] m = m
write_words p (w ∷ ws) m =
    write_words (p + 4) ws
      (write_bytes p (w % 256 ∷ w / 2 ^ 8 % 256 ∷ w / 2 ^ 16 % 256 ∷ w / 2 ^ 24 % 256 ∷ []) m)

-- `*stksz` after the first loop and the 8 bytes more; an argument is the bytes before its NUL.
pub stack_size : List (List ℕ) → ℕ
stack_size [] = 8
stack_size (cs ∷ argv) = (stack_size argv + 4 + length cs) % 2 ^ 32

-- `ustkptr`, `ptr_real`, the memory, and the pointers that were put into `argv`.
pub record Stack : Type 0 where
  pub ustkptr : ℕ
  pub ptr_real : ℕ
  pub mem : ℕ → ℕ
  pub argv : List ℕ

-- One round of the second loop.
pub push_text : List ℕ → Stack → Stack
unfolding write_bytes
push_text cs s =
    let p = down s.ustkptr (length cs + 1) in
    let real = down s.ptr_real (length cs + 1) in
    record {
      ustkptr = p;
      ptr_real = real;
      mem = write (p + length cs) 0 (write_bytes p cs s.mem);
      argv = s.argv ++ real ∷ [];
    }

pub push_texts : List (List ℕ) → Stack → Stack
push_texts [] s = s
push_texts (cs ∷ argv) s = push_texts argv (push_text cs s)

-- `ustk` is the answer of `malloc` for `stack_size argv` bytes.
pub construct_ustk : ℕ → List (List ℕ) → (ℕ → ℕ) → Stack
construct_ustk ustk argv m =
    let argc = length argv in
    let s = push_texts argv (record {
      ustkptr = (ustk + stack_size argv) % 2 ^ 32;
      ptr_real = 0xD0000000;
      mem = m;
      argv = [];
    }) in
    let table = down s.ustkptr (4 * (argc + 1)) in
    let bottom = down table 4 in
    record s {
      ustkptr = bottom;
      mem = write_words bottom (argc ∷ []) (write_words table (s.argv ++ 0 ∷ []) s.mem);
    }
