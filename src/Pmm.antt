-- ===== src/Pmm.antt =====
-- module/bmpmm/main.c: the physical page allocator over a bitmap, one bit to a page.
pub mod Init
pub mod Bitmap
pub mod Count
pub mod Seek
pub mod Balance
pub mod Getpg
pub mod Handout
pub mod Blocks
pub mod Calls
pub mod Faults
mod Tests
use modit_micro.Base.{
  ℕ, zero, suc, ◌+◌, ◌-◌, ◌*◌, ◌/◌, ◌%◌, ◌^◌, bit_and, bit_or, Bool, not, Option, none, some, leb,
  ◌==◌, if◌then◌else◌,
}

-- The words from `bitmap` on. Indices are not bounded: C reads whatever memory lies behind.
abbrev pub Words : Type 0
Words = ℕ → ℕ

abbrev pub write_word : Words → ℕ → ℕ → Words
write_word f i v j = if i == j then v else f j

-- `x++` and `x--` on a 32-bit counter.
abbrev pub inc32 : ℕ → ℕ
inc32 x = (x + 1) % 2 ^ 32

abbrev pub dec32 : ℕ → ℕ
dec32 x = (x + 2 ^ 32 - 1) % 2 ^ 32

-- The file's global variables.
pub record Pmm : Type 0 where
  pub bitmap : Words
  pub mapsize : ℕ
  pub pages_free : ℕ
  pub pages_taken : ℕ
  pub pages_total : ℕ
  pub last_free : ℕ

-- `BM_TEST(i)`, read as a truth value.
unfoldable pub bm_test : Words → ℕ → Bool
bm_test f i = not (bit_and (f (i / 32)) (2 ^ (i % 32)) == 0)

-- `BM_SET(i)`.
pub bm_set : Words → ℕ → Words
bm_set f i = write_word f (i / 32) (bit_or (f (i / 32)) (2 ^ (i % 32)))

-- `BM_UNSET(i)`.
pub bm_unset : Words → ℕ → Words
bm_unset f i = write_word f (i / 32) (bit_and (f (i / 32)) (2 ^ 32 - 1 - 2 ^ (i % 32)))

-- The inner loop of `bm_seek_free`, with the rounds left.
pub seek_bit : ℕ → ℕ → ℕ → Option ℕ
seek_bit zero j w = none
seek_bit (suc n) j w =
    let rest = seek_bit n (j + 1) w in if bit_and w (2 ^ j) == 0 then some j else rest

-- The outer loop. `none` is the `return -1` behind it.
pub seek_word : ℕ → ℕ → Words → Option ℕ
unfolding seek_bit
seek_word zero i f = none
seek_word (suc n) i f =
    let rest = seek_word n (i + 1) f in
    if f i == 0xFFFFFFFF
    then rest
    else elim (seek_bit 32 0 (f i)) [ none ↦ rest | some j ↦ some (i * 32 + j) ]

-- An `int32_t` result is its bit pattern: -1 is 2 ^ 32 - 1.
pub bm_seek_free : Pmm → ℕ
unfolding seek_word
bm_seek_free m = elim (seek_word (m.mapsize / 32) 0 m.bitmap) [
  | none ↦ 2 ^ 32 - 1
  | some p ↦ p % 2 ^ 32
]

pub bm_get_free : Pmm → ℕ × Pmm
unfolding bm_test bm_seek_free
bm_get_free m =
    let next = inc32 (if bm_test m.bitmap m.last_free then bm_seek_free m else m.last_free) in
    (dec32 next, record m { last_free = next })

-- `BM_SET`, with the counters moved.
abbrev take_page : ℕ → Pmm → Pmm
take_page p m = record m {
  bitmap = bm_set m.bitmap p;
  pages_free = dec32 m.pages_free;
  pages_taken = inc32 m.pages_taken;
}

unfoldable pub bm_getpg : Pmm → ℕ × Pmm
unfolding bm_get_free bm_set
bm_getpg m =
    if leb m.pages_total m.pages_taken
    then (0, m)
    else let (free, m') = bm_get_free m in
      if free == 2 ^ 32 - 1 then (0, m') else (free * 4096 % 2 ^ 32, take_page free m')

-- The body of `bm_resvpg` at a page number, and of the loop of `bm_addblock`.
pub reserve : ℕ → Pmm → Pmm
unfolding bm_test bm_set
reserve p m = if bm_test m.bitmap p then record m { bitmap = bm_set m.bitmap p } else take_page p m

pub bm_resvpg : ℕ → Pmm → Pmm
unfolding reserve
bm_resvpg ptr m = reserve (ptr / 4096) m

pub bm_freepg : ℕ → Pmm → Pmm
unfolding bm_unset
bm_freepg ptr m = record m {
  bitmap = bm_unset m.bitmap (ptr / 4096);
  pages_free = inc32 m.pages_free;
  pages_taken = dec32 m.pages_taken;
}

-- The body of the loop of `bm_rmblock`.
pub release : ℕ → Pmm → Pmm
unfolding bm_test bm_unset
release p m =
    if bm_test m.bitmap p
    then record m {
      bitmap = bm_unset m.bitmap p;
      pages_free = inc32 m.pages_free;
      pages_taken = dec32 m.pages_taken;
    }
    else record m { bitmap = bm_unset m.bitmap p }

-- `pindex` is a `uint16_t`.
pub block_loop : (ℕ → Pmm → Pmm) → ℕ → ℕ → Pmm → Pmm
block_loop body zero pindex m = m
block_loop body (suc n) pindex m = block_loop body n ((pindex + 1) % 2 ^ 16) (body pindex m)

pub bm_addblock : ℕ → ℕ → Pmm → Pmm
unfolding block_loop reserve
bm_addblock start len m = block_loop reserve len (start / 4096 % 2 ^ 16) m

pub bm_rmblock : ℕ → ℕ → Pmm → Pmm
unfolding block_loop release
bm_rmblock start len m = block_loop release len (start / 4096 % 2 ^ 16) m
