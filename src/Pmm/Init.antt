-- ===== src/Pmm/Init.antt =====
-- `_pmm_init` of module/bmpmm/main.c: the bitmap built from the boot loader's memory map.
pub mod Balanced
use modit_micro.Base.{
  ℕ, zero, suc, ◌+◌, ◌-◌, ◌*◌, ◌/◌, ◌%◌, ◌^◌, ◌≡◌, ◌∙◌, ◌≤◌, ◌<◌, refl, List, [], ◌∷◌, ltb, not,
  ◌==◌, if◌then◌else◌, arith,
}
use modit_micro.Pmm.{Pmm, Words, write_word, inc32, bm_test}

-- An entry of the boot loader's memory map. Its type and the kernel's headers are not in this
-- repository; addresses and lengths may be wider than 32 bits.
pub record MmapEntry : Type 0 where
  pub kind : ℕ
  pub addr : ℕ
  pub len : ℕ

-- What the function reads: `mbinfo`, what `kcore_getbm` gives, `krnl_next_free_pg`, and the words
-- that stand in memory where the bitmap will be.
pub record Boot : Type 0 where
  pub mem_lower : ℕ
  pub mem_upper : ℕ
  pub entries : List MmapEntry
  pub old_bitmap : Words
  pub old_map_end : ℕ
  pub next_free_pg : ℕ
  pub memory : Words

pub get_byte : Words → ℕ → ℕ
get_byte f b = f (b / 4) / 256 ^ (b % 4) % 256

pub put_byte : Words → ℕ → ℕ → Words
unfolding get_byte
put_byte f b v = write_word f (b / 4) (f (b / 4) - get_byte f b * 256 ^ (b % 4) + v * 256 ^ (b % 4))

-- `memset(f + start, 0, n)` and `memcpy(f, src, n)`, the latter with the bytes done so far.
pub memset_zero : ℕ → ℕ → Words → Words
unfolding put_byte
memset_zero zero start f = f
memset_zero (suc n) start f = memset_zero n (start + 1) (put_byte f start 0)

pub memcpy_from : ℕ → ℕ → Words → Words → Words
unfolding put_byte
memcpy_from zero i src f = f
memcpy_from (suc n) i src f = memcpy_from n (i + 1) src (put_byte f i (get_byte src i))

-- The body of the loop over the memory map: clear the bytes of a region of type 1.
pub map_region : ℕ → MmapEntry → Words → Words
unfolding memset_zero
map_region size entry f =
    let index = entry.addr / 4096 / 8 % 2 ^ 32 in
    let len = entry.len / 4096 / 8 % 2 ^ 32 in
    let last = size / 4096 / 8 in
    if not (entry.kind == 1)
    then f
    else if ltb last index
    then f
    else memset_zero (if ltb last ((index + len) % 2 ^ 32) then last - index else len) index f

pub map_regions : ℕ → List MmapEntry → Words → Words
unfolding map_region
map_regions size [] f = f
map_regions size (e ∷ es) f = map_regions size es (map_region size e f)

-- The arguments of the calls of `allocpg` for the bitmap's own pages.
pub map_pages : ℕ → ℕ → List ℕ
map_pages zero pg = []
map_pages (suc n) pg = pg ∷ map_pages n ((pg + 4096) % 2 ^ 32)

-- The last loop, which counts the pages.
pub count_loop : ℕ → ℕ → Pmm → Pmm
unfolding bm_test
count_loop zero i m = m
count_loop (suc n) i m = count_loop n (i + 1) (
    if bm_test m.bitmap i
    then record m { pages_taken = inc32 m.pages_taken }
    else record m { pages_free = inc32 m.pages_free })

pub record Booted : Type 0 where
  pub pmm : Pmm
  pub allocated : List ℕ
  pub next_free_pg : ℕ

abbrev map_size : Boot → ℕ
map_size b = (b.mem_lower + b.mem_upper) % 2 ^ 32 * 1024 % 2 ^ 32

-- The state before the last loop. The counters are 0, as the file's initialisers say.
uncounted : Boot → Pmm
unfolding map_regions memcpy_from
uncounted b = record {
  bitmap =
      memcpy_from (b.old_map_end / 4096 / 4) 0 b.old_bitmap
        (map_regions (map_size b) b.entries b.memory);
  mapsize = map_size b;
  pages_free = 0;
  pages_taken = 0;
  pages_total = map_size b / 4096;
  last_free = 0;
}

unfoldable pub pmm_init : Boot → Booted
unfolding uncounted count_loop map_pages
pmm_init b =
    let map_pages_count : ℕ = map_size b / 4096 / 4096 / 8 in
    record {
      pmm = count_loop (map_size b / 4096) 0 (uncounted b);
      allocated = map_pages (map_pages_count + 1) b.next_free_pg;
      next_free_pg = (b.next_free_pg + 4096 * (map_pages_count + 1) + 4096) % 2 ^ 32;
    }
