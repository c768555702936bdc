-- ===== src/Heap.antt =====
-- module/heap/main.c and module/heap.h: the kernel's allocator, a doubly linked list of bins in
-- address order, whose headers are kept apart from the memory that they describe.
pub mod Links
pub mod Bins
pub mod Adding
pub mod Remove
pub mod Tiles
pub mod Fit
pub mod Split
pub mod Alloc
pub mod Kalloc
pub mod Merge
pub mod Halves
pub mod Kfree
pub mod Calls
pub mod Unique
pub mod Aligned
mod Tests
use modit_micro.Base.{
  ℕ, zero, suc, ◌+◌, ◌-◌, ◌*◌, ◌/◌, ◌%◌, ◌^◌, Bool, true, false, not, ◌&&◌, Option, none, some,
  List, [], ◌∷◌, leb, ltb, ◌==◌, if◌then◌else◌,
}

-- `bin_header_t`. The size is a bit field of 31 bits. A pointer is an address, NULL is 0.
pub record Bin : Type 0 where
  pub addr : ℕ
  pub taken : Bool
  pub size : ℕ
  pub prev : ℕ
  pub next : ℕ

-- The file's variables, the headers by address, and the calls of `allocpgs`, newest first.
pub record Heap : Type 0 where
  pub bins : ℕ → Bin
  pub bin_tail : ℕ
  pub bin_head : ℕ
  pub bin_hiaddr : ℕ
  pub empty_head : ℕ
  pub mapped : List (ℕ × ℕ)

abbrev pub bin_start : ℕ
bin_start = 0xE1000000

-- A store through a pointer writes one field of the header there.
abbrev pub set_prev : ℕ → ℕ → Heap → Heap
set_prev p v h = record h {
  bins = λ q. record (h.bins q) { prev = if p == q then v else (h.bins q).prev };
}

abbrev pub set_next : ℕ → ℕ → Heap → Heap
set_next p v h = record h {
  bins = λ q. record (h.bins q) { next = if p == q then v else (h.bins q).next };
}

-- `size` keeps the low 31 bits of what is stored.
abbrev pub set_size : ℕ → ℕ → Heap → Heap
set_size p v h = record h {
  bins = λ q. record (h.bins q) { size = if p == q then v % 2 ^ 31 else (h.bins q).size };
}

abbrev pub set_addr : ℕ → ℕ → Heap → Heap
set_addr p v h = record h {
  bins = λ q. record (h.bins q) { addr = if p == q then v else (h.bins q).addr };
}

abbrev pub set_taken : ℕ → Bool → Heap → Heap
set_taken p v h = record h {
  bins = λ q. record (h.bins q) { taken = if p == q then v else (h.bins q).taken };
}

-- `memset(p, 0, sizeof(bin_header_t))`.
abbrev pub clear : ℕ → Heap → Heap
clear p h = set_taken p false (set_size p 0 (set_addr p 0 (set_prev p 0 (set_next p 0 h))))

-- The stores that the code makes only through a pointer that is not NULL.
abbrev pub set_prev_unless_null : ℕ → ℕ → Heap → Heap
set_prev_unless_null p v h = record h {
  bins = λ q. record (h.bins q) { prev = if not (p == 0) && p == q then v else (h.bins q).prev };
}

abbrev pub set_next_unless_null : ℕ → ℕ → Heap → Heap
set_next_unless_null p v h = record h {
  bins = λ q. record (h.bins q) { next = if not (p == 0) && p == q then v else (h.bins q).next };
}

-- `virtual_allocator->allocpgs(addr, size, 0x3)`.
abbrev pub allocpgs : ℕ → ℕ → Heap → Heap
allocpgs addr size h = record h { mapped = (addr, size) ∷ h.mapped }

-- A header that was never used. A `bin_header_t` takes 16 bytes.
pub fresh_bin : Heap → ℕ × Heap
fresh_bin h =
    let bin : ℕ = (h.bin_hiaddr + 16) % 2 ^ 32 in
    (bin, clear bin (allocpgs bin 0x2000 (record h { bin_hiaddr = bin })))

pub find_free_bin : Heap → ℕ × Heap
find_free_bin h =
    if not (h.empty_head == 0)
    then (h.empty_head, record h { empty_head = (h.bins h.empty_head).next })
    else fresh_bin h

-- The links of a new bin behind `parent`.
pub link_bin : ℕ → ℕ → Heap → Heap
link_bin parent bin h =
    let after = (h.bins parent).next in
    let h1 = set_prev bin parent (set_next bin after (clear bin h)) in
    record (set_next parent bin (set_prev_unless_null after bin h1)) {
      bin_tail = if parent == h.bin_tail then bin else h.bin_tail;
    }

-- A new bin behind `parent`, past the guards of `add_bin`.
pub fill_bin : ℕ → ℕ → ℕ → Heap → Heap
fill_bin bin addr size h =
    allocpgs addr ((size + 0x1000) % 2 ^ 32) (set_addr bin addr (set_size bin size h))

pub place_bin : ℕ → ℕ → ℕ → Heap → ℕ × Heap
unfolding find_free_bin fresh_bin link_bin fill_bin
place_bin parent addr size h =
    let (bin, h1) = find_free_bin h in (bin, fill_bin bin addr size (link_bin parent bin h1))

pub add_bin : ℕ → ℕ → ℕ → Heap → ℕ × Heap
unfolding place_bin
add_bin parent addr size h =
    if parent == 0
    then (0, h)
    else if ltb addr bin_start
    then (0, h)
    else if size == 0
    then (0, h)
    else place_bin parent addr size h

-- `none`, here and below, means that the fuel ran out, or that the code faults.
pub last_empty : ℕ → ℕ → Heap → Option ℕ
last_empty zero p h = none
last_empty (suc fuel) p h =
    let rest = last_empty fuel (h.bins p).next h in if (h.bins p).next == 0 then some p else rest

-- The neighbours of `bin` are linked to each other.
pub unlink_bin : ℕ → Heap → Heap
unlink_bin bin h =
    let h1 = set_prev_unless_null (h.bins bin).next (h.bins bin).prev h in
    set_next_unless_null (h1.bins bin).prev (h1.bins bin).next h1

-- A removed bin goes to the end of the list of empty headers.
pub retire_bin : ℕ → ℕ → Heap → Option Heap
unfolding last_empty
retire_bin fuel bin h =
    if h.empty_head == 0
    then some (record h { empty_head = bin })
    else elim (last_empty fuel h.empty_head h) [
      | none ↦ none
      | some last ↦ some (set_prev bin last (set_next last bin h))
    ]

-- The heap without `bin` in its list, before the header is put away.
pub detach_bin : ℕ → Heap → Heap
unfolding unlink_bin
detach_bin bin h =
    let h1 = unlink_bin bin h in
    set_prev bin 0 (
      set_next bin 0 (record h1 {
        bin_head = if h1.bin_head == bin then (h1.bins bin).next else h1.bin_head;
        bin_tail = if h1.bin_tail == bin then (h1.bins bin).prev else h1.bin_tail;
      }))

pub remove_bin : ℕ → ℕ → Heap → Option Heap
unfolding detach_bin retire_bin
remove_bin fuel bin h =
    if h.bin_head == h.bin_tail && h.bin_head == bin
    then some (unlink_bin bin h)
    else retire_bin fuel bin (detach_bin bin h)

pub append_bin : ℕ → Heap → ℕ × Heap
unfolding add_bin
append_bin size h =
    add_bin h.bin_tail (((h.bins h.bin_tail).addr + (h.bins h.bin_tail).size) % 2 ^ 32) size h

-- The two halves of a round of `merge_bin`, each with whether it merged.
pub merge_next : ℕ → ℕ → Heap → Option (Bool × Heap)
unfolding remove_bin
merge_next fuel p h =
    let next = (h.bins p).next in
    if next == 0
    then some (false, h)
    else if not (h.bins p).taken && not (h.bins next).taken
    then elim (remove_bin fuel next (set_size p ((h.bins p).size + (h.bins next).size) h)) [
      | none ↦ none
      | some h' ↦ some (true, h')
    ]
    else some (false, h)

pub merge_prev : ℕ → ℕ → Heap → Option (Bool × Heap)
unfolding remove_bin
merge_prev fuel p h =
    let prev = (h.bins p).prev in
    if prev == 0
    then some (false, h)
    else if not (h.bins p).taken && not (h.bins prev).taken
    then elim (remove_bin fuel prev
        (set_addr p (h.bins prev).addr (set_size p ((h.bins p).size + (h.bins prev).size) h))) [
          | none ↦ none
          | some h' ↦ some (true, h')
        ]
    else some (false, h)

pub merge_bin : ℕ → ℕ → Heap → Option Heap
unfolding merge_next merge_prev
merge_bin zero p h = none
merge_bin (suc fuel) p h = elim (merge_next fuel p h) [
  | none ↦ none
  | some (a, h1) ↦ elim (merge_prev fuel p h1) [
    | none ↦ none
    | some (b, h2) ↦
        let rest = merge_bin fuel p h2 in if a then rest else if b then rest else some h2
  ]
]

pub split_bin : ℕ → ℕ → Heap → Heap
unfolding add_bin
split_bin bin s h =
    let b = h.bins bin in
    if b.size == s
    then h
    else set_size bin s (add_bin bin ((b.addr + s) % 2 ^ 32) ((b.size + 2 ^ 32 - s) % 2 ^ 32) h).1

-- Whether `bin` takes the place of the best fit so far.
pub fits_better : ℕ → ℕ → ℕ → Heap → Bool
fits_better s bin best h =
    if (h.bins bin).taken
    then false
    else if ltb (h.bins bin).size s
    then false
    else if best == 0
    then true
    else ltb ((h.bins bin).size - s) ((h.bins best).size - s)

pub best_fit_from : ℕ → ℕ → ℕ → ℕ → Heap → Option ℕ
unfolding fits_better
best_fit_from zero s bin best h = none
best_fit_from (suc fuel) s bin best h =
    let rest =
      best_fit_from fuel s (h.bins bin).next (if fits_better s bin best h then bin else best) h in
    if bin == 0 then some best else rest

pub find_best_fit : ℕ → ℕ → Heap → Option ℕ
unfolding best_fit_from
find_best_fit fuel s h = best_fit_from fuel s h.bin_head 0 h

-- `((s + 15) / 16) * 16` in 32 bits.
pub round16 : ℕ → ℕ
round16 s = (s + 15) % 2 ^ 32 / 16 * 16

-- The bin that `kalloc` uses where no free one is large enough.
pub grow : ℕ → Heap → ℕ × Heap
unfolding append_bin
grow rsize h = if (h.bins h.bin_tail).taken then append_bin rsize h else (
  h.bin_tail,
  allocpgs (h.bins h.bin_tail).addr ((rsize + 1) % 2 ^ 32) (set_size h.bin_tail rsize h),
)

-- The last steps of `kalloc` and `kalloc_a`.
pub finish : ℕ → ℕ × Heap → ℕ × Heap
unfolding split_bin
finish rsize (bin, h) =
    let h1 = set_taken bin true (split_bin bin rsize h) in ((h1.bins bin).addr, h1)

-- A bin that is NULL faults: `none`.
pub hand_out : ℕ → ℕ × Heap → Option (ℕ × Heap)
unfolding finish
hand_out rsize out = if out.0 == 0 then none else some (finish rsize out)

-- `append_bin` answers NULL for a size that is rounded to 0.
unfoldable pub kalloc : ℕ → ℕ → Heap → Option (ℕ × Heap)
unfolding find_best_fit round16 grow hand_out
kalloc fuel s h = if s == 0 then some (0, h) else elim (find_best_fit fuel (round16 s) h) [
  | none ↦ none
  | some best ↦ hand_out (round16 s) (if best == 0 then grow (round16 s) h else (best, h))
]

pub find_addr : ℕ → ℕ → ℕ → Heap → Option ℕ
find_addr zero p bin h = none
find_addr (suc fuel) p bin h =
    let rest = find_addr fuel p (h.bins bin).next h in
    if bin == 0 then some 0 else if (h.bins bin).addr == p then some bin else rest

unfoldable pub kfree : ℕ → ℕ → Heap → Option Heap
unfolding find_addr merge_bin
kfree fuel p h = elim (find_addr fuel p h.bin_head h) [
  | none ↦ none
  | some bin ↦ if bin == 0 then some h else merge_bin fuel bin (set_taken bin false h)
]

-- `heap_init`; what stands in memory beside the first header is arbitrary, and `allocpg` counts as
-- the mapping of one page.
pub heap_init : ℕ → (ℕ → Bin) → Heap
heap_init krnl_next_free_pg memory = record {
  bins = λ q.
      if krnl_next_free_pg == q
      then record { addr = bin_start; taken = false; size = 0x1000; prev = 0; next = 0 }
      else memory q;
  bin_tail = krnl_next_free_pg;
  bin_head = krnl_next_free_pg;
  bin_hiaddr = krnl_next_free_pg;
  empty_head = 0;
  mapped = (bin_start, 0x1000) ∷ (krnl_next_free_pg, 0x1000) ∷ [];
}
