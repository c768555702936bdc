-- ===== src/UserHeap.antt =====
-- lib/libc/stdlib/heap.c: the allocator of user programs, a doubly linked list of bins whose headers are
-- kept apart from the memory that they describe.
pub mod Fit
pub mod Malloc
pub mod Damage
mod Tests
use modit_micro.Base.{
  ℕ, zero, suc, ◌+◌, ◌-◌, ◌*◌, ◌/◌, ◌%◌, ◌^◌, Bool, true, false, not, ◌&&◌, Option, none, some,
  List, [], ◌∷◌, leb, ltb, ◌==◌, if◌then◌else◌,
}

-- `heap_bin_t`. Bit 0 of `flags` says that the bin is taken, the other bits are its size. A pointer is
-- an address, NULL is 0.
pub record Bin : Type 0 where
  pub prev : ℕ
  pub next : ℕ
  pub addr : ℕ
  pub flags : ℕ

-- The file's variables, the headers by address, and the calls of `micro_allocpgs`, newest first.
pub record Heap : Type 0 where
  pub bins : ℕ → Bin
  pub bin_tail : ℕ
  pub bin_head : ℕ
  pub bin_next : ℕ
  pub ehead : ℕ
  pub pg : Bool
  pub mapped : List (ℕ × ℕ)

-- `BIN_TAKEN` and `BIN_SIZE`.
abbrev pub bin_taken : ℕ → Bool
bin_taken flags = flags % 2 == 1

abbrev pub bin_size : ℕ → ℕ
bin_size flags = flags / 2 * 2

-- The stores through a pointer, made where `b` holds.
abbrev pub set_prev : Bool → ℕ → ℕ → Heap → Heap
set_prev b p v h = record h {
  bins = λ q. record (h.bins q) { prev = if b && p == q then v else (h.bins q).prev };
}

abbrev pub set_next : Bool → ℕ → ℕ → Heap → Heap
set_next b p v h = record h {
  bins = λ q. record (h.bins q) { next = if b && p == q then v else (h.bins q).next };
}

abbrev pub set_addr : ℕ → ℕ → Heap → Heap
set_addr p v h = record h {
  bins = λ q. record (h.bins q) { addr = if p == q then v else (h.bins q).addr };
}

abbrev pub set_flags : ℕ → ℕ → Heap → Heap
set_flags p v h = record h {
  bins = λ q. record (h.bins q) { flags = if p == q then v % 2 ^ 32 else (h.bins q).flags };
}

-- `memset(p, 0, sizeof(heap_bin_t))`.
abbrev pub clear : ℕ → Heap → Heap
clear p h = set_flags p 0 (set_addr p 0 (set_prev true p 0 (set_next true p 0 h)))

-- `if(pg) micro_allocpgs(addr, size, 0x7)`.
abbrev pub map_pages : ℕ → ℕ → Heap → Heap
map_pages addr size h = record h { mapped = if h.pg then (addr, size) ∷ h.mapped else h.mapped }

-- A header that was never used. A `heap_bin_t` takes 16 bytes.
pub fresh_bin : Heap → ℕ × Heap
fresh_bin h =
    let bin : ℕ = (h.bin_next + 16) % 2 ^ 32 in
    (bin, clear bin (map_pages bin 16 (record h { bin_next = bin })))

pub find_free_bin : Heap → ℕ × Heap
unfolding fresh_bin
find_free_bin h =
    if not (h.ehead == 0)
    then (h.ehead, record h { ehead = (h.bins h.ehead).next })
    else fresh_bin h

-- A new bin behind `parent`, past the guards of `add_bin`.
pub place_bin : ℕ → ℕ → ℕ → Heap → ℕ × Heap
place_bin parent addr size h =
    let (bin, h0) = find_free_bin h in
    let h1 = clear bin h0 in
    let after = (h1.bins parent).next in
    let h2 = set_prev true bin parent (set_next true bin after h1) in
    let h3 = set_next true parent bin (set_prev (not (after == 0)) after bin h2) in
    let h4 = record h3 { bin_tail = if parent == h3.bin_tail then bin else h3.bin_tail } in
    (bin, map_pages addr size (set_addr bin addr (set_flags bin size h4)))

pub add_bin : ℕ → ℕ → ℕ → Heap → ℕ × Heap
unfolding place_bin
add_bin parent addr size h =
    if parent == 0 then (0, h) else if size == 0 then (0, h) else place_bin parent addr size h

-- `none`, here and below, means that the fuel ran out.
pub last_empty : ℕ → ℕ → Heap → Option ℕ
last_empty zero p h = none
last_empty (suc fuel) p h =
    let rest = last_empty fuel (h.bins p).next h in if (h.bins p).next == 0 then some p else rest

-- The neighbours of `bin` are linked to each other.
pub unlink_bin : ℕ → Heap → Heap
unlink_bin bin h =
    let after = (h.bins bin).next in
    let h1 = set_prev (not (after == 0)) after (h.bins bin).prev h in
    let before = (h1.bins bin).prev in set_next (not (before == 0)) before (h1.bins bin).next h1

-- A removed bin goes to the end of the list of empty headers, with the `next` that it had.
pub retire_bin : ℕ → ℕ → Heap → Option Heap
unfolding last_empty
retire_bin fuel bin h =
    if h.ehead == 0 then some (record h { ehead = bin }) else elim (last_empty fuel h.ehead h) [
      | none ↦ none
      | some last ↦ some (set_prev true bin last (set_next true last bin h))
    ]

pub remove_bin : ℕ → ℕ → Heap → Option Heap
unfolding unlink_bin retire_bin
remove_bin fuel bin h =
    let h1 = unlink_bin bin h in
    if h1.bin_head == h1.bin_tail && h1.bin_head == bin
    then some h1
    else retire_bin fuel bin (record h1 {
      bin_head = if h1.bin_head == bin then (h1.bins bin).next else h1.bin_head;
      bin_tail = if h1.bin_tail == bin then (h1.bins bin).prev else h1.bin_tail;
    })

pub append_bin : ℕ → Heap → ℕ × Heap
unfolding add_bin
append_bin size h =
    let last = h.bins h.bin_tail in
    add_bin h.bin_tail ((last.addr + bin_size last.flags) % 2 ^ 32) size h

-- Whether both of two bins are free.
abbrev pub both_free : ℕ → ℕ → Heap → Bool
both_free p q h = not (bin_taken (h.bins p).flags) && not (bin_taken (h.bins q).flags)

-- The two halves of a round of `merge_bin`, each with whether it merged.
pub merge_next : ℕ → ℕ → Heap → Option (Bool × Heap)
merge_next fuel p h =
    let next = (h.bins p).next in
    let h1 = set_flags p ((h.bins p).flags + bin_size (h.bins next).flags) h in
    let h2 = record h1 {
      bin_tail = if next == h1.bin_tail then p else h1.bin_tail;
      bin_head = if p == h1.bin_head then next else h1.bin_head;
    } in
    if next == 0
    then some (false, h)
    else if both_free p next h
    then elim (remove_bin fuel next h2) [ none ↦ none | some h' ↦ some (true, h') ]
    else some (false, h)

pub merge_prev : ℕ → ℕ → Heap → Option (Bool × Heap)
merge_prev fuel p h =
    let prev = (h.bins p).prev in
    let h1 = set_flags p ((h.bins p).flags + bin_size (h.bins prev).flags) h in
    let h2 = record h1 {
      bin_tail = if p == h1.bin_tail then prev else h1.bin_tail;
      bin_head = if prev == h1.bin_head then p else h1.bin_head;
    } in
    if prev == 0
    then some (false, h)
    else if both_free p prev h
    then elim (remove_bin fuel prev h2) [ none ↦ none | some h' ↦ some (true, h') ]
    else some (false, h)

pub merge_bin : ℕ → ℕ → Heap → Option Heap
merge_bin zero p h = none
merge_bin (suc fuel) p h = elim (merge_next fuel p h) [
  | none ↦ none
  | some (a, h1) ↦ elim (merge_prev fuel p h1) [
    | none ↦ none
    | some (b, h2) ↦
        let rest = merge_bin fuel p h2 in if a then rest else if b then rest else some h2
  ]
]

pub split_bin : ℕ → ℕ → Heap → Heap
split_bin bin s h =
    let b = h.bins bin in
    if bin_size b.flags == s
    then h
    else set_flags bin s
        (add_bin bin ((b.addr + s) % 2 ^ 32) ((bin_size b.flags + 2 ^ 32 - s) % 2 ^ 32) h).1

-- Whether `bin` takes the place of the best fit so far.
pub fits_better : ℕ → ℕ → ℕ → Heap → Bool
fits_better s bin best h =
    if bin_taken (h.bins bin).flags
    then false
    else if ltb (bin_size (h.bins bin).flags) s
    then false
    else if best == 0
    then true
    else ltb (bin_size (h.bins bin).flags - s) (bin_size (h.bins best).flags - s)

pub best_fit_from : ℕ → ℕ → ℕ → ℕ → Heap → Option ℕ
best_fit_from zero s bin best h = none
best_fit_from (suc fuel) s bin best h =
    let rest =
      best_fit_from fuel s (h.bins bin).next (if fits_better s bin best h then bin else best) h in
    if bin == 0 then some best else rest

pub find_best_fit : ℕ → ℕ → Heap → Option ℕ
find_best_fit fuel s h = best_fit_from fuel s h.bin_head 0 h

-- `((size + 1) / 2) * 2` in 32 bits.
abbrev pub round2 : ℕ → ℕ
round2 s = (s + 1) % 2 ^ 32 / 2 * 2

-- The bin that `malloc` uses where no free one is large enough.
pub grow : ℕ → Heap → ℕ × Heap
grow size h = if bin_taken (h.bins h.bin_tail).flags then append_bin size h else (
  h.bin_tail,
  map_pages (h.bins h.bin_tail).addr ((size + 1) % 2 ^ 32) (set_flags h.bin_tail size h),
)

-- The bin is cut to size and taken, and its memory is the answer.
pub finish : ℕ → ℕ → Heap → ℕ × Heap
unfolding split_bin
finish bin s h =
    let h1 = split_bin bin s h in
    let h2 = set_flags bin (bin_size (h1.bins bin).flags + 1) h1 in ((h2.bins bin).addr, h2)

-- `none` is also the fault of a bin that is NULL, which `append_bin` answers for a size of 2^32 - 1.
pub malloc : ℕ → ℕ → Heap → Option (ℕ × Heap)
malloc fuel size h = if size == 0 then some (0, h) else elim (find_best_fit fuel (round2 size) h) [
  | none ↦ none
  | some best ↦
      let grown = grow (round2 size) h in
      if best == 0
      then (if grown.0 == 0 then none else some (finish grown.0 (round2 size) grown.1))
      else some (finish best (round2 size) h)
]

-- The search for the bin whose memory starts at `mem`, 0 where there is none.
pub find_addr : ℕ → ℕ → ℕ → Heap → Option ℕ
find_addr zero bin mem h = none
find_addr (suc fuel) bin mem h =
    let rest = find_addr fuel (h.bins bin).next mem h in
    if bin == 0 then some 0 else if (h.bins bin).addr == mem then some bin else rest

pub free : ℕ → ℕ → Heap → Option Heap
free fuel mem h = elim (find_addr fuel h.bin_head mem h) [
  | none ↦ none
  | some bin ↦
      let merged = merge_bin fuel bin (set_flags bin (bin_size (h.bins bin).flags) h) in
      if bin == 0 then some h else merged
]

-- The loop of `realloc` declares a `bin` of its own, so that the tests read the outer `bin`, which nothing
-- sets: it is the argument `bin`. The answer has the bytes that are copied, from `ptr`, with it.
pub realloc : ℕ → ℕ → ℕ → ℕ → Heap → Option (ℕ × ℕ × Heap)
realloc fuel bin ptr size h =
    let s = round2 size in
    if size == 0 && not (ptr == 0)
    then elim (free fuel ptr h) [ none ↦ none | some h' ↦ some (0, 0, h') ]
    else elim (find_addr fuel h.bin_head ptr h) [
      | none ↦ none
      | some _ ↦
          if bin == 0
          then some (0, 0, h)
          else if leb s (bin_size (h.bins bin).flags)
          then some (ptr, 0, h)
          else elim (malloc fuel s h) [
            | none ↦ none
            | some (fresh, h1) ↦ elim (free fuel ptr h1) [
              | none ↦ none
              | some h2 ↦ some (fresh, bin_size (h1.bins bin).flags, h2)
            ]
          ]
    ]

abbrev pub pg_bin_start : ℕ
pg_bin_start = 0x80000000

abbrev pub pg_heap_start : ℕ
pg_heap_start = 0x81000000

pub heap_setup : Bool → Heap → Heap
heap_setup paging h =
    let h0 = record h { ehead = 0 } in
    let h1 = record h0 {
      bin_head = pg_bin_start;
      bin_tail = pg_bin_start;
      bin_next = pg_bin_start;
      mapped = (pg_heap_start, 0x1000) ∷ (pg_bin_start, 16) ∷ h0.mapped;
    } in
    record (if paging
      then set_flags pg_bin_start 0x1000
          (set_addr pg_bin_start pg_heap_start (clear pg_bin_start h1))
      else h0) { pg = paging }
