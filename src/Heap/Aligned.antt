-- ===== src/Heap/Aligned.antt =====
-- `kalloc_a` of module/heap/main.c: a block whose address is a multiple of `a`.
pub mod Steps
pub mod Answer
use modit_micro.Base.{
  ℕ, zero, suc, ◌+◌, ◌-◌, ◌%◌, ◌^◌, Bool, true, false, not, ◌&&◌, Option, none, some, leb, ltb,
  ◌==◌, if◌then◌else◌,
}
use modit_micro.Heap.{Heap, set_size, allocpgs, append_bin, round16, finish}

-- Two's complement `x < y` of 32 bits.
abbrev pub int32_less : ℕ → ℕ → Bool
int32_less x y = ltb ((x + 2 ^ 31) % 2 ^ 32) ((y + 2 ^ 31) % 2 ^ 32)

abbrev pub sub32 : ℕ → ℕ → ℕ
sub32 x y = (x + 2 ^ 32 - y) % 2 ^ 32

-- Whether `bin` takes the place of `best`, in a round of the loop.
pub aligned_better : ℕ → ℕ → ℕ → ℕ → ℕ → Heap → Bool
aligned_better s rsize a bin best h =
    let b = h.bins bin in
    if b.taken
    then false
    else if b.addr % a == 0 && leb rsize b.size
    then (if best == 0 then true else int32_less (sub32 b.size s) (sub32 (h.bins best).size s))
    else false

pub aligned_from : ℕ → ℕ → ℕ → ℕ → ℕ → ℕ → Heap → Option ℕ
unfolding aligned_better
aligned_from zero s rsize a bin best h = none
aligned_from (suc fuel) s rsize a bin best h =
    let rest =
      aligned_from fuel s rsize a (h.bins bin).next
        (if aligned_better s rsize a bin best h then bin else best) h in
    if bin == 0 then some best else rest

-- The free bytes that bring the end of a taken last bin to a multiple of `a`.
abbrev pub padding : ℕ → ℕ → ℕ
padding a end = if a - end % a == a then 0 else a - end % a

-- Where no free bin fits: the end of the heap is aligned, and a bin appended there.
pub grow_at : ℕ → ℕ → ℕ → Heap → ℕ × Heap
grow_at p a rsize h =
    let tail = h.bins p in
    if tail.taken
    then append_bin rsize (append_bin (padding a ((tail.addr + tail.size) % 2 ^ 32)) h).1
    else append_bin rsize
        (append_bin 0
          (allocpgs tail.addr ((a - tail.addr % a) % 2 ^ 31) (set_size p (a - tail.addr % a) h))).1

pub grow_aligned : ℕ → ℕ → Heap → ℕ × Heap
unfolding grow_at
grow_aligned a rsize h = grow_at h.bin_tail a rsize h

-- With `a` 0 the first free bin, or the last one, makes the code divide by 0.
pub kalloc_a : ℕ → ℕ → ℕ → Heap → Option (ℕ × Heap)
kalloc_a fuel s a h =
    if s == 0
    then some (0, h)
    else if not (a % 16 == 0)
    then some (0, h)
    else if a == 0
    then none
    else elim (aligned_from fuel s (round16 s) a h.bin_head 0 h) [
      | none ↦ none
      | some best ↦
          if best == 0
          then (let out = grow_aligned a (round16 s) h in
              if out.0 == 0 then none else some (finish (round16 s) out))
          else some (finish (round16 s) (best, h))
    ]
