-- ===== src/UserHeap/Tests.antt =====
-- Runs of lib/libc/stdlib/heap.c, and instances of the theorems.
use modit_micro.Base.{ℕ, ◌≡◌, ◌≢◌, refl, true, [], ◌∷◌, some, arith, ◌==◌, if◌then◌else◌}
use modit_micro.UserHeap.{
  Heap, find_free_bin, split_bin, fits_better, best_fit_from, find_best_fit, finish, malloc,
  find_addr, free, realloc, heap_setup,
}
use modit_micro.UserHeap.Malloc.{new_header, Served, malloc-Served}
use modit_micro.UserHeap.Damage.{Between, Overlaps, free-Overlaps}

-- Three bins: 0x100 bytes that are free, 0x10 bytes of `middle`, and 0x20 bytes that are taken.
abbrev three : ℕ → Heap
three middle = record {
  bins = λ p.
      if p == 0x1000
      then record { prev = 0; next = 0x1010; addr = 0x8000; flags = 0x100 }
      else if p == 0x1010
      then record { prev = 0x1000; next = 0x1020; addr = 0x8100; flags = middle }
      else record { prev = 0x1010; next = 0; addr = 0x8110; flags = 0x21 };
  bin_tail = 0x1020;
  bin_head = 0x1000;
  bin_next = 0x1020;
  ehead = 0;
  pg = true;
  mapped = [];
}

abbrev empty : Heap
empty = record (three 0) { bins = λ p. record { prev = 0; next = 0; addr = 0; flags = 0 } }

-- The first two requests of a program.
first_test : malloc 3 5 (heap_setup true empty) ≡ some (finish 0x80000000 6 (heap_setup true empty))
unfolding malloc find_best_fit best_fit_from fits_better heap_setup finish split_bin
first_test = refl

-- `realloc` looks at a bin that nothing set, here the one of 0x100 bytes, and leaves 0x10 bytes as they are.
realloc_test : realloc 4 0x1000 0x8100 0x80 (three 0x11) ≡ some (0x8100, 0, three 0x11)
unfolding realloc find_addr
realloc_test = refl

header_there : new_header (three 0x11) ≢ 0
unfolding find_free_bin
header_there = omega arith

malloc-Served_example :
    Served 12 (three 0x11) (0x1000 ∷ 0x1010 ∷ 0x1020 ∷ []) (malloc 4 11 (three 0x11))
malloc-Served_example =
    malloc-Served 4 11 (three 0x11) (0x1000 ∷ 0x1010 ∷ 0x1020 ∷ [])
      (refl, omega arith, (refl, omega arith, (refl, omega arith, refl))) (omega arith)
      (omega arith) header_there (omega arith) (omega arith)

three-Between : Between (three 0x11) 0x1000 0x1010 0x1020
three-Between = record {
  ne_null = (omega arith, omega arith, omega arith);
  distinct = (omega arith, omega arith, omega arith);
  links = (refl, refl, refl, refl);
  ends = (refl, omega arith, omega arith);
  none_empty = refl;
  free_bin = (refl, omega arith);
  taken_bin = refl;
  behind = refl;
  room = omega arith;
}

found_middle : find_addr 4 0x1000 0x8100 (three 0x11) ≡ some 0x1010
unfolding find_addr
found_middle = refl

free-Overlaps_example :
    (h' : Heap) × (free 4 0x8100 (three 0x11) ≡ some h') × Overlaps h' 0x1010 0x1020
free-Overlaps_example =
    free-Overlaps 2 0x8100 0x1000 0x1010 0x1020 (three 0x11) three-Between found_middle
