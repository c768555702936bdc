-- ===== src/Heap/Tests.antt =====
-- Runs of module/heap/main.c, and the lemmas at concrete heaps.
use modit_micro.Base.{
  ℕ, ◌+◌, ◌<◌, ◌≡◌, refl, arith, true, false, some, none, List, [], ◌∷◌, ◌==◌, if◌then◌else◌, subst,
  sym,
}
use modit_micro.Heap.{Bin, Heap, kalloc, kfree, heap_init}
use modit_micro.Heap.Links.{count}
use modit_micro.Heap.Tiles.{IsHeap}
use modit_micro.Heap.Kalloc.{Allocated, HasRoom, kalloc-Allocated}
use modit_micro.Heap.Aligned.{kalloc_a}
use modit_micro.Heap.Aligned.Answer.{AllocatedAt, kalloc_a-AllocatedAt}
use modit_micro.Heap.Kfree.{Freed, kfree-Freed}
use modit_micro.Heap.Calls.{Reach, start, allocated, Sound, Reach-Sound, heap_init-IsHeap}
use modit_micro.Heap.Merge.{measure}
use modit_micro.Heap.Unique.{IsHeap-unique}

abbrev no_bin : Bin
no_bin = record { addr = 0; taken = false; size = 0; prev = 0; next = 0 }

-- A taken bin of 112 bytes, a free one of 3984 and a taken one of 64.
abbrev three_bins : Heap
three_bins = record {
  bins = λ q.
      if q == 0x1000
      then record { addr = 0xE1000000; taken = true; size = 112; prev = 0; next = 0x1010 }
      else if q == 0x1010
      then record { addr = 0xE1000070; taken = false; size = 3984; prev = 0x1000; next = 0x1020 }
      else if q == 0x1020
      then record { addr = 0xE1001000; taken = true; size = 64; prev = 0x1010; next = 0 }
      else no_bin;
  bin_tail = 0x1020;
  bin_head = 0x1000;
  bin_hiaddr = 0x1020;
  empty_head = 0;
  mapped = [];
}

abbrev three : List ℕ
three = 0x1000 ∷ 0x1010 ∷ 0x1020 ∷ []

three_once : (q : ℕ) → count q three + count q [] < 2
three_once q = ground arith

three_below : (q : ℕ) → 0 < count q three + count q [] → q < 0x1021
three_below q b = ground arith

three_bins-IsHeap : IsHeap three_bins three []
three_bins-IsHeap = record {
  linked = record {
    chain = (refl, refl, (refl, refl, (refl, refl, tt)));
    empties = refl;
    head = refl;
    tail = refl;
    once = λ q. omega (arith, three_once q);
    null = refl;
    below = λ q b. omega (arith, three_below q b);
  };
  tiles = (refl, omega arith, (refl, omega arith, (refl, omega arith, tt)));
  room = omega arith;
}

kalloc-Allocated_example : Allocated three_bins three 100 (kalloc 4 100 three_bins)
kalloc-Allocated_example =
    kalloc-Allocated 4 100 three_bins three [] three_bins-IsHeap (λ e. absurd (ground arith))
      (omega arith) (omega arith, omega arith) (omega arith)

-- No free bin begins at a multiple of 4096: the heap grows by two bins.
kalloc_a-AllocatedAt_example :
    AllocatedAt three_bins three 100 4096 (kalloc_a 4 100 4096 three_bins)
kalloc_a-AllocatedAt_example =
    kalloc_a-AllocatedAt 4 100 4096 three_bins three [] three_bins-IsHeap
      (λ e. absurd (ground arith)) (omega arith) refl (omega arith) (omega arith, omega arith)
      (omega arith)

abbrev after : Heap
after = elim (kalloc 4 100 three_bins) [ none ↦ three_bins | some (a, h) ↦ h ]

after_run : kalloc 4 100 three_bins ≡ some (0xE1000070, after)
unfolding kalloc
after_run = refl

kfree-Freed_example : Freed three_bins three [] 0x1000 (kfree 7 0xE1000000 three_bins)
kfree-Freed_example =
    kfree-Freed 7 three_bins three [] 0x1000 three_bins-IsHeap (omega arith) (omega arith)

-- One allocation after the initialisation.
abbrev first_heap : Heap
first_heap = heap_init 0x1000 (λ q. no_bin)

first_heap-IsHeap : IsHeap first_heap (0x1000 ∷ []) []
first_heap-IsHeap = heap_init-IsHeap 0x1000 (λ q. no_bin) (λ e. absurd (omega arith))

first_room : HasRoom 100 first_heap (0x1000 ∷ [])
unfolding heap_init
first_room = (omega arith, omega arith)

first_alloc : Allocated first_heap (0x1000 ∷ []) 100 (kalloc 4 100 first_heap)
first_alloc =
    kalloc-Allocated 4 100 first_heap (0x1000 ∷ []) [] first_heap-IsHeap
      (λ e. absurd (ground arith)) (omega arith) first_room (omega arith)

only_lists : (ps es : List ℕ) → IsHeap first_heap ps es → (ps ≡ 0x1000 ∷ []) × (es ≡ [])
only_lists ps es w = IsHeap-unique first_heap ps es (0x1000 ∷ []) [] w first_heap-IsHeap

first_step : Reach 0x1000 (λ q. no_bin) first_alloc.heap
first_step =
    allocated 4 100 (first_alloc.heap.bins first_alloc.bin).addr first_heap first_alloc.heap start
      (λ ps es w.
        let (a, b) = only_lists ps es w in
        subst (λ t. measure t es < 4) (sym a)
          (subst (λ u. measure (0x1000 ∷ []) u < 4) (sym b) (omega arith)))
      (λ ps es w.
        let (a, b) = only_lists ps es w in subst (HasRoom 100 first_heap) (sym a) first_room)
      first_alloc.done

Reach-Sound_example : Sound first_alloc.heap
Reach-Sound_example =
    Reach-Sound 0x1000 (λ q. no_bin) first_alloc.heap (λ e. absurd (omega arith)) first_step
