-- ===== src/UserHeap/Malloc.antt =====
-- `malloc` of lib/libc/stdlib/heap.c: the bin that it takes, and what that bin says afterwards.
use modit_micro.Base.{
  ◌%◌, subst, true_ne_false, ==-self, ==-false, ℕ, ◌+◌, ◌^◌, ◌≤◌, ◌<◌, ◌≡◌, ◌≢◌, ◌⊎◌, refl, sym, ap,
  ◌∙◌, arith, true, false, some, ◌==◌, List, length, ==-cases, Bool-cases, inl, inr, Option,
}
use modit_micro.UserHeap.{
  Heap, bin_taken, bin_size, fresh_bin, find_free_bin, place_bin, add_bin, split_bin, finish, grow,
  append_bin, round2, malloc,
}
use modit_micro.UserHeap.Fit.{within, Leads, Fits, find_best_fit-BestOf}

-- The header that the next new bin gets.
abbrev pub new_header : Heap → ℕ
new_header h = (find_free_bin h).0

empty_header : (h : Heap) → (h.ehead == 0) ≡ true → find_free_bin h ≡ fresh_bin h
unfolding find_free_bin
empty_header h y = rw y refl

fresh_addr :
    (h : Heap) (q : ℕ)
    → ((fresh_bin h).0 == q) ≡ false
    → ((fresh_bin h).1.bins q).addr ≡ (h.bins q).addr
unfolding fresh_bin
fresh_addr h q n = rw n refl

found_addr :
    (h : Heap) (q : ℕ)
    → (new_header h == q) ≡ false
    → ((find_free_bin h).1.bins q).addr ≡ (h.bins q).addr
unfolding find_free_bin
found_addr h q n = elim (Bool-cases (h.ehead == 0)) [
  | inl y ↦
      (let e = empty_header h y in
        ap (λ (r : ℕ × Heap). (r.1.bins q).addr) e
        ∙ fresh_addr h q (ap (λ (r : ℕ × Heap). r.0 == q) (sym e) ∙ n))
  | inr z ↦ rw z refl
]

-- A new bin leaves the memory of the others where it is.
place_addr :
    (parent a z : ℕ) (h : Heap) (q : ℕ)
    → (new_header h == q) ≡ false
    → ((place_bin parent a z h).1.bins q).addr ≡ (h.bins q).addr
unfolding place_bin
place_addr parent a z h q n = rw n (found_addr h q n)

add_addr :
    (parent a z : ℕ) (h : Heap) (q : ℕ)
    → (new_header h == q) ≡ false
    → ((add_bin parent a z h).1.bins q).addr ≡ (h.bins q).addr
unfolding add_bin
add_addr parent a z h q n = elim (Bool-cases (parent == 0)) [
  | inl y ↦ rw y refl
  | inr p ↦ elim (Bool-cases (z == 0)) [
    | inl y ↦ rw (p, y) refl
    | inr r ↦ rw (p, r) (place_addr parent a z h q n)
  ]
]

-- The bin has size `s`, is taken, and its memory is the answer.
pub record Given (s bin : ℕ) (out : ℕ × Heap) : Type 0 where
  pub answer : out.0 ≡ (out.1.bins bin).addr
  pub flags : (out.1.bins bin).flags ≡ s + 1

split_flags :
    (bin s : ℕ) (h : Heap)
    → bin_taken (h.bins bin).flags ≡ false
    → s < 2 ^ 32
    → ((split_bin bin s h).bins bin).flags ≡ s
unfolding split_bin
split_flags bin s h t lt = elim (Bool-cases (bin_size (h.bins bin).flags == s)) [
  | inl y ↦ rw y (ground (arith, t, y))
  | inr n ↦ rw (n, ==-self bin) (omega arith)
]

split_addr :
    (bin s : ℕ) (h : Heap)
    → (new_header h == bin) ≡ false
    → ((split_bin bin s h).bins bin).addr ≡ (h.bins bin).addr
unfolding split_bin
split_addr bin s h n = elim (Bool-cases (bin_size (h.bins bin).flags == s)) [
  | inl y ↦ rw y refl
  | inr z ↦ rw z (add_addr bin _ _ h bin n)
]

finish-Given :
    (bin s : ℕ) (h : Heap)
    → bin_taken (h.bins bin).flags ≡ false
    → s < 2 ^ 32
    → bin_size s ≡ s
    → Given s bin (finish bin s h)
unfolding finish
finish-Given bin s h t lt even = record {
  answer = refl;
  flags = rw (==-self bin, split_flags bin s h t lt) (omega (arith, even));
}

finish_addr :
    (bin s : ℕ) (h : Heap)
    → (new_header h == bin) ≡ false
    → ((finish bin s h).1.bins bin).addr ≡ (h.bins bin).addr
unfolding finish
finish_addr bin s h n = split_addr bin s h n

finish_addr_exact :
    (bin s : ℕ) (h : Heap)
    → (bin_size (h.bins bin).flags == s) ≡ true
    → ((finish bin s h).1.bins bin).addr ≡ (h.bins bin).addr
unfolding finish split_bin
finish_addr_exact bin s h y = rw y refl

-- Where the memory of the last bin ends.
abbrev pub end_of : Heap → ℕ
end_of h = ((h.bins h.bin_tail).addr + bin_size (h.bins h.bin_tail).flags) % 2 ^ 32

-- The bin of `grow`, behind the last bin if that is taken, and the last bin if it is free.
pub record Grown (h : Heap) (bin mem : ℕ) : Type 0 where
  pub behind : bin_taken (h.bins h.bin_tail).flags ≡ true → (bin ≡ new_header h) × (mem ≡ end_of h)
  pub again :
      bin_taken (h.bins h.bin_tail).flags ≡ false
      → (bin ≡ h.bin_tail) × (mem ≡ (h.bins h.bin_tail).addr)

grow-Grown :
    (s : ℕ) (h : Heap)
    → h.bin_tail ≢ 0
    → s ≢ 0
    → Grown h (grow s h).0 ((grow s h).1.bins (grow s h).0).addr
unfolding grow append_bin place_bin
grow-Grown s h tz sz = record {
  behind = λ y. (
    rw (y, ==-false tz, ==-false sz) refl,
    rw (y, ==-false tz, ==-false sz) (rw (==-self (find_free_bin h).0) refl),
  );
  again = λ n. (rw n refl, rw n refl);
}

-- The bin of `grow` has the size that is asked for and is free.
grow-free :
    (s : ℕ) (h : Heap)
    → h.bin_tail ≢ 0
    → new_header h ≢ 0
    → s ≢ 0
    → s < 2 ^ 32
    → ((grow s h).0 ≢ 0) × (((grow s h).1.bins (grow s h).0).flags ≡ s)
unfolding grow append_bin place_bin
grow-free s h tz nz sz lt = elim (Bool-cases (bin_taken (h.bins h.bin_tail).flags)) [
  | inl y ↦
      rw (y, ==-false tz, ==-false sz) (nz, rw (==-self (find_free_bin h).0) (omega (arith, lt)))
  | inr n ↦ rw n (tz, rw (==-self h.bin_tail) (omega (arith, lt)))
]

-- What `malloc` answers for a request that is rounded to `s` bytes.
pub record Served (s : ℕ) (h : Heap) (ps : List ℕ) (out : Option (ℕ × Heap)) : Type 0 where
  pub bin : ℕ
  pub mem : ℕ
  pub heap : Heap
  pub done : out ≡ some (mem, heap)
  pub given : Given s bin (mem, heap)
  pub fit :
      ((within bin ps ≡ true)
        × Fits s (h.bins bin)
        × ((q : ℕ)
            → within q ps ≡ true
            → Fits s (h.bins q)
            → bin_size (h.bins bin).flags ≤ bin_size (h.bins q).flags)
        × (new_header h ≢ bin → mem ≡ (h.bins bin).addr))
      ⊎ (((q : ℕ) → within q ps ≡ true → ¬ Fits s (h.bins q)) × Grown h bin mem)

-- malloc of a size from 1 to 2^32 - 2, on a heap that has a last bin and a header left, ends, with more
-- rounds than there are bins: it takes the smallest free bin that has room, without moving it unless a
-- header in use is handed out as new, and only if no free bin has room the last bin, if that is free,
-- or else a new bin whose memory begins where that of the last bin ends; the bin gets the rounded size
-- and is taken.
pub malloc-Served :
    (fuel size : ℕ) (h : Heap) (ps : List ℕ)
    → Leads h.bins h.bin_head ps
    → length ps < fuel
    → h.bin_tail ≢ 0
    → new_header h ≢ 0
    → size ≢ 0
    → size + 1 < 2 ^ 32
    → Served (round2 size) h ps (malloc fuel size h)
unfolding malloc finish
malloc-Served fuel size h ps g f tz nz sz lt =
    let s = round2 size in
    let even : bin_size s ≡ s = omega arith in
    let (r, found, b) = find_best_fit-BestOf fuel s h ps g f in
    elim (==-cases r 0) [
      | inr some_fit ↦
          (let nzr : r ≢ 0 = λ e. true_ne_false (sym (ap (λ x. x == 0) e ∙ ==-self 0) ∙ some_fit) in
            let ft = b.fits nzr in
            let g' = finish-Given r s h ft.0 (omega arith) even in
            record {
              bin = r;
              mem = (finish r s h).0;
              heap = (finish r s h).1;
              done = rw (==-false sz, found, some_fit) refl;
              given = g';
              fit = inl (
                b.from nzr,
                ft,
                λ q w fq. (b.least q w fq).1,
                λ far. g'.answer ∙ finish_addr r s h (==-false far),
              );
            })
      | inl none_fit ↦
          (let gr = grow-free s h tz nz (omega arith) (omega arith) in
            let at = (grow s h).0 in
            let h' = (grow s h).1 in
            record {
              bin = at;
              mem = (finish at s h').0;
              heap = (finish at s h').1;
              done = rw (==-false sz, found ∙ ap some none_fit, ==-false gr.0) refl;
              given = finish-Given at s h' (ground (arith, gr.1, even)) (omega arith) even;
              fit = inr (
                λ q w fq. (b.least q w fq).0 none_fit,
                subst (Grown h at)
                    (sym (
                      finish_addr_exact at s h'
                        (ap (λ x. bin_size x == s) gr.1 ∙ rw even (==-self s))))
                    (grow-Grown s h tz (omega arith)),
              );
            })
    ]
