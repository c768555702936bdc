-- ===== src/UserHeap/Damage.antt =====
-- Where lib/libc/stdlib/heap.c hands out headers and memory that are in use.
use modit_micro.Base.{
  ==-self, ==-false, ℕ, suc, ◌+◌, ◌%◌, ◌^◌, ◌≤◌, ◌<◌, ◌≡◌, ◌≢◌, refl, sym, ap, ◌∙◌, arith, Bool,
  true, false, some, ◌==◌, if◌then◌else◌, ◌&&◌,
}
use modit_micro.UserHeap.{
  Heap, bin_taken, bin_size, both_free, set_flags, find_free_bin, unlink_bin, remove_bin,
  retire_bin, merge_next, merge_prev, merge_bin, find_addr, free,
}
use modit_micro.UserHeap.Malloc.{new_header}

handed :
    (h : Heap)
    → h.ehead ≢ 0
    → find_free_bin h ≡ (h.ehead, record h { ehead = (h.bins h.ehead).next })
unfolding find_free_bin
handed h nz = rw (==-false nz) refl

reused_headers :
    (h : Heap) (p b : ℕ)
    → p ≢ 0
    → h.ehead ≡ p
    → (h.bins p).next ≡ b
    → b ≢ 0
    → (new_header h ≡ p) × (new_header (find_free_bin h).1 ≡ b)
reused_headers h p b pz e n bz =
    let first = handed h (λ z. pz (sym e ∙ z)) in
    let follows : (h.bins h.ehead).next ≡ b = ap (λ q. (h.bins q).next) e ∙ n in
    (
      ap (λ r. r.0) first ∙ e,
      ap (λ (r : ℕ × Heap). new_header r.1) first
          ∙ ap (λ r. r.0)
              (handed (record h { ehead = (h.bins h.ehead).next }) (λ z. bz (sym follows ∙ z)))
          ∙ follows,
    )

if_same {ℓ} : {A : Type ℓ} (b : Bool) (x : A) → (if b then x else x) ≡ x
if_same true x = refl
if_same false x = refl

and_false : (b : Bool) → (b && false) ≡ false
and_false true = refl
and_false false = refl

next_kept : (h : Heap) (p : ℕ) → ((unlink_bin p h).bins p).next ≡ (h.bins p).next
unfolding unlink_bin
next_kept h p = if_same _ _

-- A bin that is removed from a list of several bins while no header is free keeps its `next`: the second
-- header that is then handed out for a new bin is the bin behind it, which is still in the list.
pub removed_next :
    (fuel p : ℕ) (h : Heap)
    → p ≢ 0
    → (h.bins p).next ≢ 0
    → h.ehead ≡ 0
    → h.bin_head ≢ h.bin_tail
    → (h' : Heap) × (remove_bin fuel p h ≡ some h')
      × (new_header h' ≡ p)
      × (new_header (find_free_bin h').1 ≡ (h.bins p).next)
unfolding remove_bin retire_bin unlink_bin
removed_next fuel p h pz nz e several =
    let h1 = unlink_bin p h in
    let h' = record h1 {
      bin_head = if h1.bin_head == p then (h1.bins p).next else h1.bin_head;
      bin_tail = if h1.bin_tail == p then (h1.bins p).prev else h1.bin_tail;
      ehead = p;
    } in
    let follows : (h'.bins p).next ≡ (h.bins p).next = next_kept h p in
    let r = reused_headers h' p (h.bins p).next pz refl follows nz in
    (h', rw (==-false several, e) refl, r.0, r.1)

-- `p` is free, `c` is taken, and the memory of `c` starts inside that of `p`.
pub record Overlaps (h : Heap) (p c : ℕ) : Type 0 where
  pub free_bin : bin_taken (h.bins p).flags ≡ false
  pub taken_bin : bin_taken (h.bins c).flags ≡ true
  pub over : (h.bins p).addr ≤ (h.bins c).addr
  pub under : (h.bins c).addr < (h.bins p).addr + bin_size (h.bins p).flags

-- The bin `a` is the first and free, `p` follows it, and `c` follows `p`, is taken, and lies directly behind
-- `p` in memory.
pub record Between (h : Heap) (a p c : ℕ) : Type 0 where
  pub ne_null : (p ≢ 0) × (a ≢ 0) × (c ≢ 0)
  pub distinct : (a ≢ p) × (a ≢ c) × (p ≢ c)
  pub links :
      ((h.bins p).prev ≡ a) × ((h.bins p).next ≡ c) × ((h.bins a).prev ≡ 0) × ((h.bins a).next ≡ p)
  pub ends : (h.bin_head ≡ a) × (h.bin_tail ≢ a) × (h.bin_tail ≢ p)
  pub none_empty : h.ehead ≡ 0
  pub free_bin : (bin_taken (h.bins a).flags ≡ false) × (0 < bin_size (h.bins a).flags)
  pub taken_bin : bin_taken (h.bins c).flags ≡ true
  pub behind : (h.bins p).addr + bin_size (h.bins p).flags ≡ (h.bins c).addr
  pub room : bin_size (h.bins a).flags + bin_size (h.bins p).flags < 2 ^ 32

next_taken :
    (fuel p : ℕ) (h : Heap)
    → bin_taken (h.bins (h.bins p).next).flags ≡ true
    → merge_next fuel p h ≡ some (false, h)
unfolding merge_next
next_taken fuel p h t =
    let no_pair : both_free p (h.bins p).next h ≡ false = rw t (and_false _) in
    rw no_pair (if_same _ _)

prev_null : (fuel p : ℕ) (h : Heap) → (h.bins p).prev ≡ 0 → merge_prev fuel p h ≡ some (false, h)
unfolding merge_prev
prev_null fuel p h e = rw e refl

module _ (h : Heap) (a p c : ℕ) (b : Between h a p c) where
  -- The heap in which `p` is marked free, and the one in which it also has the size of `a`.
  abbrev start : Heap
  start = set_flags p (bin_size (h.bins p).flags) h

  abbrev grown : Heap
  grown = record (set_flags p ((start.bins p).flags + bin_size (start.bins a).flags) start) {
    bin_head = p;
  }

  abbrev merged : Heap
  merged = record (unlink_bin a grown) { ehead = a }

  a_p : (a == p) ≡ false
  a_p = ==-false b.distinct.0

  p_a : (p == a) ≡ false
  p_a = ground (arith, a_p)

  p_c : (p == c) ≡ false
  p_c = ==-false b.distinct.2

  a_removed : (fuel : ℕ) → remove_bin fuel a grown ≡ some merged
  unfolding remove_bin retire_bin unlink_bin
  a_removed fuel =
      let p_tail : (p == h.bin_tail) ≡ false = ==-false (λ e. b.ends.2 (sym e)) in
      let tail_a : (h.bin_tail == a) ≡ false = ==-false b.ends.1 in
      rw (p_tail, p_a, tail_a, b.none_empty) refl

  free_pair : both_free p a start ≡ true
  free_pair =
      let even : bin_size (h.bins p).flags % 2 ^ 32 % 2 ≡ 0 = omega arith in
      rw (==-self p, p_a, b.free_bin.0, even) refl

  first_prev : (fuel : ℕ) → merge_prev fuel p start ≡ some (true, merged)
  unfolding merge_prev
  first_prev fuel =
      let p_tail : (p == h.bin_tail) ≡ false = ==-false (λ e. b.ends.2 (sym e)) in
      let head_a : (a == h.bin_head) ≡ true = ap (λ x. a == x) b.ends.0 ∙ ==-self a in
      rw (b.links.0, ==-false b.ne_null.1, free_pair, p_tail, head_a, a_removed fuel) refl

  merged_bins :
      (q : ℕ)
      → (p == q) ≡ false
      → ((merged.bins q).flags ≡ (h.bins q).flags) × ((merged.bins q).addr ≡ (h.bins q).addr)
  unfolding unlink_bin
  merged_bins q n = (rw n refl, refl)

  merged_p :
      ((merged.bins p).flags ≡ bin_size (h.bins p).flags + bin_size (h.bins a).flags)
      × ((merged.bins p).addr ≡ (h.bins p).addr)
      × ((merged.bins p).prev ≡ 0)
      × ((merged.bins p).next ≡ c)
  unfolding unlink_bin
  merged_p = (
    rw (==-self p, p_a) (omega (arith, b.room)),
    refl,
    rw (b.links.3, ==-self p, ==-false b.ne_null.0) b.links.2,
    rw (b.links.3, p_a, ==-false b.ne_null.0, b.links.2) b.links.1,
  )

  still_taken : bin_taken (merged.bins c).flags ≡ true
  still_taken = ap (λ f. bin_taken f) (merged_bins c p_c).0 ∙ b.taken_bin

  start_merges : (fuel : ℕ) → merge_bin (suc (suc fuel)) p start ≡ some merged
  unfolding merge_bin
  start_merges fuel =
      let taken : bin_taken (start.bins (start.bins p).next).flags ≡ true =
        rw (b.links.1, p_c) b.taken_bin in
      let again : bin_taken (merged.bins (merged.bins p).next).flags ≡ true =
        ap (λ q. bin_taken (merged.bins q).flags) merged_p.3 ∙ still_taken in
      rw
        (
          merge_bin,
          next_taken (suc fuel) p start taken,
          first_prev (suc fuel),
          next_taken fuel p merged again,
          prev_null fuel p merged merged_p.2,
        )
        refl

-- `free` of a bin between a free one at the start of the list and a taken one joins it with the free one but
-- leaves its address: the bin then is free, and its memory overlaps that of the taken one.
pub free-Overlaps :
    (fuel mem a p c : ℕ) (h : Heap)
    → Between h a p c
    → find_addr (suc (suc fuel)) h.bin_head mem h ≡ some p
    → (h' : Heap) × (free (suc (suc fuel)) mem h ≡ some h') × Overlaps h' p c
unfolding free
free-Overlaps fuel mem a p c h b found = (
  merged h a p c b,
  rw (free, found, ==-false b.ne_null.0) (start_merges h a p c b fuel),
  record {
    free_bin = ground (arith, (merged_p h a p c b).0);
    taken_bin = still_taken h a p c b;
    over =
        omega
          (arith, (merged_p h a p c b).1, (merged_bins h a p c b c (p_c h a p c b)).1, b.behind);
    under = omega (
      arith,
      (merged_p h a p c b).0,
      (merged_p h a p c b).1,
      (merged_bins h a p c b c (p_c h a p c b)).1,
      b.behind,
      b.free_bin.1,
    );
  },
)
