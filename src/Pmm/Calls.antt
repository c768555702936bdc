-- ===== src/Pmm/Calls.antt =====
-- Any sequence of calls of the allocator's interface in module/bmpmm/main.c.
use modit_micro.Base.{ℕ, ◌+◌, ◌/◌, ◌^◌, ◌≡◌, ◌≤◌, ◌<◌, ◌⊎◌, inl, inr, true, leb, arith, Bool-cases}
use modit_micro.Pmm.{Pmm, bm_test, bm_getpg, bm_resvpg, bm_freepg, bm_addblock, bm_rmblock}
use modit_micro.Pmm.Balance.{
  IsBalanced, bm_resvpg-IsBalanced, bm_freepg-IsBalanced, bm_addblock-IsBalanced,
  bm_rmblock-IsBalanced,
}
use modit_micro.Pmm.Getpg.{IsSettled, bm_getpg-Gives}

-- The five entries that `_pmm_init` puts into `physical_allocator`.
pub data Call : Type 0 where
  getpg : Call
  resvpg freepg : ℕ → Call
  addblock rmblock : ℕ → ℕ → Call

unfoldable pub apply : Call → Pmm → Pmm
unfolding bm_getpg bm_resvpg bm_freepg bm_addblock bm_rmblock
apply getpg m = (bm_getpg m).1
apply (resvpg ptr) m = bm_resvpg ptr m
apply (freepg ptr) m = bm_freepg ptr m
apply (addblock start len) m = bm_addblock start len m
apply (rmblock start len) m = bm_rmblock start len m

-- What the allocator needs of its caller: pages of the memory, blocks below page 2 ^ 16, and no
-- page freed that is not taken.
abbrev pub Allowed : Call → Pmm → Type 0
Allowed getpg m = IsSettled m ⊎ (m.pages_total ≤ m.pages_taken)
Allowed (resvpg ptr) m = ptr / 4096 < m.pages_total
Allowed (freepg ptr) m = (ptr / 4096 < m.pages_total) × (bm_test m.bitmap (ptr / 4096) ≡ true)
Allowed (addblock start len) m =
    (start / 4096 + len ≤ m.pages_total) × (start / 4096 + len < 2 ^ 16)
Allowed (rmblock start len) m = (start / 4096 + len ≤ m.pages_total) × (start / 4096 + len < 2 ^ 16)

-- The states that allowed calls lead to.
pub data Reach (s : Pmm) : Pmm → Type 0 where
  here : Reach s s
  call : {m : Pmm} (c : Call) → Reach s m → Allowed c m → Reach s (apply c m)

full-IsBalanced :
    {m : Pmm} → m.pages_total ≤ m.pages_taken → IsBalanced m → IsBalanced (bm_getpg m).1
unfolding bm_getpg
full-IsBalanced full v = ground arith

getpg-IsBalanced : {m : Pmm} → Allowed getpg m → IsBalanced m → IsBalanced (bm_getpg m).1
getpg-IsBalanced (inr full) v = full-IsBalanced full v
getpg-IsBalanced {m} (inl s) v = elim (Bool-cases (leb m.pages_total m.pages_taken)) [
  | inl full ↦ full-IsBalanced (ground arith) v
  | inr room ↦ let (p, g) = bm_getpg-Gives v (ground arith) s in g.balanced
]

apply-IsBalanced : (c : Call) {m : Pmm} → Allowed c m → IsBalanced m → IsBalanced (apply c m)
unfolding apply
apply-IsBalanced getpg a v = getpg-IsBalanced a v
apply-IsBalanced (resvpg ptr) a v = bm_resvpg-IsBalanced ptr a v
apply-IsBalanced (freepg ptr) a v = bm_freepg-IsBalanced ptr a.0 a.1 v
apply-IsBalanced (addblock start len) a v = bm_addblock-IsBalanced start len a.0 a.1 v
apply-IsBalanced (rmblock start len) a v = bm_rmblock-IsBalanced start len a.0 a.1 v

-- From a state whose counters agree with the bitmap, every sequence of allowed calls of `getpg`,
-- `resvpg`, `freepg`, `addblock` and `rmblock` leads to such a state.
pub Reach-IsBalanced : {s m : Pmm} → IsBalanced s → Reach s m → IsBalanced m
Reach-IsBalanced v here = v
Reach-IsBalanced v (call c r a) = apply-IsBalanced c a (Reach-IsBalanced v r)
