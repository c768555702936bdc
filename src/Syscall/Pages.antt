-- ===== src/Syscall/Pages.antt =====
-- The loops over the pages of a message buffer, in module/syscall/main.c.
use modit_micro.Base.{
  ℕ, zero, suc, ◌+◌, ◌-◌, ◌*◌, ◌/◌, ◌%◌, ◌^◌, ◌≤◌, ◌<◌, ◌≡◌, refl, true, false, arith, ltb, some,
}
use modit_micro.Syscall.{page_loop}

-- How many pages `size` bytes take.
abbrev pub pages_of : ℕ → ℕ
pages_of size = (size + 0xFFF) / 0x1000

-- The body for the pages of `n` numbers from `p` on.
pub each_page : {T : Type 0} → (ℕ → T → T) → ℕ → ℕ → T → T
each_page body zero p t = t
each_page body (suc n) p t = each_page body n (p + 1) (body (p * 0x1000) t)

page_loop_from :
    {T : Type 0} (body : ℕ → T → T) (n fuel size p : ℕ) (t : T)
    → pages_of size ≡ p + n
    → n < fuel
    → size ≤ 2 ^ 32 - 0x1000
    → page_loop body fuel size (p * 0x1000) t ≡ some (each_page body n p t)
unfolding page_loop each_page
page_loop_from body n zero size p t e l small = absurd (omega arith)
page_loop_from body zero (suc fuel) size p t e l small =
    let past : ltb (p * 0x1000) size ≡ false = ground arith in rw past refl
page_loop_from body (suc n) (suc fuel) size p t e l small =
    let inside : ltb (p * 0x1000) size ≡ true = ground arith in
    let next : (p * 0x1000 + 0x1000) % 2 ^ 32 ≡ (p + 1) * 0x1000 = omega arith in
    rw (inside, next)
      (page_loop_from body n fuel size (p + 1) (body (p * 0x1000) t) (omega (arith, e))
        (omega (arith, l)) small)

-- For a size that is a page or more below 2 ^ 32, the loop over the pages of a message ends, with more
-- fuel than there are pages, and runs its body once for every page, in order.
pub page_loop-each_page :
    {T : Type 0} (body : ℕ → T → T) (fuel size : ℕ) (t : T)
    → size ≤ 2 ^ 32 - 0x1000
    → pages_of size < fuel
    → page_loop body fuel size 0 t ≡ some (each_page body (pages_of size) 0 t)
page_loop-each_page body fuel size t small l =
    page_loop_from body (pages_of size) fuel size 0 t (omega arith) l small
