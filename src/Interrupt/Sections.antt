-- ===== src/Interrupt/Sections.antt =====
-- Critical sections between `disable_interrupts` and `enable_interrupts` of module/irq/main.c.
use modit_micro.Base.{
  ◌+◌, ◌-◌, ◌≡◌, refl, ◌∙◌, ap, true, false, arith, List, [], ◌∷◌, ◌++◌, leb, ltb, ◌==◌,
  if◌then◌else◌,
}
use modit_micro.Interrupt.{Depth, disable_interrupts, enable_interrupts}

-- A call of one of the two functions.
pub data Switch : Type 0 where
  disable : Switch
  enable : Switch

abbrev pub run : List Switch → Depth → Depth
run [] s = s
run (disable ∷ ops) s = run ops (disable_interrupts s)
run (enable ∷ ops) s = run ops (enable_interrupts s)

-- Interrupts come in exactly outside of all sections.
abbrev pub IsNested : Depth → Type 0
IsNested s = s.enabled ≡ (s.depth == 0)

-- Calls in which every `disable_interrupts` has its `enable_interrupts` later.
pub data Matched : List Switch → Type 0 where
  nothing : Matched []
  section :
      (ops more : List Switch)
      → Matched ops
      → Matched more
      → Matched (disable ∷ ops ++ enable ∷ more)

-- Any calls, matched or not, keep the flag in step with the counter.
pub run-IsNested : (ops : List Switch) (s : Depth) → IsNested s → IsNested (run ops s)
unfolding disable_interrupts enable_interrupts
run-IsNested [] s h = h
run-IsNested (disable ∷ ops) s h = run-IsNested ops (disable_interrupts s) (ground (arith, h))
run-IsNested (enable ∷ ops) s h = run-IsNested ops (enable_interrupts s) (ground (arith, h))

run-append : (xs ys : List Switch) (s : Depth) → run (xs ++ ys) s ≡ run ys (run xs s)
run-append [] ys s = refl
run-append (disable ∷ xs) ys s = run-append xs ys (disable_interrupts s)
run-append (enable ∷ xs) ys s = run-append xs ys (enable_interrupts s)

closes : (s : Depth) → IsNested s → enable_interrupts (disable_interrupts s) ≡ s
unfolding disable_interrupts enable_interrupts
closes s h =
    let counter : s.depth + 1 - 1 ≡ s.depth = omega arith in
    let flag : (if leb (s.depth + 1) 1 then true else (if ltb s.depth 1 then false else s.enabled))
        ≡ s.enabled =
      ground (arith, h) in
    ap
      (λ d. record {
        depth = d;
        enabled =
            if leb (s.depth + 1) 1 then true else (if ltb s.depth 1 then false else s.enabled);
      })
      counter
    ∙ ap (λ b. record { depth = s.depth; enabled = b }) flag

-- Matched calls leave the counter and the interrupt flag as they were.
pub run-Matched : (ops : List Switch) (s : Depth) → Matched ops → IsNested s → run ops s ≡ s
run-Matched _ s nothing h = refl
run-Matched _ s (section ops more m n) h =
    let s1 = disable_interrupts s in
    run-append ops (enable ∷ more) s1
    ∙ ap (run (enable ∷ more)) (run-Matched ops s1 m (run-IsNested (disable ∷ []) s h))
    ∙ ap (run more) (closes s h)
    ∙ run-Matched more s n h
