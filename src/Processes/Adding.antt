-- ===== src/Processes/Adding.antt =====
-- What `proc_add` of apps/procsvr/process_tree.c does to the processes that are found.
use modit_micro.Base.{
  SomeHas, Option-cases, Bool-cases, ==-self, ℕ, ◌≡◌, refl, sym, ◌∙◌, ap, subst, inl, inr, Bool,
  true, false, Option, none, some, List, [], ◌∷◌, ◌++◌, ◌==◌, if◌then◌else◌, arith,
}
use modit_micro.Processes.{
  Process, Tree, node, Children, nobody, child, proc, has_pid, proc_find_by_pid, proc_list_append,
  add_below, add_below_children, proc_add,
}
use modit_micro.Processes.Search.{
  procs, procs_of, first_that, or_else, first_that-append, proc_find-first_that,
}

-- `zs` is `xs` with `new` somewhere.
abbrev pub WithNew : Process → List Process → List Process → Type 0
WithNew new xs zs = (a : List Process) × (b : List Process) × (xs ≡ a ++ b) × (zs ≡ a ++ new ∷ b)

append_assoc : (a b c : List Process) → (a ++ b) ++ c ≡ a ++ (b ++ c)
append_assoc [] b c = refl
append_assoc (x ∷ xs) b c = ap (λ t. x ∷ t) (append_assoc xs b c)

append_nil : (a : List Process) → a ++ [] ≡ a
append_nil [] = refl
append_nil (x ∷ xs) = ap (λ t. x ∷ t) (append_nil xs)

WithNew-cons :
    (new own : Process) (xs zs : List Process)
    → WithNew new xs zs
    → WithNew new (own ∷ xs) (own ∷ zs)
WithNew-cons new own xs zs (a, b, e, f) = (own ∷ a, b, ap (λ t. own ∷ t) e, ap (λ t. own ∷ t) f)

WithNew-before :
    (new : Process) (xs zs ys : List Process)
    → WithNew new xs zs
    → WithNew new (xs ++ ys) (zs ++ ys)
WithNew-before new xs zs ys (a, b, e, f) = (
  a,
  b ++ ys,
  ap (λ t. t ++ ys) e ∙ append_assoc a b ys,
  ap (λ t. t ++ ys) f ∙ append_assoc a (new ∷ b) ys,
)

WithNew-behind :
    (new : Process) (ys xs zs : List Process)
    → WithNew new xs zs
    → WithNew new (ys ++ xs) (ys ++ zs)
WithNew-behind new ys xs zs (a, b, e, f) = (
  ys ++ a,
  b,
  ap (λ t. ys ++ t) e ∙ sym (append_assoc ys a b),
  ap (λ t. ys ++ t) f ∙ sym (append_assoc ys a (new ∷ b)),
)

procs_of-append :
    (t : Tree) (ts : Children) → procs_of (proc_list_append t ts) ≡ procs_of ts ++ procs t
unfolding procs proc_list_append
procs_of-append t nobody = append_nil (procs t)
procs_of-append t (child x xs) =
    ap (λ l. procs x ++ l) (procs_of-append t xs)
    ∙ sym (append_assoc (procs x) (procs_of xs) (procs t))

module _ (p : Process → Bool) (new : Process) where
  abbrev InTree : Tree → Option Tree → Type 0
  InTree t = SomeHas (λ t'. WithNew new (procs t) (procs t'))

  abbrev InChildren : Children → Option Children → Type 0
  InChildren ts = SomeHas (λ ts'. WithNew new (procs_of ts) (procs_of ts'))

  in_node :
      (own : Process) (kids : Children) (o : Option Children)
      → InChildren kids o
      → InTree (node own kids) (elim o [ none ↦ none | some kids' ↦ some (node own kids') ])
  unfolding procs
  in_node own kids none h = tt
  in_node own kids (some kids') h = WithNew-cons new own (procs_of kids) (procs_of kids') h

  in_child :
      (t : Tree) (ts : Children) (here : Option Tree) (rest : Option Children)
      → InTree t here
      → InChildren ts rest
      → InChildren (child t ts) (elim here [
        | none ↦ elim rest [ none ↦ none | some ts' ↦ some (child t ts') ]
        | some t' ↦ some (child t' ts)
      ])
  unfolding procs
  in_child t ts none none h r = tt
  in_child t ts none (some ts') h r = WithNew-behind new (procs t) (procs_of ts) (procs_of ts') r
  in_child t ts (some t') rest h r = WithNew-before new (procs t) (procs t') (procs_of ts) h

  mutual
    unfolding add_below procs

    below_tree : (t : Tree) → InTree t (add_below p (node new nobody) t)
    below_tree (node own kids) = elim (Bool-cases (p own)) [
      | inl y ↦
          rw (SomeHas, y)
            (
              own ∷ procs_of kids,
              [],
              ap (λ l. own ∷ l) (sym (append_nil (procs_of kids))),
              ap (λ l. own ∷ l) (procs_of-append (node new nobody) kids),
            )
      | inr n ↦
          rw (SomeHas, n)
            (in_node own kids (add_below_children p (node new nobody) kids) (below_children kids))
    ]

    below_children : (ts : Children) → InChildren ts (add_below_children p (node new nobody) ts)
    below_children nobody = tt
    below_children (child t ts) =
        in_child t ts (add_below p (node new nobody) t) (add_below_children p (node new nobody) ts)
          (below_tree t) (below_children ts)

or_else-none : (a b : Option Process) → or_else a b ≡ none → a ≡ none
or_else-none none b e = refl
or_else-none (some x) b e = absurd (ground arith)

root_found :
    (p : Process → Bool) (new : Process) (own : Process) (kids : Children)
    → p own ≡ true
    → (t : Tree) × (add_below p (node new nobody) (node own kids) ≡ some t)
unfolding add_below
root_found p new own kids y = (node own (proc_list_append (node new nobody) kids), rw y refl)

some-none : (t : Tree) → some t ≡ none → ⊥
some-none t e = absurd (ground arith)

not_init :
    (parent : ℕ) (new : Process) (own : Process) (kids : Children)
    → own.pid ≡ 0
    → add_below (has_pid parent) (node new nobody) (node own kids) ≡ none
    → (parent == 0) ≡ false
not_init parent new own kids z e = elim (Bool-cases (parent == 0)) [
  | inr n ↦ n
  | inl y ↦
      (let zero_parent : parent ≡ 0 = ground (arith, y) in
        let own_is : has_pid parent own ≡ true =
          ap (λ x. x == parent) z ∙ ap (λ x. 0 == x) zero_parent ∙ ==-self 0 in
        let (t, found) = root_found (has_pid parent) new own kids own_is in
        absurd (some-none t (sym found ∙ e)))
]

-- The search in a list with a new process.
first_that-WithNew :
    (p : Process → Bool) (new : Process) (xs zs : List Process)
    → WithNew new xs zs
    → (p new ≡ true → first_that p xs ≡ none)
    → first_that p zs ≡ (if p new then some new else first_that p xs)
first_that-WithNew p new xs zs (a, b, e, f) fresh =
    let split = ap (first_that p) f ∙ first_that-append p a (new ∷ b) in
    let old = ap (first_that p) e ∙ first_that-append p a b in
    elim (Bool-cases (p new)) [
      | inl y ↦
          (let nothing = or_else-none (first_that p a) (first_that p b) (sym old ∙ fresh y) in
            rw y (split ∙ rw (nothing, y) refl))
      | inr n ↦ rw n (split ∙ rw n (sym old))
    ]

-- The tree that `proc_add` makes has all processes and the new one, when init is the root.
proc_add-WithNew :
    (new : Process) (parent : ℕ) (root : Tree)
    → (proc root).pid ≡ 0
    → WithNew new (procs root) (procs (proc_add new parent root))
unfolding proc_add
proc_add-WithNew new parent (node own kids) zero_root =
    let root = node own kids in
    let init : has_pid 0 own ≡ true = ap (λ x. x == 0) zero_root ∙ ==-self 0 in
    let under = below_tree (has_pid parent) new root in
    let (t0, e0) = root_found (has_pid 0) new own kids init in
    let at_init =
      subst (SomeHas (λ t'. WithNew new (procs root) (procs t'))) e0
        (below_tree (has_pid 0) new root) in
    elim (Option-cases (add_below (has_pid parent) (node new nobody) root)) [
      | inr (t, e) ↦
          rw (proc_add, e) (subst (SomeHas (λ t'. WithNew new (procs root) (procs t'))) e under)
      | inl e ↦
          (let other : (parent == 0) ≡ false = not_init parent new own kids zero_root e in
            rw (proc_add, e, other, e0) at_init)
    ]

-- With init as the root, and an id that no process has yet, `proc_add` makes the new process the one that
-- is found for this id, whether its parent exists or not, and every other id is found as before.
pub proc_add-find :
    (new : Process) (parent q : ℕ) (root : Tree)
    → (proc root).pid ≡ 0
    → proc_find_by_pid new.pid root ≡ none
    → proc_find_by_pid q (proc_add new parent root)
      ≡ (if new.pid == q then some new else proc_find_by_pid q root)
proc_add-find new parent q root zero_root fresh =
    let after = proc_add new parent root in
    let before_q = (proc_find-first_that q [] root).0 in
    let unknown : has_pid q new ≡ true → first_that (has_pid q) (procs root) ≡ none = λ y.
      (let same : new.pid ≡ q = ground (arith, y) in
        ap (λ i. first_that (has_pid i) (procs root)) (sym same)
        ∙ sym (proc_find-first_that new.pid [] root).0
        ∙ fresh) in
    (proc_find-first_that q [] after).0
    ∙ first_that-WithNew (has_pid q) new (procs root) (procs after)
        (proc_add-WithNew new parent root zero_root) unknown
    ∙ ap (λ o. if new.pid == q then some new else o) (sym before_q)
