-- ===== src/Processes/Search.antt =====
-- The search of apps/procsvr/process_tree.c is a search of all processes, parents first.
use modit_micro.Base.{
  Bool-cases, ℕ, ◌≡◌, refl, sym, ◌∙◌, ap, inl, inr, Bool, false, Option, none, some, List, [], ◌∷◌,
  ◌++◌, if◌then◌else◌,
}
use modit_micro.Processes.{
  Process, Tree, node, Children, nobody, child, proc, traverse, traverse_children, found_proc,
  has_pid, has_name, proc_find_by_pid, proc_find_by_name,
}

-- Every process of the tree, a parent before its children.
unfoldable mutual
  pub procs : Tree → List Process
  procs (node p kids) = p ∷ procs_of kids

  pub procs_of : Children → List Process
  procs_of nobody = []
  procs_of (child t ts) = procs t ++ procs_of ts

abbrev pub first_that : (Process → Bool) → List Process → Option Process
first_that p [] = none
first_that p (x ∷ xs) = if p x then some x else first_that p xs

abbrev pub or_else : Option Process → Option Process → Option Process
or_else none b = b
or_else (some a) b = some a

pub first_that-append :
    (p : Process → Bool) (xs ys : List Process)
    → first_that p (xs ++ ys) ≡ or_else (first_that p xs) (first_that p ys)
first_that-append p [] ys = refl
first_that-append p (x ∷ xs) ys = elim (Bool-cases (p x)) [
  | inl y ↦ rw y refl
  | inr n ↦ rw n (first_that-append p xs ys)
]

found_or_else :
    (a b : Option Tree)
    → found_proc (elim a [ none ↦ b | some t ↦ some t ]) ≡ or_else (found_proc a) (found_proc b)
found_or_else none b = refl
found_or_else (some t) b = refl

-- One step of the loop over children, for a child that does not pass the test itself.
step_child :
    (p : Process → Bool) (t : Tree) (ts : Children)
    → p (proc t) ≡ false
    → traverse_children p (child t ts)
      ≡ elim (traverse p t) [ none ↦ traverse_children p ts | some found ↦ some found ]
unfolding traverse
step_child p t ts n = rw n refl

mutual
  unfolding traverse procs

  traverse-first_that :
      (p : Process → Bool) (t : Tree) → found_proc (traverse p t) ≡ first_that p (procs t)
  traverse-first_that p (node own kids) = elim (Bool-cases (p own)) [
    | inl y ↦ rw y refl
    | inr n ↦ rw n (children-first_that p kids)
  ]

  children-first_that :
      (p : Process → Bool) (ts : Children)
      → found_proc (traverse_children p ts) ≡ first_that p (procs_of ts)
  children-first_that p nobody = refl
  children-first_that p (child (node own kids) ts) = elim (Bool-cases (p own)) [
    | inl y ↦ rw y refl
    | inr n ↦
        (let below = traverse-first_that p (node own kids) in
          let beside = children-first_that p ts in
          ap found_proc (step_child p (node own kids) ts n)
          ∙ found_or_else (traverse p (node own kids)) (traverse_children p ts)
          ∙ ap (λ a. or_else a (found_proc (traverse_children p ts))) below
          ∙ ap (or_else (first_that p (procs (node own kids)))) beside
          ∙ sym (first_that-append p (procs (node own kids)) (procs_of ts)))
  ]

-- The two searches answer the first process, parents before their children, that has the id or the name,
-- and nothing when there is none.
pub proc_find-first_that :
    (pid : ℕ) (name : List ℕ) (root : Tree)
    → (proc_find_by_pid pid root ≡ first_that (has_pid pid) (procs root))
      × (proc_find_by_name name root ≡ first_that (has_name name) (procs root))
unfolding proc_find_by_pid proc_find_by_name
proc_find-first_that pid name root =
    (traverse-first_that (has_pid pid) root, traverse-first_that (has_name name) root)
