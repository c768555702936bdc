-- ===== src/Processes/Tests.antt =====
-- Runs of apps/procsvr/process_tree.c, and the theorems at a concrete tree.
use modit_micro.Base.{◌≡◌, refl, some, none, [], ◌∷◌}
use modit_micro.Processes.{
  Process, Tree, node, nobody, child, proc_add, proc_find_by_pid, proc_find_by_name, has_pid,
  has_name,
}
use modit_micro.Processes.Search.{procs, first_that, proc_find-first_that}
use modit_micro.Processes.Adding.{proc_add-find}

abbrev shell : Process
shell = record { name = 115 ∷ 104 ∷ []; pid = 5; refcount = 0 }

abbrev editor : Process
editor = record { name = 101 ∷ 100 ∷ []; pid = 7; refcount = 0 }

abbrev two : Tree
two = node record { name = 105 ∷ []; pid = 0; refcount = 0 } (child (node shell nobody) nobody)

proc_find-first_that_example :
    (proc_find_by_pid 5 two ≡ first_that (has_pid 5) (procs two))
    × (proc_find_by_name (115 ∷ 104 ∷ []) two ≡ first_that (has_name (115 ∷ 104 ∷ [])) (procs two))
proc_find-first_that_example = proc_find-first_that 5 (115 ∷ 104 ∷ []) two

not_yet : proc_find_by_pid 7 two ≡ none
unfolding proc_find_by_pid
not_yet = refl

-- Process 99 does not exist, so that init becomes the parent.
proc_add-find_example : proc_find_by_pid 7 (proc_add editor 99 two) ≡ some editor
proc_add-find_example = proc_add-find editor 99 7 two refl not_yet

child_run :
    proc_add editor 5 two
    ≡ node
        record { name = 105 ∷ []; pid = 0; refcount = 0 }
        (child (node shell (child (node editor nobody) nobody)) nobody)
unfolding proc_add
child_run = refl
