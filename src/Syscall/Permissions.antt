-- ===== src/Syscall/Permissions.antt =====
-- The system calls of module/syscall/main.c change nothing that the caller has no permission for.
use modit_micro.Base.{◌++◌, subst, subst, ◌++◌, List, [], ◌∷◌}
use modit_micro.User.{UserTask}
use modit_micro.Kernel.{Surroundings, Kernel}
use modit_micro.Syscall.Granted.{Granted}

abbrev Every : {A : Type 0} → (A → Type 0) → List A → Type 0
Every P [] = Unit {0}
Every P (x ∷ xs) = P x × Every P xs

module _ {T : Type 0} (e : Surroundings T) (utsk : UserTask) where
  abbrev G : Kernel T → Kernel T → Type 0
  G = Granted e utsk
