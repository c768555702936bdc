-- ===== src/Syscall/Outcomes.antt =====
-- How a call changes the kernel, whichever way it ends.
use modit_micro.Base.{Bool, true, false, ◌≡◌, refl, Option, none, some, if◌then◌else◌}
use modit_micro.Kernel.{Kernel, Outcome, returns, gives_away, faults}

-- Every part of the call, up to where it returns or gives the processor away, changes the kernel that
-- it finds as `R` says.
abbrev pub Keeps : {T A : Type 0} → (Kernel T → Kernel T → Type 0) → Kernel T → Outcome T A → Type 0
Keeps R k (returns a k') = R k k'
Keeps {T} R k (gives_away k' next) = R k k' × ((k2 : Kernel T) → Keeps R k2 (next k2))
Keeps R k faults = Unit {0}

pub if-Keeps :
    {T A : Type 0} (R : Kernel T → Kernel T → Type 0) (k : Kernel T) (c : Bool) (x y : Outcome T A)
    → (c ≡ true → Keeps R k x)
    → (c ≡ false → Keeps R k y)
    → Keeps R k (if c then x else y)
if-Keeps R k true x y p q = p refl
if-Keeps R k false x y p q = q refl

pub some-Keeps :
    {T A B : Type 0} (R : Kernel T → Kernel T → Type 0) (k : Kernel T) (o : Option B)
    (f : B → Outcome T A)
    → ((b : B) → o ≡ some b → Keeps R k (f b))
    → Keeps R k (elim o [ none ↦ faults | some b ↦ f b ])
some-Keeps R k none f p = tt
some-Keeps R k (some b) f p = p b refl

-- A larger relation.
pub Keeps-weaken :
    {T A : Type 0} (R S : Kernel T → Kernel T → Type 0)
    → ((k k' : Kernel T) → R k k' → S k k')
    → (k : Kernel T) (out : Outcome T A) → Keeps R k out
    → Keeps S k out
Keeps-weaken R S f k (returns a k') p = f k k' p
Keeps-weaken R S f k (gives_away k' next) p =
    (f k k' p.0, λ k2. Keeps-weaken R S f k2 (next k2) (p.1 k2))
Keeps-weaken R S f k faults p = tt

-- A change before the first part.
pub Keeps-before :
    {T A : Type 0} (R : Kernel T → Kernel T → Type 0) (k k1 : Kernel T)
    → ((k' : Kernel T) → R k1 k' → R k k')
    → (out : Outcome T A) → Keeps R k1 out
    → Keeps R k out
Keeps-before R k k1 f (returns a k') p = f k' p
Keeps-before R k k1 f (gives_away k' next) p = (f k' p.0, p.1)
Keeps-before R k k1 f faults p = tt
