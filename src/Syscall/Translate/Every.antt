-- ===== src/Syscall/Translate/Every.antt =====
-- What holds of the tracee that a stage leaves.
use abyss.Base.{Bool, true, false, Option, none, some, List, ◌≡◌, refl, if◌then◌else◌}
use abyss.Tracee.State.{Tracee}
use abyss.Tracee.Reg.{Request}

-- What holds of a tracee, where there is one.
abbrev pub Every {ℓ} : {A : Type ℓ} → (Tracee → Type 0) → Option (Tracee × A) → Type 0
Every P none = Unit
Every P (some (tracee, _)) = P tracee

-- The same, where requests were made.
abbrev pub EveryPushed {ℓ} :
    {A : Type ℓ} → (Tracee → Type 0) → Option (Tracee × A × List Request) → Type 0
EveryPushed P none = Unit
EveryPushed P (some (tracee, _, _)) = P tracee

pub Every-map :
    {A : Type 0} (P Q : Tracee → Type 0) (o : Option (Tracee × A))
    → ((t : Tracee) → P t → Q t)
    → Every P o
    → Every Q o
Every-map P Q none h g = tt
Every-map P Q (some (t, a)) h g = h t g

pub Every-if :
    {A : Type 0} (P : Tracee → Type 0) (b : Bool) (x y : Option (Tracee × A))
    → Every P x
    → Every P y
    → Every P (if b then x else y)
Every-if P true x y h g = h
Every-if P false x y h g = g

pub Every-bind :
    {A B : Type 0} (P : Tracee → Type 0) (o : Option B) (next : B → Option (Tracee × A))
    → ((b : B) → o ≡ some b → Every P (next b))
    → Every P (elim o [ none ↦ none | some b ↦ next b ])
Every-bind P none next h = tt
Every-bind P (some b) next h = h b refl
