-- ===== src/Tracee/Reg/Keeps.antt =====
-- What is left as it is by writes to registers.
use abyss.Base.{
  ℕ, Bool, true, false, inl, inr, Bool-cases, List, [], ◌∷◌, ◌≡◌, refl, ◌∙◌, ◌==◌, not,
  if◌then◌else◌, Result,
}
use abyss.Tracee.State.{RegVersion, current, Bank, Tracee}
use abyss.Tracee.Reg.{
  Reg, sysarg_num, sysarg_1, sysarg_2, sysarg_3, sysarg_4, sysarg_5, sysarg_6, sysarg_result,
  stack_pointer, reg_offset, peek_reg, poke_reg, save_current_regs, restore, restore_all, push_regs,
  Request,
}
use abyss.Tracee.Reg.Pokes.{poke_all}

pub if-cases {ℓ κ} :
    {A : Type ℓ} {B : Type κ} (f : A → B) (b : Bool) (x y : A) (c : B)
    → f x ≡ c
    → f y ≡ c
    → f (if b then x else y) ≡ c
if-cases f true x y c h g = h
if-cases f false x y c h g = g

pub if-map {ℓ κ} :
    {A : Type ℓ} {B : Type κ} (f : A → B) (b : Bool) (x y : A) (c d : B)
    → f x ≡ c
    → f y ≡ d
    → f (if b then x else y) ≡ (if b then c else d)
if-map f true x y c d h g = h
if-map f false x y c d h g = g

-- A part of a tracee that is neither a register nor a flag of them.
abbrev pub IsApart {ℓ} : {A : Type ℓ} → (Tracee → A) → Type ℓ
IsApart part =
    (tracee : Tracee) (regs : RegVersion → Bank) (changed : Bool)
    → part (record tracee { regs = regs; regs_were_changed = changed }) ≡ part tracee

module _ {ℓ} {A : Type ℓ} (part : Tracee → A) (apart : IsApart part) where
  pub part-poke_reg :
      (reg : Reg) (value : ℕ) (tracee : Tracee) → part (poke_reg reg value tracee) ≡ part tracee
  unfolding poke_reg
  part-poke_reg reg value tracee = elim (Bool-cases (peek_reg tracee current reg == value)) [
    | inl e ↦ rw (e, poke_reg) refl
    | inr e ↦ rw (e, poke_reg) (apart tracee _ true)
  ]

  pub part-poke_all :
      (writes : List (Reg × ℕ)) (tracee : Tracee) → part (poke_all writes tracee) ≡ part tracee
  unfolding poke_all
  part-poke_all [] tracee = refl
  part-poke_all ((reg, value) ∷ writes) tracee =
      part-poke_all writes (poke_reg reg value tracee) ∙ part-poke_reg reg value tracee

  pub part-save_current_regs :
      (version : RegVersion) (tracee : Tracee)
      → part (save_current_regs version tracee) ≡ part tracee
  unfolding save_current_regs
  part-save_current_regs version tracee = apart tracee _ _

  part-restore : (reg : Reg) (tracee : Tracee) → part (restore reg tracee) ≡ part tracee
  unfolding restore
  part-restore reg tracee = elim (Bool-cases (not (reg_offset sysarg_result == reg_offset reg))) [
    | inl e ↦ rw (e, restore) (apart tracee _ tracee.regs_were_changed)
    | inr e ↦ rw (e, restore) refl
  ]

  part-restore_all : (tracee : Tracee) → part (restore_all tracee) ≡ part tracee
  unfolding restore_all
  part-restore_all tracee =
      part-restore stack_pointer _
      ∙ part-restore sysarg_6 _
      ∙ part-restore sysarg_5 _
      ∙ part-restore sysarg_4 _
      ∙ part-restore sysarg_3 _
      ∙ part-restore sysarg_2 _
      ∙ part-restore sysarg_1 _
      ∙ part-restore sysarg_num tracee

  pub part-push_regs :
      (status : Result (Unit {0})) (tracee : Tracee)
      → part (push_regs status tracee).1 ≡ part tracee
  unfolding push_regs
  part-push_regs status tracee =
      if-cases (λ (r : Result (Unit {0}) × Tracee × List Request). part r.1)
        tracee.regs_were_changed _ _ (part tracee)
        (if-cases part tracee.restore_original_regs (restore_all tracee) tracee (part tracee)
          (part-restore_all tracee) refl)
        refl
