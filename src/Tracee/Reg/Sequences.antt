-- ===== src/Tracee/Reg/Sequences.antt =====
-- The registers behind a sequence of calls of `poke_reg`.
use abyss.Base.{
  ℕ, ◌%◌, ◌^◌, ◌<◌, ◌≡◌, refl, ap, ◌∙◌, Bool, inl, inr, List, [], ◌∷◌, ◌==◌, ==_iff, Bool-cases,
  arith, if◌then◌else◌,
}
use abyss.Tracee.State.{current, Tracee}
use abyss.Tracee.Reg.{Reg, slot, peek_reg, poke_reg}
use abyss.Tracee.Reg.Pokes.{peek_reg-poke_reg, peek_reg-poke_reg_other, poke_all}

-- What a register holds when it held `before`: the last value written at its place.
abbrev pub value_after : Bool → List (Reg × ℕ) → Reg → ℕ → ℕ
value_after is_aarch32 [] reg before = before
value_after is_aarch32 ((other, value) ∷ writes) reg before = value_after is_aarch32 writes reg (
    if slot is_aarch32 other == slot is_aarch32 reg
    then (if is_aarch32 then value % 2 ^ 32 else value)
    else before)

-- All values fit in a word.
abbrev pub AllWords : List (Reg × ℕ) → Type 0
AllWords [] = Unit
AllWords ((reg, value) ∷ writes) = (value < 2 ^ 64) × AllWords writes

poke_reg-is_aarch32 :
    (reg : Reg) (value : ℕ) (tracee : Tracee)
    → (poke_reg reg value tracee).is_aarch32 ≡ tracee.is_aarch32
unfolding poke_reg
poke_reg-is_aarch32 reg value tracee = ground arith

peek_reg_same_slot :
    (reg other : Reg) (tracee : Tracee)
    → slot tracee.is_aarch32 reg ≡ slot tracee.is_aarch32 other
    → peek_reg tracee current other ≡ peek_reg tracee current reg
unfolding peek_reg
peek_reg_same_slot reg other tracee h = rw h refl

-- After a sequence of calls of `poke_reg`, `peek_reg` reads the last value written at the place of
-- the register, cut to the width of a register, or what was there if none was.
pub peek_reg-poke_all :
    (writes : List (Reg × ℕ)) (reg : Reg) (tracee : Tracee)
    → AllWords writes
    → peek_reg (poke_all writes tracee) current reg
      ≡ value_after tracee.is_aarch32 writes reg (peek_reg tracee current reg)
unfolding poke_all
peek_reg-poke_all [] reg tracee h = refl
peek_reg-poke_all ((other, value) ∷ writes) reg tracee h =
    let next = poke_reg other value tracee in
    let mode = poke_reg-is_aarch32 other value tracee in
    let step : peek_reg next current reg ≡ (
        if slot tracee.is_aarch32 other == slot tracee.is_aarch32 reg
        then (if tracee.is_aarch32 then value % 2 ^ 32 else value)
        else peek_reg tracee current reg) =
      elim (Bool-cases (slot tracee.is_aarch32 other == slot tracee.is_aarch32 reg)) [
        | inl here ↦ rw here (
            peek_reg_same_slot other reg next (
              rw mode ((==_iff (slot tracee.is_aarch32 other) (slot tracee.is_aarch32 reg)).0 here))
            ∙ peek_reg-poke_reg other value tracee h.0)
        | inr off ↦ rw off (
            peek_reg-poke_reg_other other reg value current tracee (λ e.
              cc (
                rw off at (==_iff (slot tracee.is_aarch32 other) (slot tracee.is_aarch32 reg)).1
                  e)))
      ] in
    peek_reg-poke_all writes reg next h.1
    ∙ ap (λ b. value_after b writes reg (peek_reg next current reg)) mode
    ∙ ap (value_after tracee.is_aarch32 writes reg) step
