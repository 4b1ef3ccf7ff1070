-- ===== src/Tracee/Reg/Pokes.antt =====
-- `peek_reg` behind `poke_reg`.
use abyss.Base.{
  ℕ, ◌+◌, ◌%◌, ◌^◌, ◌<◌, ◌≡◌, ◌≢◌, inl, inr, refl, false, List, [], ◌∷◌, ◌==◌, Bool-cases, arith,
  if◌then◌else◌,
}
use abyss.Tracee.State.{RegVersion, current, original, modified, Bank, Tracee}
use abyss.Tracee.Reg.{
  Reg, sysarg_num, sysarg_1, sysarg_2, sysarg_3, sysarg_4, sysarg_5, sysarg_6, sysarg_result,
  stack_pointer, instr_pointer, userarg_1, slot, reg_offset, reg_offset_armeabi, get_word, set_half,
  set_word, peek_reg, poke_reg, save_current_regs,
}

-- The number of bits of a register.
abbrev pub width : Tracee → ℕ
width tracee = if tracee.is_aarch32 then 32 else 64

get_word-set_word :
    (i value : ℕ) (bank : Bank) → value < 2 ^ 64 → get_word (set_word i value bank) i ≡ value
unfolding set_word set_half
get_word-set_word i value bank h = ground arith

set_half_at : (i value : ℕ) (bank : Bank) → set_half i value bank i ≡ value % 2 ^ 32
unfolding set_half
set_half_at i value bank = ground arith

set_half_off : (i j value : ℕ) (bank : Bank) → i ≢ j → set_half i value bank j ≡ bank j
unfolding set_half
set_half_off i j value bank h = ground arith

set_word_off : (i j value : ℕ) (bank : Bank) → i ≢ j → i + 1 ≢ j → set_word i value bank j ≡ bank j
unfolding set_word set_half
set_word_off i j value bank h g = ground arith

-- What `poke_reg` writes, `peek_reg` reads, cut to the width of a register.
pub peek_reg-poke_reg :
    (reg : Reg) (value : ℕ) (tracee : Tracee)
    → value < 2 ^ 64
    → peek_reg (poke_reg reg value tracee) current reg
      ≡ (if tracee.is_aarch32 then value % 2 ^ 32 else value)
unfolding peek_reg poke_reg
peek_reg-poke_reg reg value tracee h = elim (Bool-cases tracee.is_aarch32) [
  | inl narrow ↦ ground (arith, set_half_at (reg_offset_armeabi reg) value (tracee.regs current))
  | inr wide ↦ ground (arith, get_word-set_word (reg_offset reg) value (tracee.regs current) h)
]

reg_offset-even : (reg : Reg) → reg_offset reg % 2 ≡ 0
reg_offset-even sysarg_num = refl
reg_offset-even sysarg_1 = refl
reg_offset-even sysarg_2 = refl
reg_offset-even sysarg_3 = refl
reg_offset-even sysarg_4 = refl
reg_offset-even sysarg_5 = refl
reg_offset-even sysarg_6 = refl
reg_offset-even sysarg_result = refl
reg_offset-even stack_pointer = refl
reg_offset-even instr_pointer = refl
reg_offset-even userarg_1 = refl

half_modulo :
    (i j value : ℕ) (bank : Bank)
    → i ≢ j
    → get_word (set_half i value bank) j % 2 ^ 32 ≡ get_word bank j % 2 ^ 32
unfolding set_half
half_modulo i j value bank h = ground arith

word_apart :
    (i j value : ℕ) (bank : Bank)
    → i ≢ j
    → i % 2 ≡ 0
    → j % 2 ≡ 0
    → get_word (set_word i value bank) j ≡ get_word bank j
word_apart i j value bank h a b = rw (
  set_word_off i j value bank h (λ e. omega arith),
  set_word_off i (j + 1) value bank (λ e. omega arith) (λ e. h (omega arith)),
)

-- `poke_reg` leaves the registers at other places as they are, in every bank.
pub peek_reg-poke_reg_other :
    (reg other : Reg) (value : ℕ) (version : RegVersion) (tracee : Tracee)
    → slot tracee.is_aarch32 reg ≢ slot tracee.is_aarch32 other
    → peek_reg (poke_reg reg value tracee) version other ≡ peek_reg tracee version other
unfolding peek_reg poke_reg
peek_reg-poke_reg_other reg other value current tracee h = elim (Bool-cases tracee.is_aarch32) [
  | inl narrow ↦ ground (
    arith,
    half_modulo (reg_offset_armeabi reg) (reg_offset_armeabi other) value (tracee.regs current),
  )
  | inr wide ↦ ground (
    arith,
    reg_offset-even reg,
    reg_offset-even other,
    word_apart (reg_offset reg) (reg_offset other) value (tracee.regs current),
  )
]
peek_reg-poke_reg_other reg other value original tracee h = ground arith
peek_reg-poke_reg_other reg other value modified tracee h = ground arith

-- A sequence of calls of `poke_reg`.
unfoldable pub poke_all : List (Reg × ℕ) → Tracee → Tracee
poke_all [] tracee = tracee
poke_all ((reg, value) ∷ writes) tracee = poke_all writes (poke_reg reg value tracee)

-- The flag tells whether the registers may differ from the original ones.
abbrev Tracks : Tracee → Type 0
Tracks tracee =
    tracee.regs_were_changed ≡ false → (j : ℕ) → tracee.regs current j ≡ tracee.regs original j

poke_reg-Tracks :
    (reg : Reg) (value : ℕ) (tracee : Tracee) → Tracks tracee → Tracks (poke_reg reg value tracee)
unfolding poke_reg
poke_reg-Tracks reg value tracee h = elim (Bool-cases (peek_reg tracee current reg == value)) [
  | inl same ↦ rw same h
  | inr other ↦ rw other (λ e. cc)
]

poke_all-Tracks :
    (writes : List (Reg × ℕ)) (tracee : Tracee) → Tracks tracee → Tracks (poke_all writes tracee)
unfolding poke_all
poke_all-Tracks [] tracee h = h
poke_all-Tracks ((reg, value) ∷ writes) tracee h =
    poke_all-Tracks writes (poke_reg reg value tracee) (poke_reg-Tracks reg value tracee h)

-- After the original registers have been saved, and whatever is poked from then on: when the flag
-- `_regs_were_changed` is not set, so that `push_regs` does nothing, no register differs from the
-- original ones.
pub poke_all_unchanged :
    (writes : List (Reg × ℕ)) (tracee : Tracee)
    → (poke_all writes (save_current_regs original tracee)).regs_were_changed ≡ false
    → (j : ℕ)
    → (poke_all writes (save_current_regs original tracee)).regs current j
      ≡ (poke_all writes (save_current_regs original tracee)).regs original j
unfolding save_current_regs
poke_all_unchanged writes tracee =
    poke_all-Tracks writes (save_current_regs original tracee) (λ e j. refl)
