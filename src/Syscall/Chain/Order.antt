-- ===== src/Syscall/Chain/Order.antt =====
-- The order in which chained system calls are issued.
use abyss.Base.{
  ℕ, zero, suc, ◌+◌, ◌-◌, ◌%◌, ◌^◌, ◌<◌, ◌≡◌, refl, Bool, true, false, Option, none, some, List, [],
  ◌∷◌, map, if◌then◌else◌, length,
}
use abyss.Tracee.State.{current, ChainedSyscall, Chain, Tracee}
use abyss.Tracee.Reg.{
  Reg, sysarg_num, sysarg_1, sysarg_2, sysarg_3, sysarg_4, sysarg_5, sysarg_6, instr_pointer,
  peek_reg,
}
use abyss.Tracee.Reg.Pokes.{poke_all}
use abyss.Tracee.Reg.Sequences.{value_after}
use abyss.Syscall.Sysnum.{Headers, abi_2, abi_default, get_sysnums, detranslate_sysnum}
use abyss.Syscall.Current.{get_abi}
use abyss.Syscall.Chain.{systrap_size, register_chained_syscall, chain_next_syscall}

-- The number and the arguments that a tracee is about to call with, and those of a chained system
-- call, as they are on the tracee's architecture.
abbrev pub calls_with : Tracee → List ℕ
calls_with tracee =
    map (peek_reg tracee current)
      (sysarg_num ∷ sysarg_1 ∷ sysarg_2 ∷ sysarg_3 ∷ sysarg_4 ∷ sysarg_5 ∷ sysarg_6 ∷ [])

abbrev pub cut : Bool → ℕ → ℕ
cut is_aarch32 value = if is_aarch32 then value % 2 ^ 32 else value

abbrev pub asks_for : Headers → Bool → ChainedSyscall → List ℕ
asks_for headers is_aarch32 c = map (cut is_aarch32) (
    detranslate_sysnum headers (if is_aarch32 then abi_2 else abi_default) c.sysnum
    ∷ c.sysarg_1
    ∷ c.sysarg_2
    ∷ c.sysarg_3
    ∷ c.sysarg_4
    ∷ c.sysarg_5
    ∷ c.sysarg_6
    ∷ [])

-- The arguments fit in a word.
abbrev pub Fits : ChainedSyscall → Type 0
Fits c =
    (c.sysarg_1 < 2 ^ 64)
    × (c.sysarg_2 < 2 ^ 64)
    × (c.sysarg_3 < 2 ^ 64)
    × (c.sysarg_4 < 2 ^ 64)
    × (c.sysarg_5 < 2 ^ 64)
    × (c.sysarg_6 < 2 ^ 64)

-- The calls registered one after the other, each in a block of that size.
abbrev pub register_all : ℕ → List ChainedSyscall → Tracee → Option Tracee
register_all block [] tracee = some tracee
register_all block (c ∷ cs) tracee = elim (register_chained_syscall true (some block) c tracee) [
  | none ↦ none
  | some r ↦ register_all block cs r.1
]

-- The calls that a number of calls of `chain_next_syscall` forge.
abbrev pub issue : Headers → ℕ → Tracee → Option (List (List ℕ))
issue headers zero tracee = some []
issue headers (suc n) tracee = elim (chain_next_syscall headers tracee) [
  | none ↦ none
  | some next ↦ elim (issue headers n next) [
    | none ↦ none
    | some more ↦ some (calls_with next ∷ more)
  ]
]

abbrev writes : Headers → ChainedSyscall → Tracee → List (Reg × ℕ)
writes headers c tracee =
    (sysarg_1, c.sysarg_1)
    ∷ (sysarg_2, c.sysarg_2)
    ∷ (sysarg_3, c.sysarg_3)
    ∷ (sysarg_4, c.sysarg_4)
    ∷ (sysarg_5, c.sysarg_5)
    ∷ (sysarg_6, c.sysarg_6)
    ∷ (sysarg_num, detranslate_sysnum headers (get_abi tracee) c.sysnum)
    ∷ []

abbrev back_to : Headers → ChainedSyscall → Tracee → ℕ
back_to headers c tracee =
    (peek_reg (poke_all (writes headers c tracee) tracee) current instr_pointer
      + 2 ^ 64
      - systrap_size)
    % 2 ^ 64

-- What these writes leave, whatever was there.
pub values_in_mode :
    (c : ChainedSyscall) (is_aarch32 : Bool) (number ip : ℕ) (before : Reg → ℕ)
    → map
        (λ reg.
          value_after is_aarch32
            ((sysarg_1, c.sysarg_1)
              ∷ (sysarg_2, c.sysarg_2)
              ∷ (sysarg_3, c.sysarg_3)
              ∷ (sysarg_4, c.sysarg_4)
              ∷ (sysarg_5, c.sysarg_5)
              ∷ (sysarg_6, c.sysarg_6)
              ∷ (sysarg_num, number)
              ∷ (instr_pointer, ip)
              ∷ [])
            reg
            (before reg))
        (sysarg_num ∷ sysarg_1 ∷ sysarg_2 ∷ sysarg_3 ∷ sysarg_4 ∷ sysarg_5 ∷ sysarg_6 ∷ [])
      ≡ map (cut is_aarch32) (
          number ∷ c.sysarg_1 ∷ c.sysarg_2 ∷ c.sysarg_3 ∷ c.sysarg_4 ∷ c.sysarg_5 ∷ c.sysarg_6 ∷ [])
values_in_mode c true number ip before = refl
values_in_mode c false number ip before = refl

abbrev pub AllFits : List ChainedSyscall → Type 0
AllFits [] = Unit
AllFits (c ∷ cs) = Fits c × AllFits cs

-- The tables of numbers end below the largest 32-bit value.
abbrev pub SmallTables : Headers → Type 0
SmallTables headers =
    (is_aarch32 : Bool)
    → (get_sysnums headers (if is_aarch32 then abi_2 else abi_default)).offset
        + length (get_sysnums headers (if is_aarch32 then abi_2 else abi_default)).table
      < 2 ^ 32 - 1
