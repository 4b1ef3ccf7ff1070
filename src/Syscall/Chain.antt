-- ===== src/Syscall/Chain.antt =====
-- System calls that are added behind the current one: syscall/chain.c, for arm64.
pub mod Order
pub mod Ends
use abyss.Base.{
  leb, ℕ, zero, suc, ◌+◌, ◌-◌, ◌%◌, ◌^◌, Bool, true, false, Option, none, some, List, [], ◌∷◌, ◌++◌,
  if◌then◌else◌, Result, ok, err, enomem,
}
use abyss.Tracee.State.{
  current, original, ChainedSyscall, Syscalls, no_syscalls, freed, queued, Chain, Tracee,
}
use abyss.Tracee.Reg.{
  Reg, sysarg_num, sysarg_1, sysarg_2, sysarg_3, sysarg_4, sysarg_5, sysarg_6, sysarg_result,
  instr_pointer, peek_reg, poke_reg,
}
use abyss.Tracee.Reg.Pokes.{poke_all}
use abyss.Syscall.Sysnum.{Headers, detranslate_sysnum}
use abyss.Syscall.Current.{get_abi}

abbrev pub systrap_size : ℕ
systrap_size = 4

abbrev with_syscalls : Syscalls → Tracee → Tracee
with_syscalls syscalls tracee = record tracee {
  chain = record tracee.chain { syscalls = syscalls };
}

-- `sizeof(struct chained_syscall)`: a number, six words and a pointer.
abbrev pub sizeof_chained_syscall : ℕ
sizeof_chained_syscall = 64

-- The second allocation and the insertion, into the queue `pending`. The code asks calloc(3) for the
-- size of the head of the list, 16 bytes; `block` is the size of the block that it gets, `none` for
-- NULL. Behind NULL no element is written; `none` where the element is written past its block.
unfoldable pub insert_tail :
    Option ℕ → ChainedSyscall → List ChainedSyscall → Tracee → Option (Result (Unit {0}) × Tracee)
insert_tail none syscall pending tracee = some (err enomem, with_syscalls (queued pending) tracee)
insert_tail (some block) syscall pending tracee =
    if leb sizeof_chained_syscall block
    then some (ok tt, with_syscalls (queued (pending ++ (syscall ∷ []))) tracee)
    else none

-- `calloc_head` says whether calloc(3) grants the head, and `calloc_element` is the block of the
-- element; `none` where the code reads freed memory, or writes past a block.
unfoldable pub register_chained_syscall :
    Bool → Option ℕ → ChainedSyscall → Tracee → Option (Result (Unit {0}) × Tracee)
unfolding insert_tail
register_chained_syscall calloc_head calloc_element syscall tracee = elim tracee.chain.syscalls [
  | no_syscalls ↦
      if calloc_head
      then insert_tail calloc_element syscall [] tracee
      else some (err enomem, tracee)
  | queued pending ↦ insert_tail calloc_element syscall pending tracee
  | freed ↦ none
]

-- The registers of a chained system call.
unfoldable pub forge : Headers → ChainedSyscall → Tracee → Tracee
forge headers syscall tracee =
    let poked =
      poke_all
        ((sysarg_1, syscall.sysarg_1)
          ∷ (sysarg_2, syscall.sysarg_2)
          ∷ (sysarg_3, syscall.sysarg_3)
          ∷ (sysarg_4, syscall.sysarg_4)
          ∷ (sysarg_5, syscall.sysarg_5)
          ∷ (sysarg_6, syscall.sysarg_6)
          ∷ (sysarg_num, detranslate_sysnum headers (get_abi tracee) syscall.sysnum)
          ∷ [])
        tracee in
    poke_reg instr_pointer ((peek_reg poked current instr_pointer + 2 ^ 64 - systrap_size) % 2 ^ 64)
      poked

-- What is done when the queue is empty.
unfoldable pub end_chain : Tracee → Tracee
end_chain tracee =
    let forced =
      if tracee.chain.force_final_result
      then poke_reg sysarg_result tracee.chain.final_result tracee
      else tracee in
    record forced {
      chain = record { syscalls = freed; force_final_result = false; final_result = 0 };
    }

-- `none` where the assertion fails or freed memory is read.
unfoldable pub chain_next_syscall : Headers → Tracee → Option Tracee
unfolding forge end_chain
chain_next_syscall headers tracee = elim tracee.chain.syscalls [
  | no_syscalls ↦ none
  | freed ↦ none
  | queued [] ↦ some (end_chain tracee)
  | queued (syscall ∷ pending) ↦ some (
      forge headers syscall
        (record (with_syscalls (queued pending) tracee) { restore_original_regs = false }))
]

abbrev pub force_chain_final_result : ℕ → Tracee → Tracee
force_chain_final_result forced_result tracee = record tracee {
  chain = record tracee.chain { force_final_result = true; final_result = forced_result };
}

unfoldable pub restart_original_syscall : Tracee → Tracee
restart_original_syscall tracee =
    let poked =
      poke_all
        ((sysarg_1, peek_reg tracee original sysarg_1)
          ∷ (sysarg_2, peek_reg tracee original sysarg_2)
          ∷ (sysarg_3, peek_reg tracee original sysarg_3)
          ∷ (sysarg_4, peek_reg tracee original sysarg_4)
          ∷ (sysarg_5, peek_reg tracee original sysarg_5)
          ∷ (sysarg_6, peek_reg tracee original sysarg_6)
          ∷ (sysarg_num, peek_reg tracee original sysarg_num)
          ∷ [])
        tracee in
    poke_reg instr_pointer ((peek_reg poked current instr_pointer + 2 ^ 64 - systrap_size) % 2 ^ 64)
      poked
