-- ===== src/Syscall/Translate.antt =====
-- `translate_syscall` of syscall/syscall.c: what is done when a tracee stops at the entry or at the
-- exit of a system call.
pub mod Every
pub mod Alternates
pub mod Outside
pub mod Refused
pub mod Untouched
use abyss.Base.{
  ℕ, ◌+◌, ◌-◌, ◌%◌, ◌^◌, Bool, true, false, not, ◌&&◌, ◌||◌, Option, none, some, List, [], ltb, leb,
  ◌==◌, if◌then◌else◌, Result, ok, err,
}
use abyss.Tracee.State.{
  RegVersion, current, original, modified, Bank, Tracee, Syscalls, no_syscalls, freed, queued,
  RestartHow, restart_unset, ptrace_syscall, ptrace_cont, ptrace_singlestep, ptrace_singleblock,
}
use abyss.Tracee.Reg.{
  Reg, sysarg_result, stack_pointer, Request, peek_reg, poke_reg, save_current_regs, fetch_regs,
  push_regs,
}
use abyss.Tracee.Process.{Process}
use abyss.Syscall.Sysnum.{Headers, pr_void}
use abyss.Syscall.Current.{get_sysnum, set_sysnum}
use abyss.Syscall.Chain.{chain_next_syscall}
use abyss.Syscall.Stages.{
  Handlers, SyscallData, Answers, tracee_pid_of, is_negative, word_of, translate_syscall_enter,
  translate_syscall_exit,
}

unfoldable pub no_chain : Syscalls → Bool
no_chain no_syscalls = true
no_chain freed = false
no_chain (queued pending) = false

unfoldable pub is_cont : RestartHow → Bool
is_cont ptrace_cont = true
is_cont _ = false

module _ {Memory : Type 0} (p : Process Memory) (headers : Headers) (handlers : Handlers Memory)
    (errno page_bits : ℕ) where
  -- The callbacks.
  unfoldable pub call_sysenter : Tracee → Memory → Option (Tracee × Memory)
  call_sysenter tracee m = elim handlers.on_sysenter [
    | none ↦ some (tracee, m)
    | some on_sysenter ↦ elim (get_sysnum headers current tracee) [
      | none ↦ none
      | some sysnum ↦
          let (context, tracee', m') =
            on_sysenter
              (record { tracee_pid = tracee_pid_of tracee; sysnum = sysnum; user_context_data = 0 })
              tracee m in
          some (record tracee' { user_context_data = context }, m')
    ]
  ]

  unfoldable pub call_sysexit : Tracee → Memory → Option (Tracee × Memory)
  call_sysexit tracee m = elim handlers.on_sysexit [
    | none ↦ some (tracee, m)
    | some on_sysexit ↦ elim (get_sysnum headers current tracee) [
      | none ↦ none
      | some sysnum ↦ some (
          on_sysexit
            (record {
              tracee_pid = tracee_pid_of tracee;
              sysnum = sysnum;
              user_context_data = tracee.user_context_data;
            })
            tracee m)
    ]
  ]

  -- A system call of the tracee's own.
  unfoldable pub enter_requested : Tracee → Memory → Option (ℕ × Tracee × Memory)
  unfolding call_sysenter translate_syscall_enter save_current_regs
  enter_requested tracee m = elim (call_sysenter (save_current_regs original tracee) m) [
    | none ↦ none
    | some (tracee1, m1) ↦
        elim (translate_syscall_enter p headers handlers errno page_bits tracee1 m1) [
          | none ↦ none
          | some (status, tracee2, m2) ↦ some (status, save_current_regs modified tracee2, m2)
        ]
  ]

  -- The call is avoided on an error.
  unfoldable pub remember : ℕ → Tracee → Tracee
  unfolding poke_reg
  remember status tracee =
      if is_negative status
      then record (poke_reg sysarg_result (word_of status) (set_sysnum headers pr_void tracee)) {
        status = status;
      }
      else record tracee { status = 1 }

  -- There is no exit stage when the tracee is to be restarted by PTRACE_CONT.
  unfoldable pub skip_exit : Tracee → Tracee
  unfolding is_cont poke_reg peek_reg
  skip_exit tracee =
      if is_cont tracee.restart_how
      then (let done = record tracee { status = 0 } in
          poke_reg stack_pointer (peek_reg done original stack_pointer) done)
      else tracee

  unfoldable pub enter_stage : Tracee → Memory → Option (Tracee × Memory)
  unfolding enter_requested remember skip_exit no_chain
  enter_stage tracee m =
      let start = record tracee { restore_original_regs = false } in
      if no_chain start.chain.syscalls
      then (elim (enter_requested start m) [
        | none ↦ none
        | some (status, tracee', m') ↦ some (skip_exit (remember status tracee'), m')
      ])
      else some (skip_exit (remember 0 (record start { restart_how = ptrace_syscall })), m)

  unfoldable pub exit_requested : Tracee → Memory → Option (Tracee × Memory)
  unfolding translate_syscall_exit no_chain
  exit_requested tracee m =
      if no_chain tracee.chain.syscalls
      then translate_syscall_exit p headers handlers errno page_bits tracee m
      else some (tracee, m)

  -- The next chained system call, once the status is reset.
  unfoldable pub next_chained : Tracee × Memory → Option (Tracee × Memory)
  unfolding no_chain chain_next_syscall
  next_chained (tracee, m) =
      let reset = record tracee { status = 0 } in
      if no_chain reset.chain.syscalls
      then some (reset, m)
      else (elim (chain_next_syscall headers reset) [ none ↦ none | some next ↦ some (next, m) ])

  unfoldable pub exit_stage : Tracee → Memory → Option (Tracee × Memory)
  unfolding call_sysexit exit_requested next_chained
  exit_stage tracee m = elim (call_sysexit (record tracee { restore_original_regs = true }) m) [
    | none ↦ none
    | some (tracee1, m1) ↦ elim (exit_requested tracee1 m1) [
      | none ↦ none
      | some state ↦ next_chained state
    ]
  ]

  -- The tracee, the memory, and the requests made to write the registers back.
  unfoldable pub translate_syscall :
      Answers → Tracee → Memory → Option (Tracee × Memory × List Request)
  unfolding fetch_regs enter_stage exit_stage push_regs
  translate_syscall answers tracee m = elim (fetch_regs answers.getregset tracee) [
    | err e ↦ some (tracee, m, [])
    | ok fetched ↦
        elim (if tracee.status == 0 then enter_stage fetched m else exit_stage fetched m)
          as (λ _. Option (Tracee × Memory × List Request)) [
            | none ↦ none
            | some (tracee', m') ↦
                let (_, pushed, requests) = push_regs answers.setregset tracee' in
                some (pushed, m', requests)
          ]
  ]
