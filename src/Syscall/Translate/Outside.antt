-- ===== src/Syscall/Translate/Outside.antt =====
-- What `translate_syscall` leaves alone.

use abyss.Base.{
  ℕ, ◌%◌, ◌^◌, Bool, not, ◌&&◌, ◌||◌, Option, none, some, ◌≡◌, refl, ◌∙◌, ◌==◌, if◌then◌else◌,
}
use abyss.Tracee.State.{RegVersion, current, Bank, Tracee, Chain, RestartHow}
use abyss.Tracee.Reg.{
  Reg, sysarg_result, sysarg_1, sysarg_2, sysarg_3, sysarg_num, stack_pointer, peek_reg, poke_reg,
}
use abyss.Tracee.Reg.Keeps.{part-poke_reg, if-cases}
use abyss.Tracee.Process.{Process}
use abyss.Syscall.Sysnum.{Headers, pr_void}
use abyss.Syscall.Current.{get_sysnum, set_sysnum}
use abyss.Syscall.Stages.{
  is_waiting, Handlers, SyscallData, is_negative, word_of, tracee_pid_of, execveat_enter,
  switch_enter, give, switch_exit, pr_execve, pr_execveat, pr_ptrace, pr_wait4, pr_waitpid, pr_open,
  pr_openat, pr_prctl, pr_set_dumpable, at_fdcwd,
}
use abyss.Syscall.Translate.{is_cont, remember, skip_exit, call_sysenter, call_sysexit}
use abyss.Syscall.Translate.Every.{Every, Every-bind}

-- A part of a tracee that the stages do not write themselves.
abbrev pub IsOutside {ℓ} : {A : Type ℓ} → (Tracee → A) → Type ℓ
IsOutside part =
    (tracee : Tracee) (regs : RegVersion → Bank) (changed restores : Bool) (status : ℕ)
    (how : RestartHow) (context : ℕ) (chain : Chain)
    → part (record tracee {
      regs = regs;
      regs_were_changed = changed;
      restore_original_regs = restores;
      status = status;
      restart_how = how;
      user_context_data = context;
      chain = chain;
    })
      ≡ part tracee

-- The components and the callbacks do not write it either.
pub record Leave {Memory : Type 0} {A : Type 0} (part : Tracee → A) (handlers : Handlers Memory)
    : Type 0 where
  pub execve_enter_keeps : (t : Tracee) (m : Memory) → part (handlers.execve_enter t m).1 ≡ part t
  pub ptrace_enter_keeps : (t : Tracee) (m : Memory) → part (handlers.ptrace_enter t m).1 ≡ part t
  pub wait_enter_keeps : (t : Tracee) (m : Memory) → part (handlers.wait_enter t m).1 ≡ part t
  pub execve_exit_keeps : (t : Tracee) (m : Memory) → part (handlers.execve_exit t m).0 ≡ part t
  pub ptrace_exit_keeps : (t : Tracee) (m : Memory) → part (handlers.ptrace_exit t m).1 ≡ part t
  pub wait_exit_keeps : (t : Tracee) (m : Memory) → part (handlers.wait_exit t m).1 ≡ part t
  pub on_sysenter_keeps :
      (call : SyscallData → Tracee → Memory → ℕ × Tracee × Memory)
      → handlers.on_sysenter ≡ some call
      → (call_data : SyscallData) (t : Tracee) (m : Memory) → part (call call_data t m).1 ≡ part t
  pub on_sysexit_keeps :
      (call : SyscallData → Tracee → Memory → Tracee × Memory)
      → handlers.on_sysexit ≡ some call
      → (call_data : SyscallData) (t : Tracee) (m : Memory) → part (call call_data t m).0 ≡ part t

module _ {Memory : Type 0} {A : Type 0} (p : Process Memory) (headers : Headers)
    (handlers : Handlers Memory) (errno page_bits : ℕ) (part : Tracee → A)
    (outside : IsOutside part) (leave : Leave part handlers) where
  poke : (reg : Reg) (value : ℕ) (t : Tracee) → part (poke_reg reg value t) ≡ part t
  poke = part-poke_reg part (λ t r c. outside t r c _ _ _ _ _)

  execveat_enter-keeps :
      (t : Tracee) (m : Memory)
      → part (execveat_enter p headers handlers errno page_bits t m).1 ≡ part t
  unfolding execveat_enter
  execveat_enter-keeps t m =
      if-cases (λ (r : ℕ × Tracee × Memory). part r.1)
        (peek_reg t current sysarg_1 % 2 ^ 32 == at_fdcwd) _ _ (part t)
        (leave.execve_enter_keeps _ m
          ∙ poke sysarg_3 _ _
          ∙ poke sysarg_2 _ _
          ∙ poke sysarg_1 _ _
          ∙ poke sysarg_num _ t)
        refl

  -- One case of a switch of the entry stage.
  case :
      (b : Bool) (x y : ℕ × Tracee × Memory) (t : Tracee)
      → part x.1 ≡ part t
      → part y.1 ≡ part t
      → part (if b then x else y).1 ≡ part t
  case b x y t = if-cases (λ (r : ℕ × Tracee × Memory). part r.1) b x y (part t)

  pub switch_enter-keeps :
      (sysnum : ℕ) (t : Tracee) (m : Memory)
      → part (switch_enter p headers handlers errno page_bits sysnum t m).1 ≡ part t
  unfolding switch_enter
  switch_enter-keeps sysnum t m = case (sysnum == pr_execve) _ _ t (leave.execve_enter_keeps t m) (
      case (sysnum == pr_execveat) _ _ t (execveat_enter-keeps t m) (
        case (sysnum == pr_ptrace) _ _ t (leave.ptrace_enter_keeps t m) (
          case (sysnum == pr_wait4 || sysnum == pr_waitpid) _ _ t (leave.wait_enter_keeps t m) (
            case (sysnum == pr_open) (0, t, m) _ t refl
              (case (sysnum == pr_openat) (_, t, m) _ t refl
                (case (sysnum == pr_prctl && peek_reg t current sysarg_1 == pr_set_dumpable)
                  (0, set_sysnum headers pr_void t, m) (0, t, m) t (poke sysarg_num _ t) refl))))))

  -- One case of a switch of the exit stage.
  case_exit :
      (b : Bool) (x y : Tracee × Memory) (t : Tracee)
      → part x.0 ≡ part t
      → part y.0 ≡ part t
      → part (if b then x else y).0 ≡ part t
  case_exit b x y t = if-cases (λ (r : Tracee × Memory). part r.0) b x y (part t)

  pub give-keeps :
      (r : ℕ × Tracee × Memory) → part (give p headers handlers errno page_bits r).0 ≡ part r.1
  unfolding give
  give-keeps (status, t, m) = poke sysarg_result (word_of status) t

  pub switch_exit-keeps :
      (sysnum : ℕ) (t : Tracee) (m : Memory)
      → part (switch_exit p headers handlers errno page_bits sysnum t m).0 ≡ part t
  unfolding switch_exit
  switch_exit-keeps sysnum t m =
      let r = handlers.wait_exit t m in
      let given = give p headers handlers errno page_bits (r.0.0, r.1, r.2) in
      let waited = if not r.0.1 then (r.1, r.2) else given in
      let waits = if not (is_waiting t.as_ptracer.waits_in) then (t, m) else waited in
      let traced = give p headers handlers errno page_bits (handlers.ptrace_exit t m) in
      let is_wait = sysnum == pr_wait4 || sysnum == pr_waitpid in
      case_exit (sysnum == pr_execve) (handlers.execve_exit t m)
        (if sysnum == pr_ptrace then traced else (if is_wait then waits else (t, m))) t
        (leave.execve_exit_keeps t m)
        (case_exit (sysnum == pr_ptrace) traced (if is_wait then waits else (t, m)) t
          (give-keeps (handlers.ptrace_exit t m) ∙ leave.ptrace_exit_keeps t m)
          (case_exit is_wait waits (t, m) t
            (case_exit (not (is_waiting t.as_ptracer.waits_in)) (t, m) waited t refl
              (case_exit (not r.0.1) (r.1, r.2) given t (leave.wait_exit_keeps t m)
                (give-keeps (r.0.0, r.1, r.2) ∙ leave.wait_exit_keeps t m)))
            refl))

  -- What is left where there is a tracee.
  abbrev Left : Tracee → Tracee → Type 0
  Left t after = part after ≡ part t

  pub remember-keeps :
      (status : ℕ) (t : Tracee)
      → part (remember p headers handlers errno page_bits status t) ≡ part t
  unfolding remember
  remember-keeps status t =
      if-cases part (is_negative status) _ _ (part t)
        (outside (poke_reg sysarg_result (word_of status) (set_sysnum headers pr_void t)) _ _ _
            status _ _ _
          ∙ poke sysarg_result _ _
          ∙ poke sysarg_num _ t)
        (outside t _ _ _ 1 _ _ _)

  pub skip_exit-keeps :
      (t : Tracee) → part (skip_exit p headers handlers errno page_bits t) ≡ part t
  unfolding skip_exit
  skip_exit-keeps t =
      if-cases part (is_cont t.restart_how) _ t (part t)
        (poke stack_pointer _ (record t { status = 0 }) ∙ outside t _ _ _ 0 _ _ _) refl

  entered_call :
      (o : Option (SyscallData → Tracee → Memory → ℕ × Tracee × Memory)) (t : Tracee) (m : Memory)
      → ((call : SyscallData → Tracee → Memory → ℕ × Tracee × Memory)
          → o ≡ some call
          → (call_data : SyscallData) → part (call call_data t m).1 ≡ part t)
      → Every (Left t) (elim o as (λ _. Option (Tracee × Memory)) [
        | none ↦ some (t, m)
        | some on_sysenter ↦ elim (get_sysnum headers current t) [
          | none ↦ none
          | some sysnum ↦
              let (context, tracee', m') =
                on_sysenter
                  (record { tracee_pid = tracee_pid_of t; sysnum = sysnum; user_context_data = 0 })
                  t
                  m in
              some (record tracee' { user_context_data = context }, m')
        ]
      ])
  entered_call none t m h = refl
  entered_call (some call) t m h =
      Every-bind (Left t) (get_sysnum headers current t) _
        (λ sysnum is. outside _ _ _ _ _ _ _ _ ∙ h call refl _)

  pub call_sysenter-keeps :
      (t : Tracee) (m : Memory)
      → Every (Left t) (call_sysenter p headers handlers errno page_bits t m)
  unfolding call_sysenter
  call_sysenter-keeps t m =
      entered_call handlers.on_sysenter t m (λ call is d. leave.on_sysenter_keeps call is d t m)

  exited_call :
      (o : Option (SyscallData → Tracee → Memory → Tracee × Memory)) (t : Tracee) (m : Memory)
      → ((call : SyscallData → Tracee → Memory → Tracee × Memory)
          → o ≡ some call
          → (call_data : SyscallData) → part (call call_data t m).0 ≡ part t)
      → Every (Left t) (elim o as (λ _. Option (Tracee × Memory)) [
        | none ↦ some (t, m)
        | some on_sysexit ↦ elim (get_sysnum headers current t) [
          | none ↦ none
          | some sysnum ↦ some (
              on_sysexit
                (record {
                  tracee_pid = tracee_pid_of t;
                  sysnum = sysnum;
                  user_context_data = t.user_context_data;
                })
                t
                m)
        ]
      ])
  exited_call none t m h = refl
  exited_call (some call) t m h =
      Every-bind (Left t) (get_sysnum headers current t) _ (λ sysnum is. h call refl _)

  pub call_sysexit-keeps :
      (t : Tracee) (m : Memory)
      → Every (Left t) (call_sysexit p headers handlers errno page_bits t m)
  unfolding call_sysexit
  call_sysexit-keeps t m =
      exited_call handlers.on_sysexit t m (λ call is d. leave.on_sysexit_keeps call is d t m)
