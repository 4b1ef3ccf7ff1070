-- ===== src/Syscall/Tests/Stages.antt =====
-- The stages of a system call of a concrete tracee.
use abyss.Base.{
  ℕ, ◌-◌, ◌^◌, true, false, Option, none, some, List, [], ◌∷◌, arith, ◌≡◌, ◌≢◌, refl, ok,
}
use abyss.Tracee.State.{
  no_ptracees, no_ptracer, current, Bank, Tracee, no_syscalls, ptrace_syscall, seccomp_active,
  sigstop_allowed,
}
use abyss.Tracee.Reg.{
  Request, sysarg_result, peek_reg, poke_reg, save_current_regs, push_regs, is_original, set_half,
  set_word, requests,
}
use abyss.Tracee.Flat.{flat}
use abyss.Syscall.Sysnum.{Headers, translate_sysnum, detranslate_sysnum, translate_in}
use abyss.Syscall.Stages.{
  Handlers, Answers, minus, enosys, execveat_enter, switch_enter, translate_syscall_enter,
}
use abyss.Syscall.Translate.{
  no_chain, is_cont, call_sysenter, enter_requested, remember, skip_exit, enter_stage,
  translate_syscall,
}
use abyss.Syscall.Translate.Alternates.{translate_syscall-alternates}
use abyss.Syscall.Translate.Refused.{word_at, registers_after, translate_syscall-refused}

-- The first number of the table is that of execveat.
abbrev pub headers : Headers
headers = record { abi1 = 59 ∷ 7 ∷ []; abi2 = []; abi3 = [] }

abbrev pub no_handlers : Handlers (ℕ → ℕ)
no_handlers = record {
  execve_enter = λ t m. (0, t, m);
  ptrace_enter = λ t m. (0, t, m);
  wait_enter = λ t m. (0, t, m);
  execve_exit = λ t m. (t, m);
  ptrace_exit = λ t m. (0, t, m);
  wait_exit = λ t m. ((0, false), t, m);
  on_sysenter = none;
  on_sysexit = none;
}

abbrev pub bank : Bank
bank j = 0

abbrev pub answers : Answers
answers = record { getregset = ok bank; setregset = ok tt }

abbrev pub tracee : Tracee
tracee = record {
  regs = λ version. bank;
  regs_were_changed = false;
  restore_original_regs = true;
  is_aarch32 = false;
  chain = record { syscalls = no_syscalls; force_final_result = false; final_result = 0 };
  pid = 1;
  parent_pid = none;
  status = 0;
  restart_how = ptrace_syscall;
  running = false;
  user_context_data = 0;
  seccomp = seccomp_active;
  sysexit_pending = false;
  seccomp_detected = true;
  seccomp_enabled = true;
  is_root = true;
  deliver_sigtrap = true;
  sigstop = sigstop_allowed;
  vpid = 0;
  terminated = false;
  killall_on_exit = false;
  parent = 0;
  clone = false;
  as_ptracer = no_ptracees;
  as_ptracee = no_ptracer;
  is_zombie = false;
}

abbrev memory : ℕ → ℕ
memory j = 0

abbrev run : Tracee → Option (Tracee × (ℕ → ℕ) × List Request)
run t = translate_syscall flat headers no_handlers 0 12 answers t memory

abbrev tracee_of : Option (Tracee × (ℕ → ℕ) × List Request) → Tracee
tracee_of none = tracee
tracee_of (some (t, _, _)) = t

abbrev requests_of : Option (Tracee × (ℕ → ℕ) × List Request) → List Request
requests_of none = []
requests_of (some (_, _, requests)) = requests

-- execveat(2) with the descriptor 0.
refused_status : (tracee_of (run tracee)).status ≡ minus enosys
unfolding translate_syscall enter_stage enter_requested call_sysenter translate_syscall_enter
    switch_enter execveat_enter translate_sysnum translate_in remember skip_exit is_cont no_chain
    save_current_regs is_original poke_reg peek_reg set_half set_word push_regs requests
    detranslate_sysnum
refused_status = refl

entered : run tracee ≡ some (tracee_of (run tracee), memory, requests_of (run tracee))
unfolding translate_syscall enter_stage enter_requested call_sysenter translate_syscall_enter
    switch_enter execveat_enter translate_sysnum translate_in remember skip_exit is_cont no_chain
    save_current_regs is_original poke_reg peek_reg set_half set_word push_regs requests
    detranslate_sysnum
entered = refl

translate_syscall-alternates_example :
    (tracee.status ≢ 0 → (tracee_of (run tracee)).status ≡ 0)
    × (tracee.status ≡ 0
        → (is_cont (tracee_of (run tracee)).restart_how ≡ true
            → (tracee_of (run tracee)).status ≡ 0)
          × (is_cont (tracee_of (run tracee)).restart_how ≡ false
              → (tracee_of (run tracee)).status ≢ 0))
translate_syscall-alternates_example =
    translate_syscall-alternates flat headers no_handlers 0 12 answers bank tracee
      (tracee_of (run tracee)) memory memory (requests_of (run tracee)) refl entered

abbrev at_exit : Tracee
at_exit = record tracee { status = minus enosys }

unchained : no_chain at_exit.chain.syscalls ≡ true
unfolding no_chain
unchained = refl

translate_syscall-refused_example :
    (after : Tracee) × (requests : List Request) × (translate_syscall flat headers no_handlers 0 12
        answers at_exit memory
      ≡ some (after, memory, requests))
    × (word_at false (registers_after bank requests) sysarg_result ≡ 2 ^ 64 - 38)
    × (peek_reg after current sysarg_result ≡ 2 ^ 64 - 38)
    × (after.status ≡ 0)
translate_syscall-refused_example =
    translate_syscall-refused flat headers no_handlers 0 12 answers bank at_exit memory refl refl
      (omega arith) unchained refl (λ j. omega arith)
