-- ===== src/Event/Tests.antt =====
-- A stop at the entry of a system call.
use abyss.Base.{arith, ℕ, true, false, Option, none, some, [], ◌∷◌, ◌≡◌, ◌≢◌, refl, ok}
use abyss.Tracee.State.{
  no_ptracees, no_ptracer, Bank, Tracee, no_syscalls, restart_unset, seccomp_active,
  sigstop_allowed,
}
use abyss.Tracee.Reg.{
  peek_reg, poke_reg, save_current_regs, push_regs, is_original, set_half, set_word, requests,
}
use abyss.Tracee.Flat.{flat}
use abyss.Syscall.Sysnum.{Headers, translate_sysnum, detranslate_sysnum, translate_in}
use abyss.Syscall.Stages.{Handlers, execveat_enter, switch_enter, translate_syscall_enter}
use abyss.Syscall.Translate.{
  no_chain, is_cont, call_sysenter, enter_requested, remember, skip_exit, enter_stage,
  translate_syscall,
}
use abyss.Syscall.Translate.Outside.{Leave}
use abyss.Event.Handle.{
  Listeners, EventAnswers, Handled, is_active, is_disabling, default_restart, translate_stop,
  syscall_stop, handle_stop, handle_tracee_event, stopped,
}
use abyss.Ptrace.Requests.{disable_seccomp}
use abyss.Event.Pending.{pending_of, seccomp_of, without_exits, handle_tracee_event-Staged}

abbrev headers : Headers
headers = record { abi1 = 7 ∷ []; abi2 = []; abi3 = [] }

abbrev no_handlers : Handlers (ℕ → ℕ)
no_handlers = record {
  execve_enter = λ t m. (0, t, m);
  ptrace_enter = λ t m. (0, t, m);
  wait_enter = λ t m. (0, t, m);
  execve_exit = λ t m. (t, m);
  ptrace_exit = λ t m. (0, t, m);
  wait_exit = λ t m. ((0, false), t, m);
  on_sysenter = none;
  on_sysexit = none;
}

abbrev no_listeners : Listeners (ℕ → ℕ)
no_listeners = record { terminate_tracee = λ t m. (t, m); new_child = λ flags t m. (t, m) }

-- The exit of ptrace(2) disables seccomp, as a PTRACE_TRACEME does.
abbrev handlers : Handlers (ℕ → ℕ)
handlers = record no_handlers { ptrace_exit = λ t m. (0, disable_seccomp t, m) }

disables : (t : Tracee) → (disable_seccomp t).sysexit_pending ≡ t.sysexit_pending
unfolding disable_seccomp
disables t = ground arith

pending_left : Leave pending_of handlers
pending_left = record {
  execve_enter_keeps = λ t m. refl;
  ptrace_enter_keeps = λ t m. refl;
  wait_enter_keeps = λ t m. refl;
  execve_exit_keeps = λ t m. refl;
  ptrace_exit_keeps = λ t m. disables t;
  wait_exit_keeps = λ t m. refl;
  on_sysenter_keeps = λ call is. absurd (cc);
  on_sysexit_keeps = λ call is. absurd (cc);
}

entry_left : Leave seccomp_of (without_exits handlers)
entry_left = record {
  execve_enter_keeps = λ t m. refl;
  ptrace_enter_keeps = λ t m. refl;
  wait_enter_keeps = λ t m. refl;
  execve_exit_keeps = λ t m. refl;
  ptrace_exit_keeps = λ t m. refl;
  wait_exit_keeps = λ t m. refl;
  on_sysenter_keeps = λ call is. absurd (cc);
  on_sysexit_keeps = λ call is. absurd (cc);
}

abbrev bank : Bank
bank j = 0

abbrev answers : EventAnswers
answers = record {
  registers = record { getregset = ok bank; setregset = ok tt };
  setoptions_seccomp = true;
  setoptions = true;
  geteventmsg = none;
}

abbrev tracee : Tracee
tracee = record {
  regs = λ version. bank;
  regs_were_changed = false;
  restore_original_regs = true;
  is_aarch32 = false;
  chain = record { syscalls = no_syscalls; force_final_result = false; final_result = 0 };
  pid = 1;
  parent_pid = none;
  status = 0;
  restart_how = restart_unset;
  running = false;
  user_context_data = 0;
  seccomp = seccomp_active;
  sysexit_pending = false;
  seccomp_detected = true;
  seccomp_enabled = true;
  is_root = true;
  deliver_sigtrap = true;
  sigstop = sigstop_allowed;
  vpid = 0;
  terminated = false;
  killall_on_exit = false;
  parent = 0;
  clone = false;
  as_ptracer = no_ptracees;
  as_ptracee = no_ptracer;
  is_zombie = false;
}

abbrev memory : ℕ → ℕ
memory j = 0

abbrev event : Option (Handled (ℕ → ℕ))
event = handle_tracee_event flat headers handlers 0 12 no_listeners answers 0x857f tracee memory

abbrev outcome : Option (Handled (ℕ → ℕ)) → Handled (ℕ → ℕ)
outcome none = stopped 0 (tracee, memory, [])
outcome (some handled) = handled

happens : event ≡ some (outcome event)
unfolding handle_tracee_event handle_stop syscall_stop default_restart translate_stop is_active
    is_disabling translate_syscall enter_stage enter_requested call_sysenter translate_syscall_enter
    switch_enter execveat_enter translate_sysnum translate_in remember skip_exit is_cont no_chain
    save_current_regs is_original poke_reg peek_reg set_half set_word push_regs requests
    detranslate_sysnum
happens = refl

handle_tracee_event-Staged_example :
    ((outcome event).signal ≡ 0)
    × (tracee.status ≢ 0
        → ((outcome event).tracee.status ≡ 0) × ((outcome event).tracee.sysexit_pending ≡ false))
    × (tracee.status ≡ 0
        → is_cont (outcome event).tracee.restart_how ≡ false
        → ((outcome event).tracee.status ≢ 0) × ((outcome event).tracee.sysexit_pending ≡ true))
handle_tracee_event-Staged_example =
    handle_tracee_event-Staged flat headers handlers 0 12 no_listeners pending_left entry_left
      answers bank tracee memory (outcome event) refl refl happens
