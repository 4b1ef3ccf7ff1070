-- ===== src/Event/Handle.antt =====
-- `handle_tracee_event` and `restart_tracee` of tracee/event.c. `none` where the code exits, or where
-- `translate_syscall` reads what it must not.
use abyss.Base.{
  ℕ, ◌%◌, Bool, true, false, not, ◌&&◌, ◌||◌, Option, none, some, List, [], ◌==◌, if◌then◌else◌,
}
use abyss.Tracee.State.{
  Tracee, RestartHow, restart_unset, ptrace_syscall, ptrace_cont, ptrace_singlestep,
  ptrace_singleblock, SeccompState, seccomp_disabled, seccomp_disabling, seccomp_active,
  sigstop_ignored, sigstop_allowed, sigstop_pending,
}
use abyss.Tracee.Reg.{Request}
use abyss.Tracee.Process.{Process}
use abyss.Syscall.Sysnum.{Headers}
use abyss.Syscall.Stages.{Handlers, Answers, minus}
use abyss.Syscall.Translate.{translate_syscall}
use abyss.Event.Stops.{
  sigtrap, sigstop_number, event_fork, event_vfork, event_clone, event_exec, event_vfork_done,
  event_exit, event_seccomp, event_seccomp2, clone_vfork, wifexited, wexitstatus, wifsignaled,
  wifstopped, stop_of, trap_of, syscall_trap,
}

-- The components that the events are passed on to.
pub record Listeners (Memory : Type 0) : Type 0 where
  pub terminate_tracee : Tracee → Memory → Tracee × Memory
  pub new_child : ℕ → Tracee → Memory → Tracee × Memory

-- What ptrace(2) answers: whether PTRACE_SETOPTIONS is granted with and without
-- PTRACE_O_TRACESECCOMP, and the message of PTRACE_GETEVENTMSG.
pub record EventAnswers : Type 0 where
  pub registers : Answers
  pub setoptions_seccomp : Bool
  pub setoptions : Bool
  pub geteventmsg : Option ℕ

-- The signal to restart the tracee with, and what has been left.
pub record Handled (Memory : Type 0) : Type 0 where
  pub signal : ℕ
  pub tracee : Tracee
  pub memory : Memory
  pub requests : List Request
  pub exit_status : Option ℕ

unfoldable pub is_active : SeccompState → Bool
is_active seccomp_active = true
is_active _ = false

unfoldable pub is_disabling : SeccompState → Bool
is_disabling seccomp_disabling = true
is_disabling _ = false

-- How the tracee is restarted unless it is said elsewhere.
unfoldable pub default_restart : Tracee → Tracee
unfolding is_active
default_restart tracee = elim tracee.restart_how [
  | restart_unset ↦ record tracee {
    restart_how =
        if is_active tracee.seccomp && not tracee.sysexit_pending
        then ptrace_cont
        else ptrace_syscall;
  }
  | ptrace_syscall ↦ tracee
  | ptrace_cont ↦ tracee
  | ptrace_singlestep ↦ tracee
  | ptrace_singleblock ↦ tracee
]

-- A stop that leaves no exit status.
abbrev pub stopped : {Memory : Type 0} → ℕ → Tracee × Memory × List Request → Handled Memory
stopped signal (tracee, m, requests) = record {
  signal = signal;
  tracee = tracee;
  memory = m;
  requests = requests;
  exit_status = none;
}

module _ {Memory : Type 0} (p : Process Memory) (headers : Headers) (handlers : Handlers Memory)
    (errno page_bits : ℕ) (listeners : Listeners Memory) where
  -- `translate_syscall`, which may disable seccomp.
  unfoldable pub translate_stop :
      EventAnswers → Tracee → Memory → Option (Tracee × Memory × List Request)
  unfolding translate_syscall is_disabling
  translate_stop answers tracee m =
      elim (translate_syscall p headers handlers errno page_bits answers.registers tracee m) [
        | none ↦ none
        | some (after, m', requests) ↦ some (
          if is_disabling after.seccomp
              then record after { restart_how = ptrace_syscall; seccomp = seccomp_disabled }
              else after,
          m',
          requests,
        )
      ]

  -- The case SIGTRAP | 0x80.
  unfoldable pub syscall_stop :
      EventAnswers → Tracee → Memory → Option (Tracee × Memory × List Request)
  unfolding translate_stop
  syscall_stop answers tracee m = elim tracee.seccomp [
    | seccomp_active ↦
        translate_stop answers
          (if tracee.status == 0
            then record tracee { restart_how = ptrace_syscall; sysexit_pending = true }
            else record tracee { restart_how = ptrace_cont; sysexit_pending = false })
          m
    | seccomp_disabled ↦ translate_stop answers tracee m
    | seccomp_disabling ↦ some (
      record tracee {
        seccomp = seccomp_disabled;
        status = if tracee.status == 0 then 1 else tracee.status;
      },
      m,
      [],
    )
  ]

  -- Seccomp is found to work.
  unfoldable pub detect_seccomp : Tracee → Tracee
  detect_seccomp tracee =
      if not tracee.seccomp_detected && tracee.seccomp_enabled
      then record tracee { seccomp = seccomp_active; seccomp_detected = true }
      else tracee

  -- `FILTER_SYSEXIT` is not among the flags: there is no exit stage.
  unfoldable pub entry_only :
      EventAnswers → Tracee → Memory → Option (Tracee × Memory × List Request)
  unfolding translate_syscall is_disabling
  entry_only answers tracee m =
      elim (translate_syscall p headers handlers errno page_bits answers.registers
        (record tracee { restart_how = ptrace_cont }) m) [
          | none ↦ none
          | some (after, m', requests) ↦ some (
            if is_disabling after.seccomp
                then record after { restart_how = ptrace_syscall }
                else after,
            m',
            requests,
          )
        ]

  -- The cases of PTRACE_EVENT_SECCOMP.
  unfoldable pub seccomp_stop :
      EventAnswers → Tracee → Memory → Option (Tracee × Memory × List Request)
  unfolding detect_seccomp entry_only syscall_stop is_active
  seccomp_stop answers tracee m =
      let detected = detect_seccomp tracee in
      if not (is_active detected.seccomp)
      then some (detected, m, [])
      else (elim answers.geteventmsg [
        | none ↦ some (detected, m, [])
        | some flags ↦
            if flags % 2 == 0
            then entry_only answers detected m
            else syscall_stop answers detected m
      ])

  -- The case SIGTRAP, of which the first one is that of the tracing loop.
  unfoldable pub trap_stop : EventAnswers → Tracee → Memory → Option (Handled Memory)
  unfolding detect_seccomp syscall_stop
  trap_stop answers tracee m =
      if not tracee.is_root || tracee.deliver_sigtrap
      then some (stopped sigtrap (tracee, m, []))
      else (if answers.setoptions_seccomp || answers.setoptions
          then (elim (syscall_stop answers
              (detect_seccomp (record tracee {
                deliver_sigtrap = true;
                seccomp_enabled = answers.setoptions_seccomp;
              }))
              m) [ none ↦ none | some after ↦ some (stopped 0 after) ])
          else none)

  -- The case SIGSTOP.
  unfoldable pub sigstop_stop : Tracee → Memory → Handled Memory
  sigstop_stop tracee m = elim tracee.sigstop [
    | sigstop_ignored ↦ stopped 0 (record tracee { sigstop = sigstop_allowed }, m, [])
    | sigstop_allowed ↦ stopped sigstop_number (tracee, m, [])
    | sigstop_pending ↦ stopped sigstop_number (tracee, m, [])
  ]

  abbrev pub quiet : Option (Tracee × Memory × List Request) → Option (Handled Memory)
  quiet none = none
  quiet (some after) = some (stopped 0 after)

  -- The switch on the stop.
  unfoldable pub handle_stop : EventAnswers → ℕ → Tracee → Memory → Option (Handled Memory)
  unfolding trap_stop seccomp_stop syscall_stop sigstop_stop
  handle_stop answers signal tracee m =
      if signal == sigtrap
      then trap_stop answers tracee m
      else if signal == trap_of event_seccomp2 || signal == trap_of event_seccomp
      then quiet (seccomp_stop answers tracee m)
      else if signal == syscall_trap
      then quiet (syscall_stop answers tracee m)
      else if signal == trap_of event_vfork
      then (let (tracee', m') = listeners.new_child clone_vfork tracee m in
          some (stopped 0 (tracee', m', [])))
      else if signal == trap_of event_fork || signal == trap_of event_clone
      then (let (tracee', m') = listeners.new_child 0 tracee m in
          some (stopped 0 (tracee', m', [])))
      else if signal == trap_of event_vfork_done
          || signal == trap_of event_exec
          || signal == trap_of event_exit
      then some (stopped 0 (tracee, m, []))
      else if signal == sigstop_number
      then some (sigstop_stop tracee m)
      else some (stopped signal (tracee, m, []))

  -- The end of a tracee.
  unfoldable pub terminate : Option ℕ → Tracee → Memory → Handled Memory
  terminate exit_status tracee m =
      let (tracee', m') = listeners.terminate_tracee tracee m in
      record { signal = 0; tracee = tracee'; memory = m'; requests = []; exit_status = exit_status }

  -- `as_ptracee.event4.proot.pending = false`
  abbrev pub clear_pending : Tracee → Tracee
  clear_pending tracee = record tracee {
    as_ptracee = record tracee.as_ptracee {
      event_proot = record tracee.as_ptracee.event_proot { pending = false };
    };
  }

  abbrev pub clear_event : Option (Handled Memory) → Option (Handled Memory)
  clear_event none = none
  clear_event (some handled) = some (record handled { tracee = clear_pending handled.tracee })

  unfoldable pub handle_tracee_event : EventAnswers → ℕ → Tracee → Memory → Option (Handled Memory)
  unfolding default_restart terminate handle_stop
  handle_tracee_event answers tracee_status tracee m =
      let start = default_restart tracee in
      clear_event (
        if wifexited tracee_status
        then some (terminate (some (wexitstatus tracee_status)) start m)
        else if wifsignaled tracee_status
        then some (terminate none start m)
        else if wifstopped tracee_status
        then handle_stop answers (stop_of tracee_status) start m
        else some (stopped 0 (start, m, [])))

-- What is asked of ptrace(2) to restart the tracee, and the tracee when it is granted. The signal is
-- an int.
unfoldable pub restart_tracee : Bool → ℕ → Tracee → Option (RestartHow × ℕ) × Tracee
restart_tracee granted signal tracee =
    if not (tracee.as_ptracer.wait_pid == 0) || signal == minus 1 then (none, tracee) else (
      some (tracee.restart_how, signal),
      if granted then record tracee { restart_how = restart_unset; running = true } else tracee,
    )
