-- ===== src/Ptrace/Wait.antt =====
-- ptrace/wait.c: the emulated wait(2) of a ptracer. An int is in two's complement; `errno` of the
-- platform is its value when the memory of a tracee is accessed.
pub mod Events
pub mod Keeps
use abyss.Base.{
  ℕ, ◌+◌, ◌-◌, ◌/◌, ◌%◌, ◌^◌, Bool, true, false, not, ◌&&◌, ◌||◌, Option, none, some, List, [], ◌∷◌,
  ◌==◌, if◌then◌else◌, Result, ok, err,
}
use abyss.Tracee.State.{
  original, WaitsIn, doesnt_wait, waits_in_kernel, waits_in_proot, StructEvent, AsPtracee, Tracee,
}
use abyss.Tracee.Reg.{sysarg_1, sysarg_2, sysarg_3, sysarg_result, peek_reg, poke_reg}
use abyss.Tracee.Mem.{write_data}
use abyss.Syscall.Sysnum.{pr_void}
use abyss.Syscall.Current.{set_sysnum}
use abyss.Syscall.Chain.{restart_original_syscall}
use abyss.Syscall.Stages.{minus, word_of, errno_number, is_waiting}
use abyss.Event.Stops.{
  sigtrap, event_fork, event_vfork, event_clone, event_exec, event_vfork_done, event_exit,
  event_seccomp, event_seccomp2, wifstopped, stop_of, trap_of, syscall_trap,
}
use abyss.Tracees.Store.{
  null, World, Cmd, Kernel, Platform, pure, ◌>>=◌, ◌>>◌, load, modify, assert,
}
use abyss.Tracees.Find.{
  bit, any_pid, expected_wait_clone, get_ptracee, get_stopped_ptracee, has_ptracees,
}
use abyss.Tracees.Remove.{is_end, kill, stop_waiting, before_tracee_free, echild}
use abyss.Ptrace.Attach.{detach_from_ptracer, restart, push}

abbrev pub sigchld : ℕ
sigchld = 17

-- `WNOHANG`
abbrev pub is_nohang : ℕ → Bool
is_nohang options = options % 2 == 1

-- `PTRACE_O_TRACESYSGOOD`, and the option for the event of a number.
abbrev pub traces_sysgood : ℕ → Bool
traces_sysgood options = options % 2 == 1

abbrev pub traces : ℕ → ℕ → Bool
traces event options = bit event options

unfoldable pub set_waits_in : WaitsIn → Tracee → Tracee
set_waits_in waits t = record t { as_ptracer = record t.as_ptracer { waits_in = waits } }

unfoldable pub set_wait : (pid options : ℕ) → Tracee → Tracee
set_wait pid options t = record t {
  as_ptracer = record t.as_ptracer { wait_pid = pid; wait_options = options };
}

unfoldable pub set_event_proot : StructEvent → Tracee → Tracee
set_event_proot event t = record t { as_ptracee = record t.as_ptracee { event_proot = event } }

unfoldable pub set_event_ptracer : StructEvent → Tracee → Tracee
set_event_ptracer event t = record t { as_ptracee = record t.as_ptracee { event_ptracer = event } }

unfoldable pub start_tracing : Tracee → Tracee
start_tracing t = record t { as_ptracee = record t.as_ptracee { tracing_started = true } }

-- `event4.ptracer.pending = false`
unfoldable pub passed_on : Tracee → Tracee
unfolding set_event_ptracer
passed_on t = set_event_ptracer (record t.as_ptracee.event_ptracer { pending = false }) t

-- The four bytes of an int.
abbrev pub int_bytes : ℕ → List ℕ
int_bytes n = n % 256 ∷ (n / 2 ^ 8 % 256 ∷ (n / 2 ^ 16 % 256 ∷ (n / 2 ^ 24 % 256 ∷ [])))

-- `-errno` behind a write, 0 for none.
abbrev pub minus_errno : Result (Unit {0}) → ℕ
minus_errno (ok _) = 0
minus_errno (err e) = minus (errno_number e)

-- What the switch of `handle_ptracee_event` makes of an event: it is not expected by the ptracer; or
-- it is, as it is passed on, whether PRoot handles it first, whether it starts the tracing, and
-- whether the ptracee is kept stopped.
pub data Expected : Type 0 where
  unexpected : Expected
  expected : (event : ℕ) (handled_by_proot_first starts_tracing keep_stopped : Bool) → Expected

-- `CASE_FILTER_EVENT`
unfoldable pub case_filter_event : (number event : ℕ) → AsPtracee → Expected
case_filter_event number event ptracee =
    if traces number ptracee.options then expected event true true true else unexpected

-- `event &= ~(0x80 << 8)`, where this bit is set.
abbrev pub without_sysgood : ℕ → ℕ
without_sysgood event = event - 2 ^ 15

unfoldable pub filter_stop : (event : ℕ) → Tracee → Expected
unfolding case_filter_event
filter_stop event t =
    let ptracee = t.as_ptracee in
    let stop = stop_of event in
    if stop == syscall_trap
    then (if ptracee.ignore_syscalls || ptracee.ignore_loader_syscalls
        then unexpected
        else expected (if traces_sysgood ptracee.options then event else without_sysgood event)
            (not (t.status == 0)) false true)
    else if stop == trap_of event_fork
    then case_filter_event event_fork event ptracee
    else if stop == trap_of event_vfork
    then case_filter_event event_vfork event ptracee
    else if stop == trap_of event_vfork_done
    then case_filter_event event_vfork_done event ptracee
    else if stop == trap_of event_clone
    then case_filter_event event_clone event ptracee
    else if stop == trap_of event_exit
    then case_filter_event event_exit event ptracee
    else if stop == trap_of event_exec
    then case_filter_event event_exec event ptracee
    else if stop == trap_of event_seccomp2 || stop == trap_of event_seccomp
    then unexpected
    else expected event false true true

unfoldable pub filter_event : (event : ℕ) → Tracee → Expected
unfolding filter_stop
filter_event event t =
    if wifstopped event
    then filter_stop event t
    else if is_end event
    then expected event false true false
    else expected event false false true

module _ {Memory : Type 0} (platform : Platform Memory) where
  unfoldable pub translate_wait_enter : ℕ → Cmd Memory ℕ
  unfolding load modify set_waits_in get_ptracee peek_reg
  translate_wait_enter ptracer = do
    modify ptracer (set_waits_in waits_in_kernel)
    t ← load ptracer
    if t.as_ptracer.nb_ptracees == 0 then pure 0 else (do
      let pid = peek_reg t original sysarg_1 % 2 ^ 32
      λ w.
          (let ptracee = get_ptracee w ptracer pid false true (peek_reg t original sysarg_3) in
            if not (pid == any_pid)
              && (ptracee == null || not ((w.cell ptracee).as_ptracee.ptracer == ptracer))
            then pure 0 w
            else ((do
              modify ptracer (λ t'. set_sysnum platform.headers pr_void t')
              modify ptracer (set_waits_in waits_in_proot)
              pure 0)
                w)))

  -- `poke_int32(ptracer, address, value)`
  unfoldable pub poke_int32 : (ptracer address value : ℕ) → Cmd Memory ℕ
  unfolding write_data
  poke_int32 ptracer address value w =
      let written =
        write_data (platform.kernel.process (w.cell ptracer).pid) platform.errno address
          (int_bytes value) w.memory in
      some (minus_errno written.0, record w { memory = written.1 })

  -- A zombie that its ptracer has been notified of.
  unfoldable pub rest_in_peace : ℕ → Cmd Memory (Unit {0})
  unfolding detach_from_ptracer before_tracee_free
  rest_in_peace ptracee = do detach_from_ptracer ptracee; before_tracee_free platform ptracee

  -- A ptracee that is not emulated any further; zombies can rest in peace.
  unfoldable pub let_go : ℕ → Cmd Memory (Unit {0})
  unfolding load detach_from_ptracer before_tracee_free
  let_go ptracee = do
    detach_from_ptracer ptracee
    t ← load ptracee
    if t.as_ptracee.zombified then before_tracee_free platform ptracee else pure tt

  -- The end of a child of the ptracer, which the kernel reports a second time.
  unfoldable pub report_again : (ptracer ptracee : ℕ) → Cmd Memory ℕ
  unfolding modify restart_original_syscall let_go
  report_again ptracer ptracee = do modify ptracer restart_original_syscall; let_go ptracee; pure 0

  -- The ptracer is given the status and the pid.
  unfoldable pub report : (ptracee : ℕ) → Cmd Memory ℕ
  unfolding load modify passed_on rest_in_peace
  report ptracee = do
    modify ptracee passed_on
    t ← load ptracee
    if t.as_ptracee.zombified then rest_in_peace ptracee else pure tt
    pure t.pid

  unfoldable pub update_wait_status : (ptracer ptracee : ℕ) → Cmd Memory ℕ
  unfolding load report_again report poke_int32 peek_reg
  update_wait_status ptracer ptracee = do
    t ← load ptracee
    if t.as_ptracee.ptracer == t.parent && is_end t.as_ptracee.event_ptracer.value
        then report_again ptracer ptracee
        else (do
          r ← load ptracer
          let address = peek_reg r original sysarg_2
          if address == 0 then report ptracee else (do
            status ← poke_int32 ptracer address t.as_ptracee.event_ptracer.value
            if status == 0 then report ptracee else pure status))

  -- No ptracee has an event to pass on.
  unfoldable pub wait_for_ptracee : (ptracer pid options : ℕ) → Cmd Memory ℕ
  unfolding load get_ptracee modify set_wait
  wait_for_ptracee ptracer pid options = do
    t ← load ptracer
    if t.as_ptracer.nb_ptracees == 0
        then pure (minus echild)
        else if is_nohang options
        then (λ w. pure (if has_ptracees w ptracer pid options then 0 else minus echild) w)
        else (do modify ptracer (set_wait pid options); pure 0)

  -- The result, and `set_result`.
  unfoldable pub translate_wait_exit : ℕ → Cmd Memory (ℕ × Bool)
  unfolding load modify is_waiting set_waits_in peek_reg get_ptracee wait_for_ptracee
      update_wait_status
  translate_wait_exit ptracer = do
    t ← load ptracer
    assert (is_waiting t.as_ptracer.waits_in)
    modify ptracer (set_waits_in doesnt_wait)
    let pid = peek_reg t original sysarg_1 % 2 ^ 32
    let options = peek_reg t original sysarg_3
    λ w.
        (let ptracee = get_stopped_ptracee w ptracer pid true options in
          if ptracee == null
          then ((do status ← wait_for_ptracee ptracer pid options; pure (status, true)) w)
          else ((do status ← update_wait_status ptracer ptracee; pure (status, not (status == 0)))
              w))

  -- PRoot handles the event before the ptracer does.
  unfoldable pub handle_first : ℕ → Cmd Memory (Unit {0})
  unfolding load modify set_event_proot
  handle_first ptracee = do
    t ← load ptracee
    signal ← platform.handle_tracee_event t.as_ptracee.event_proot.value ptracee
    modify ptracee (λ t'. set_event_proot (record t'.as_ptracee.event_proot { value = signal }) t')
    assert (signal == 0)

  -- The waiting ptracer gets the event and is restarted.
  unfoldable pub wake : (ptracer ptracee : ℕ) (keep_stopped : Bool) → Cmd Memory Bool
  unfolding update_wait_status modify poke_reg push stop_waiting restart
  wake ptracer ptracee keep_stopped = do
    status ← update_wait_status ptracer ptracee
    if status == 0 then pure tt else modify ptracer (poke_reg sysarg_result (word_of status))
    push ptracer
    modify ptracer stop_waiting
    restarted ← restart platform.kernel 0 ptracer
    pure (restarted && keep_stopped)

  -- The ptracer is woken if it waits for this ptracee.
  unfoldable pub offer :
      (waiting : Tracee) (ptracer ptracee : ℕ) (keep_stopped : Bool) → Cmd Memory Bool
  unfolding load wake expected_wait_clone
  offer waiting ptracer ptracee keep_stopped = do
    t ← load ptracee
    if (waiting.as_ptracer.wait_pid == any_pid || waiting.as_ptracer.wait_pid == t.pid)
          && expected_wait_clone waiting.as_ptracer.wait_options t
        then wake ptracer ptracee keep_stopped
        else pure keep_stopped

  -- The ptracer is notified of an event that it expects.
  unfoldable pub notify : (ptracer ptracee event : ℕ) (keep_stopped : Bool) → Cmd Memory Bool
  unfolding modify set_event_ptracer load kill offer
  notify ptracer ptracee event keep_stopped = do
    modify ptracee (set_event_ptracer (record { value = event; pending = true }))
    r ← load ptracer
    kill platform r.pid sigchld
    offer r ptracer ptracee keep_stopped

  -- Whether the ptracee is to be kept stopped.
  unfoldable pub pass_on : (ptracer ptracee : ℕ) → Expected → Cmd Memory Bool
  unfolding modify start_tracing load handle_first notify
  pass_on ptracer ptracee unexpected = pure false
  pass_on ptracer ptracee (expected event first starts keep_stopped) = do
    if starts then modify ptracee start_tracing else pure tt
    t ← load ptracee
    if not t.as_ptracee.tracing_started then pure false else (do
      if first then handle_first ptracee else pure tt
      notify ptracer ptracee event keep_stopped)

  unfoldable pub handle_ptracee_event : (event ptracee : ℕ) → Cmd Memory Bool
  unfolding load modify set_event_proot filter_event pass_on
  handle_ptracee_event event ptracee = do
    t ← load ptracee
    assert (not (t.as_ptracee.ptracer == null))
    modify ptracee (set_event_proot (record { value = event; pending = true }))
    pass_on t.as_ptracee.ptracer ptracee (filter_event event t)
