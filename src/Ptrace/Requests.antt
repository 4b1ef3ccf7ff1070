-- ===== src/Ptrace/Requests.antt =====
-- `translate_ptrace_enter` and `translate_ptrace_exit` of ptrace/ptrace.c, as they are on arm64. A
-- request, a pid, an address and a datum are words; the pid_t that a word is cut to is an int.
pub mod Keeps
pub mod Links
pub mod Refused
pub mod Quiet
pub mod QuietBlocks
use abyss.Base.{
  ℕ, ◌+◌, ◌-◌, ◌/◌, ◌%◌, ◌^◌, Bool, true, false, not, ◌&&◌, ◌||◌, Option, none, some, ◌==◌,
  if◌then◌else◌, Result,
}
use abyss.Tracee.State.{
  original, RestartHow, ptrace_singlestep, ptrace_singleblock, SeccompState, seccomp_disabling,
  sigstop_ignored, waits_in_kernel, waits_in_proot, WaitsIn, AsPtracee, Tracee,
}
use abyss.Tracee.Reg.{sysarg_1, sysarg_2, sysarg_3, sysarg_4, peek_reg}
use abyss.Syscall.Sysnum.{pr_void}
use abyss.Syscall.Current.{set_sysnum}
use abyss.Syscall.Stages.{minus}
use abyss.Event.Stops.{sigstop_number}
use abyss.Event.Handle.{is_active}
use abyss.Tracees.Store.{
  null, World, Cmd, Kernel, Platform, Reply, reply, failure, pure, ◌>>=◌, ◌>>◌, load, modify, ask,
}
use abyss.Tracees.Find.{bit, get_ptracee, get_stopped_ptracee, get_tracee}
use abyss.Tracees.Remove.{kill}
use abyss.Ptrace.Request
use abyss.Ptrace.Attach.{attach_to_ptracer, detach_from_ptracer, restart}
use abyss.Ptrace.Wait.{set_waits_in}
use abyss.Ptrace.Words.{
  request_peekdata, request_peekuser, request_pokedata, request_pokeuser, ptrace, is_32on64_mode,
  give_word, peek_request, peekuser_request, plain_request, pokeuser_request, poke_request,
}
use abyss.Ptrace.Blocks.{
  siginfo_size, request_getregset, request_setregset, enotsup, get_request, set_request,
  getregs_request, setregs_request, getfpregs_request, setfpregs_request, getregset_request,
  setregset_request,
}

abbrev pub eperm : ℕ
eperm = 1

abbrev pub esrch : ℕ
esrch = 3

abbrev pub errno_einval : ℕ
errno_einval = 22

-- `__WALL`
abbrev pub wall : ℕ
wall = 2 ^ 30

-- `PTRACE_O_TRACESECCOMP`
abbrev pub traces_seccomp : ℕ → Bool
traces_seccomp options = bit 7 options

unfoldable pub set_ignore_syscalls : Bool → Tracee → Tracee
set_ignore_syscalls ignore t = record t {
  as_ptracee = record t.as_ptracee { ignore_syscalls = ignore };
}

unfoldable pub set_options : ℕ → Tracee → Tracee
set_options options t = record t { as_ptracee = record t.as_ptracee { options = options } }

unfoldable pub set_restart_how : RestartHow → Tracee → Tracee
set_restart_how how t = record t { restart_how = how }

-- Seccomp is disabled for a tracee that is traced.
unfoldable pub disable_seccomp : Tracee → Tracee
unfolding is_active
disable_seccomp t = if is_active t.seccomp then record t { seccomp = seccomp_disabling } else t

unfoldable pub is_in_kernel : WaitsIn → Bool
is_in_kernel waits_in_kernel = true
is_in_kernel _ = false

-- The ptracer is woken in the kernel.
unfoldable pub interrupt : Tracee → Tracee
unfolding set_waits_in
interrupt t = set_waits_in waits_in_proot (record t { sigstop = sigstop_ignored })

-- What ptrace(2) returns when nothing is read.
abbrev pub plain_status : Reply ℕ → ℕ
plain_status (reply _) = 0
plain_status (failure _) = minus 1

abbrev pub or_else : {A : Type 0} → Option A → A → A
or_else (some a) other = a
or_else none other = other

module _ {Memory : Type 0} (platform : Platform Memory) where
  unfoldable pub translate_ptrace_enter : ℕ → Cmd Memory ℕ
  unfolding modify
  translate_ptrace_enter tracee = do
    modify tracee (λ t. set_sysnum platform.headers pr_void t)
    pure 0

  -- PTRACE_TRACEME
  unfoldable pub traceme_request : (ptracee ptracer : ℕ) → Cmd Memory ℕ
  unfolding load attach_to_ptracer modify kill interrupt disable_seccomp is_in_kernel
  traceme_request ptracee ptracer = do
    t ← load ptracee
    if not (t.as_ptracee.ptracer == null) || ptracee == ptracer then pure (minus eperm) else (do
      attach_to_ptracer ptracee ptracer
      r ← load ptracer
      if is_in_kernel r.as_ptracer.waits_in
          then (do
            woken ← kill platform r.pid sigstop_number
            if woken then modify ptracer interrupt else pure tt)
          else pure tt
      modify ptracee disable_seccomp
      pure 0)

  -- PTRACE_ATTACH, with what `get_tracee` answers.
  unfoldable pub attach_found : (ptracer pid ptracee : ℕ) → Cmd Memory ℕ
  unfolding load attach_to_ptracer kill
  attach_found ptracer pid ptracee = if ptracee == null then pure (minus esrch) else (do
    t ← load ptracee
    if not (t.as_ptracee.ptracer == null) || ptracee == ptracer
        then pure (minus eperm)
        else (do attach_to_ptracer ptracee ptracer; kill platform pid sigstop_number; pure 0))

  unfoldable pub attach_request : (ptracer pid : ℕ) → Cmd Memory ℕ
  unfolding get_tracee attach_found
  attach_request ptracer pid = do
    ptracee ← get_tracee platform.kernel ptracer pid false
    attach_found ptracer pid ptracee

  -- The restart of the ptracee. The signal of the ptracer overrides that of PRoot unless it is -1.
  unfoldable pub restart_ptracee : (ptracee forced_signal status : ℕ) → Cmd Memory ℕ
  unfolding load restart
  restart_ptracee ptracee forced_signal status = do
    t ← load ptracee
    signal ←
        if t.as_ptracee.event_proot.pending
        then platform.handle_tracee_event t.as_ptracee.event_proot.value ptracee
        else pure t.as_ptracee.event_proot.value
    restart platform.kernel (if forced_signal == minus 1 then signal else forced_signal) ptracee
    pure status

  -- The cases that restart the ptracee; `none` for any other request.
  unfoldable pub restarting_request : (ptracee request pid data_signal : ℕ) → Option (Cmd Memory ℕ)
  unfolding modify set_ignore_syscalls set_restart_how detach_from_ptracer plain_request
      restart_ptracee
  restarting_request ptracee request pid signal =
      if request == Request.syscall
      then some (do modify ptracee (set_ignore_syscalls false); restart_ptracee ptracee signal 0)
      else if request == Request.cont
      then some (do modify ptracee (set_ignore_syscalls true); restart_ptracee ptracee signal 0)
      else if request == Request.singlestep
      then some
          (do modify ptracee (set_restart_how ptrace_singlestep); restart_ptracee ptracee signal 0)
      else if request == Request.singleblock
      then some
          (do modify ptracee (set_restart_how ptrace_singleblock); restart_ptracee ptracee signal 0)
      else if request == Request.detach
      then some (do detach_from_ptracer ptracee; restart_ptracee ptracee (minus 1) 0)
      else if request == Request.kill
      then some (do
        answer ← ptrace platform Request.kill pid 0 0
        restart_ptracee ptracee (minus 1) (plain_status answer))
      else none

  -- PTRACE_SETOPTIONS
  unfoldable pub setoptions_request : (ptracee options : ℕ) → Cmd Memory ℕ
  unfolding modify set_options
  setoptions_request ptracee options =
      if traces_seccomp options
      then pure (minus errno_einval)
      else (do modify ptracee (set_options options); pure 0)

  -- PTRACE_GETEVENTMSG
  unfoldable pub geteventmsg_request : (ptracer pid argument : ℕ) → Cmd Memory ℕ
  unfolding give_word
  geteventmsg_request ptracer pid argument = do
    answer ← ask (platform.kernel.geteventmsg pid)
    give_word platform ptracer argument answer

  -- The cases that leave the ptracee stopped.
  unfoldable pub other_request : (ptracer ptracee request pid address argument : ℕ) → Cmd Memory ℕ
  unfolding setoptions_request geteventmsg_request peek_request peekuser_request plain_request
      pokeuser_request poke_request get_request set_request getregs_request setregs_request
      getfpregs_request setfpregs_request getregset_request setregset_request
  other_request ptracer ptracee request pid address argument =
      if request == Request.setoptions
      then setoptions_request ptracee argument
      else if request == Request.geteventmsg
      then geteventmsg_request ptracer pid argument
      else if request == request_peekuser
      then peekuser_request platform ptracer pid address argument
      else if request == Request.peektext || request == request_peekdata
      then peek_request platform ptracer request pid address argument
      else if request == request_pokeuser
      then pokeuser_request platform ptracer pid address argument
      else if request == Request.poketext || request == request_pokedata
      then poke_request platform ptracer ptracee request pid address argument
      else if request == Request.getsiginfo
      then get_request platform ptracer request pid argument siginfo_size
      else if request == Request.setsiginfo
      then set_request platform ptracer request pid argument siginfo_size
      else if request == Request.getregs
      then getregs_request platform ptracer request pid argument
      else if request == Request.setregs
      then setregs_request platform ptracer request pid argument
      else if request == Request.getfpregs
      then getfpregs_request platform ptracer request pid argument
      else if request == Request.setfpregs
      then setfpregs_request platform ptracer request pid argument
      else if request == request_getregset
      then getregset_request platform ptracer pid address argument
      else if request == request_setregset
      then setregset_request platform ptracer pid address argument
      else if request == Request.set_syscall
      then plain_request platform request pid address argument
      else pure (minus enotsup)

  -- A request of a ptracer to a ptracee that is stopped for it. The pid is a word.
  unfoldable pub stopped_request : (ptracer request pid address argument : ℕ) → Cmd Memory ℕ
  unfolding get_ptracee load restarting_request other_request
  stopped_request ptracer request pid address argument w =
      let ptracee = get_stopped_ptracee w ptracer (pid % 2 ^ 32) false wall in
      if ptracee == null
      then some (minus esrch, w)
      else ((do
        t ← load ptracee
        if t.as_ptracee.zombified || not (t.as_ptracee.ptracer == ptracer) || pid == 2 ^ 64 - 1
            then pure (minus esrch)
            else (or_else (restarting_request ptracee request (pid % 2 ^ 32) (argument % 2 ^ 32))
                (other_request ptracer ptracee request (pid % 2 ^ 32) address argument)))
          w)

  -- The signedness of the pid -1 of a 32-bit tracee.
  abbrev pub signed_pid : Tracee → ℕ → ℕ
  signed_pid t pid = if is_32on64_mode t && pid == 2 ^ 32 - 1 then 2 ^ 64 - 1 else pid

  unfoldable pub translate_ptrace_exit : ℕ → Cmd Memory ℕ
  unfolding load traceme_request attach_request stopped_request peek_reg
  translate_ptrace_exit tracee = do
    t ← load tracee
    let request = peek_reg t original sysarg_1
    let pid = signed_pid t (peek_reg t original sysarg_2)
    if request == Request.traceme
        then traceme_request tracee t.parent
        else if request == Request.attach
        then attach_request tracee (pid % 2 ^ 32)
        else stopped_request tracee request pid (peek_reg t original sysarg_3)
            (peek_reg t original sysarg_4)
