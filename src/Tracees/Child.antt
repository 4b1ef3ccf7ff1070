-- ===== src/Tracees/Child.antt =====
-- `new_child` of tracee/tracee.c, with the fields of `struct tracee` that are modelled.
pub mod Adopts
pub mod Keeps
use Prim.Native.Nat.{bit_or, bit_and}
use abyss.Base.{
  ℕ, ◌+◌, ◌*◌, ◌/◌, ◌%◌, ◌^◌, Bool, true, false, not, ◌&&◌, ◌||◌, Option, none, some, ◌==◌,
  if◌then◌else◌, Result, ok, err,
}
use abyss.Tracee.State.{
  current, Bank, RestartHow, SeccompState, Sigstop, sigstop_ignored, sigstop_allowed,
  sigstop_pending, StructEvent, no_event, AsPtracee, Tracee,
}
use abyss.Tracee.Reg.{sysarg_1, peek_reg, fetch_regs}
use abyss.Syscall.Current.{get_sysnum}
use abyss.Syscall.Stages.{minus}
use abyss.Event.Stops.{sigstop_number, clone_vfork}
use abyss.Tracees.Store.{
  null, World, Cmd, Kernel, Platform, Reply, reply, failure, pure, ◌>>=◌, ◌>>◌, load, modify,
  assert, ask, on_reply,
}
use abyss.Tracees.Find.{bit, get_tracee}
use abyss.Ptrace.Attach.{attach_to_ptracer, restart}
use abyss.Ptrace.Wait.{sigchld, set_event_proot, handle_ptracee_event}

-- The place in sysnums.list.
abbrev pub pr_clone : ℕ
pr_clone = 40

-- CLONE_PTRACE, CLONE_VFORK, CLONE_PARENT and CLONE_THREAD.
abbrev pub clone_ptrace : ℕ → Bool
clone_ptrace flags = bit 13 flags

abbrev pub has_clone_vfork : ℕ → Bool
has_clone_vfork flags = bit 14 flags

abbrev pub clone_parent : ℕ → Bool
clone_parent flags = bit 15 flags

abbrev pub clone_thread : ℕ → Bool
clone_thread flags = bit 16 flags

-- PTRACE_O_TRACEFORK, PTRACE_O_TRACEVFORK and PTRACE_O_TRACECLONE.
abbrev pub option_fork : ℕ
option_fork = 2

abbrev pub option_vfork : ℕ
option_vfork = 4

abbrev pub option_clone : ℕ
option_clone = 8

-- All but PTRACE_O_TRACESECCOMP.
abbrev pub inherited_options : ℕ
inherited_options = 0x7f

abbrev pub enomem_number : ℕ
enomem_number = 12

-- The option under which a child is traced.
unfoldable pub ptrace_options : ℕ → ℕ
ptrace_options clone_flags =
    if clone_flags == 0
    then option_fork
    else if clone_flags % 2 ^ 8 == sigchld
    then option_fork
    else if has_clone_vfork clone_flags
    then option_vfork
    else option_clone

-- `__W_STOPCODE(sig)`
abbrev pub w_stopcode : ℕ → ℕ
w_stopcode signal = signal * 2 ^ 8 + 0x7f

-- What a child has of its parent.
unfoldable pub inherit : Tracee → Tracee → Tracee
inherit parent child = record child {
  seccomp = parent.seccomp;
  sysexit_pending = parent.sysexit_pending;
  restart_how = parent.restart_how;
  is_aarch32 = parent.is_aarch32;
}

unfoldable pub set_parent : (parent : ℕ) (parent_pid : Option ℕ) (clone : Bool) → Tracee → Tracee
set_parent parent parent_pid clone child = record child {
  parent = parent;
  parent_pid = parent_pid;
  clone = clone;
}

-- The parent of a child.
unfoldable pub parented : (parent : ℕ) → Tracee → (clone_flags : ℕ) → Tracee → Tracee
unfolding set_parent
parented parent p clone_flags =
    if clone_parent clone_flags
    then set_parent p.parent p.parent_pid (clone_thread clone_flags)
    else set_parent parent (some p.pid) (clone_thread clone_flags)

-- `options |= ...`
unfoldable pub add_options : ℕ → Tracee → Tracee
add_options options child = record child {
  as_ptracee = record child.as_ptracee { options = bit_or child.as_ptracee.options options };
}

unfoldable pub set_sigstop : Sigstop → Tracee → Tracee
set_sigstop sigstop t = record t { sigstop = sigstop }

unfoldable pub is_pending : Sigstop → Bool
is_pending sigstop_pending = true
is_pending _ = false

abbrev pub fetched_or : Result Tracee → Tracee → Tracee
fetched_or (ok fetched) t = fetched
fetched_or (err _) t = t

unfoldable pub refetch : Result Bank → Tracee → Tracee
unfolding fetch_regs
refetch answer t = fetched_or (fetch_regs answer t) t

abbrev pub is_ok : Result Bank → Bool
is_ok (ok _) = true
is_ok (err _) = false

-- `get_sysnum`, where the table is read inside.
abbrev pub on_sysnum : {A : Type 0} → Option ℕ → A → (ℕ → A) → A
on_sysnum none outside next = outside
on_sysnum (some sysnum) outside next = next sysnum

module _ {Memory : Type 0} (platform : Platform Memory) where
  -- `fetch_regs`, and whether it succeeds.
  unfoldable pub fetch : ℕ → Cmd Memory Bool
  unfolding load modify refetch
  fetch a = do
    t ← load a
    answer ← ask (platform.kernel.getregset t.pid)
    modify a (refetch answer)
    pure (is_ok answer)

  -- The flags of a clone(2) are in its first argument.
  unfoldable pub actual_flags : (parent clone_flags : ℕ) → Cmd Memory ℕ
  unfolding load fetch peek_reg
  actual_flags parent clone_flags = do
    fetched ← fetch parent
    if not fetched then pure clone_flags else (do
      t ← load parent
      on_sysnum (get_sysnum platform.headers current t) (λ w. none)
          (λ sysnum.
            pure (if sysnum == pr_clone then peek_reg t current sysarg_1 else clone_flags)))

  -- The ptracer of the parent traces the child as well.
  unfoldable pub inherit_ptracer : (child : ℕ) → Tracee → ℕ → Cmd Memory (Unit {0})
  unfolding attach_to_ptracer modify add_options ptrace_options
  inherit_ptracer child p clone_flags =
      let ptracer = p.as_ptracee.ptracer in
      if not (ptracer == null)
        && (not (bit_and (ptrace_options clone_flags) p.as_ptracee.options == 0)
            || clone_ptrace clone_flags)
      then (do
        attach_to_ptracer child ptracer
        modify child (add_options (bit_and p.as_ptracee.options inherited_options)))
      else pure tt

  -- A child that has been stopped until its parent is known.
  unfoldable pub notify_ptracer : ℕ → Tracee → Cmd Memory Bool
  unfolding modify handle_ptracee_event set_event_proot
  notify_ptracer child c = if c.as_ptracee.ptracer == null then pure false else (do
    assert (not c.as_ptracee.tracing_started)
    keep ← handle_ptracee_event platform (w_stopcode sigstop_number) child
    modify child (set_event_proot no_event)
    pure keep)

  unfoldable pub restart_child : ℕ → Cmd Memory (Unit {0})
  unfolding load modify set_sigstop notify_ptracer restart is_pending
  restart_child child = do
    c ← load child
    if not (is_pending c.sigstop) then pure tt else (do
      modify child (set_sigstop sigstop_allowed)
      keep_stopped ← notify_ptracer child c
      if keep_stopped then pure tt else (do restart platform.kernel 0 child; pure tt))

  -- What the child has of its parent is set.
  unfoldable pub settle : (parent child clone_flags : ℕ) → Tracee → Cmd Memory (Unit {0})
  unfolding modify inherit parented
  settle parent child clone_flags p = do
    modify child (inherit p)
    modify child (parented parent p clone_flags)

  unfoldable pub adopt : (parent child clone_flags : ℕ) → Cmd Memory (Unit {0})
  unfolding load settle inherit_ptracer restart_child
  adopt parent child clone_flags = do
    c ← load child
    assert (c.parent == null && c.as_ptracee.ptracer == null)
    p ← load parent
    settle parent child clone_flags p
    inherit_ptracer child p clone_flags
    restart_child child

  -- The child with a pid, once its structure is there.
  unfoldable pub adopt_found : (parent clone_flags child : ℕ) → Cmd Memory ℕ
  unfolding adopt
  adopt_found parent clone_flags child =
      if child == null
      then pure (minus enomem_number)
      else (do adopt parent child clone_flags; pure 0)

  unfoldable pub adopt_pid : (parent clone_flags pid : ℕ) → Cmd Memory ℕ
  unfolding get_tracee adopt_found
  adopt_pid parent clone_flags pid = if pid == 0 then pure 0 else (do
    child ← get_tracee platform.kernel parent (pid % 2 ^ 32) true
    adopt_found parent clone_flags child)

  unfoldable pub new_child : (parent clone_flags : ℕ) → Cmd Memory ℕ
  unfolding actual_flags load adopt_pid
  new_child parent clone_flags = do
    flags ← actual_flags parent clone_flags
    p ← load parent
    message ← ask (platform.kernel.geteventmsg p.pid)
    on_reply message (λ _. pure (minus 1)) (λ pid. adopt_pid parent flags pid)
