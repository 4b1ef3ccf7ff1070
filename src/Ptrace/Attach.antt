-- ===== src/Ptrace/Attach.antt =====
-- `attach_to_ptracer` and `detach_from_ptracer` of ptrace/ptrace.c, and the restart of a tracee.
use abyss.Base.{ℕ, ◌+◌, ◌-◌, ◌%◌, ◌^◌, Bool, false, Option, none, some, ltb, ok}
use abyss.Tracee.State.{Tracee, RestartHow, no_ptracer}
use abyss.Tracee.Reg.{push_regs}
use abyss.Event.Handle.{restart_tracee}
use abyss.Tracees.Store.{
  null, restart_call, registers_call, Cmd, Kernel, pure, ◌>>=◌, ◌>>◌, load, modify, assert, log,
  ask,
}

unfoldable pub set_ptracer : ℕ → Tracee → Tracee
set_ptracer ptracer t = record t { as_ptracee = record t.as_ptracee { ptracer = ptracer } }

-- `bzero(&PTRACEE, sizeof(PTRACEE))`
unfoldable pub clear_ptracee : Tracee → Tracee
clear_ptracee t = record t { as_ptracee = no_ptracer }

unfoldable pub set_nb_ptracees : ℕ → Tracee → Tracee
set_nb_ptracees n t = record t { as_ptracer = record t.as_ptracer { nb_ptracees = n } }

unfoldable pub one_more : Tracee → Tracee
unfolding set_nb_ptracees
one_more t = set_nb_ptracees ((t.as_ptracer.nb_ptracees + 1) % 2 ^ 64) t

unfoldable pub one_less : Tracee → Tracee
unfolding set_nb_ptracees
one_less t = set_nb_ptracees (t.as_ptracer.nb_ptracees - 1) t

-- What `restart_tracee` answers.
abbrev pub is_restarted : Option (RestartHow × ℕ) → Bool → Bool
is_restarted none granted = false
is_restarted (some _) granted = granted

module _ {Memory : Type 0} where
  unfoldable pub attach_to_ptracer : (ptracee ptracer : ℕ) → Cmd Memory (Unit {0})
  unfolding modify set_ptracer clear_ptracee one_more
  attach_to_ptracer ptracee ptracer = do
    modify ptracee (λ t. set_ptracer ptracer (clear_ptracee t))
    modify ptracer one_more

  unfoldable pub detach_from_ptracer : (ptracee : ℕ) → Cmd Memory (Unit {0})
  unfolding load modify set_ptracer one_less
  detach_from_ptracer ptracee = do
    t ← load ptracee
    modify ptracee (set_ptracer null)
    r ← load t.as_ptracee.ptracer
    assert (ltb 0 r.as_ptracer.nb_ptracees)
    modify t.as_ptracee.ptracer one_less

  abbrev pub log_restart : ℕ → Option (RestartHow × ℕ) → Cmd Memory (Unit {0})
  log_restart pid none = pure tt
  log_restart pid (some (how, signal)) = log (restart_call pid how signal)

  -- `restart_tracee` of tracee/event.c on a structure.
  unfoldable pub restart : Kernel Memory → (signal a : ℕ) → Cmd Memory Bool
  unfolding load modify log restart_tracee
  restart kernel signal a = do
    t ← load a
    granted ← ask (kernel.restart_granted t.pid t.restart_how signal)
    log_restart t.pid (restart_tracee granted signal t).0
    modify a (λ t'. (restart_tracee granted signal t').1)
    pure (is_restarted (restart_tracee granted signal t).0 granted)

  -- `(void) push_regs(ptracer)` on a structure.
  unfoldable pub push : ℕ → Cmd Memory (Unit {0})
  unfolding load modify log push_regs
  push a = do
    t ← load a
    log (registers_call t.pid (push_regs (ok tt) t).2)
    modify a (λ t'. (push_regs (ok tt) t').1)
