-- ===== src/Event/Pending.antt =====
-- The flag `sysexit_pending` and the stages.
use mathlib.Core.Path.{subst}
use abyss.Base.{
  ℕ, Bool, true, false, inl, inr, Bool-cases, Option, none, some, List, arith, ◌≡◌, ◌≢◌, refl, sym,
  ◌∙◌, ◌==◌, if◌then◌else◌, ok,
}
use abyss.Tracee.State.{
  current, Bank, Tracee, RestartHow, restart_unset, ptrace_syscall, ptrace_cont, ptrace_singlestep,
  ptrace_singleblock, SeccompState, seccomp_active, seccomp_disabled, seccomp_disabling,
}
use abyss.Tracee.Reg.{Request, set_bank}
use abyss.Tracee.Process.{Process}
use abyss.Syscall.Sysnum.{Headers}
use abyss.Syscall.Stages.{Handlers, switch_enter, translate_syscall_enter}
use abyss.Syscall.Translate.{
  enter_stage, enter_requested, call_sysenter, is_cont, translate_syscall,
}
use abyss.Syscall.Translate.Every.{EveryPushed}
use abyss.Syscall.Translate.Alternates.{Stopped, translate_syscall-Stopped}
use abyss.Syscall.Translate.Outside.{Leave}
use abyss.Syscall.Translate.Untouched.{translate_syscall-keeps}
use abyss.Event.Handle.{
  Listeners, EventAnswers, Handled, quiet, is_disabling, default_restart, translate_stop,
  syscall_stop, clear_event, handle_stop, handle_tracee_event,
}

-- The components without what they do at the exit of a system call, of which the emulated ptrace(2)
-- disables seccomp for a tracee that asks to be traced.
abbrev pub without_exits : {Memory : Type 0} → Handlers Memory → Handlers Memory
without_exits handlers = record handlers {
  execve_exit = λ t m. (t, m);
  ptrace_exit = λ t m. (0, t, m);
  wait_exit = λ t m. ((0, false), t, m);
  on_sysexit = none;
}

abbrev pub pending_of : Tracee → Bool
pending_of tracee = tracee.sysexit_pending

abbrev pub seccomp_of : Tracee → SeccompState
seccomp_of tracee = tracee.seccomp

EveryPushed-all :
    {A : Type 0} (P : Tracee → Type 0) (o : Option (Tracee × A × List Request))
    → ((t : Tracee) → P t)
    → EveryPushed P o
EveryPushed-all P none h = tt
EveryPushed-all P (some (t, _, _)) h = h t

EveryPushed-map :
    {A : Type 0} (P Q : Tracee → Type 0) (o : Option (Tracee × A × List Request))
    → ((t : Tracee) → P t → Q t)
    → EveryPushed P o
    → EveryPushed Q o
EveryPushed-map P Q none h g = tt
EveryPushed-map P Q (some (t, _, _)) h g = h t g

EveryPushed-and :
    {A : Type 0} (P Q R : Tracee → Type 0) (o : Option (Tracee × A × List Request))
    → ((t : Tracee) → P t → Q t → R t)
    → EveryPushed P o
    → EveryPushed Q o
    → EveryPushed R o
EveryPushed-and P Q R none h p q = tt
EveryPushed-and P Q R (some (t, _, _)) h p q = h t p q

-- `default_restart` writes only how the tracee is restarted.
by_restart :
    {A : Type 0} (f : Tracee → A) (t : Tracee) (how : RestartHow) (u : Tracee)
    → f u ≡ f t
    → f (elim how [
      | restart_unset ↦ u
      | ptrace_syscall ↦ t
      | ptrace_cont ↦ t
      | ptrace_singlestep ↦ t
      | ptrace_singleblock ↦ t
    ])
      ≡ f t
by_restart f t restart_unset u e = e
by_restart f t ptrace_syscall u e = refl
by_restart f t ptrace_cont u e = refl
by_restart f t ptrace_singlestep u e = refl
by_restart f t ptrace_singleblock u e = refl

module _ {Memory : Type 0} (p : Process Memory) (headers : Headers) (handlers : Handlers Memory)
    (errno page_bits : ℕ) (listeners : Listeners Memory) (leave : Leave pending_of handlers)
    (entering : Leave seccomp_of (without_exits handlers)) where
  -- Once a stage is left, the flag says which one is next.
  Staged : ℕ → Tracee → Type 0
  Staged before after =
      (before ≢ 0 → (after.status ≡ 0) × (after.sysexit_pending ≡ false))
      × (before ≡ 0
          → is_cont after.restart_how ≡ false
          → (after.status ≢ 0) × (after.sysexit_pending ≡ true))

  -- The stage with what is left of the flag, and of seccomp at the entry.
  Both : ℕ → Bool → Tracee → Type 0
  Both before pending after =
      (Stopped p headers handlers errno page_bits before after)
      × ((after.sysexit_pending ≡ pending) × (before ≡ 0 → after.seccomp ≡ seccomp_active))

  -- The entry stage does nothing of the exits.
  enter_stage-without_exits :
      (t : Tracee) (m : Memory)
      → enter_stage p headers handlers errno page_bits t m
        ≡ enter_stage p headers (without_exits handlers) errno page_bits t m
  unfolding enter_stage enter_requested call_sysenter translate_syscall_enter switch_enter
  enter_stage-without_exits t m = refl

  translate_syscall-without_exits :
      (answers : EventAnswers) (bank : Bank) (t : Tracee) (m : Memory)
      → answers.registers.getregset ≡ ok bank
      → t.status == 0 ≡ true
      → translate_syscall p headers handlers errno page_bits answers.registers t m
        ≡ translate_syscall p headers (without_exits handlers) errno page_bits answers.registers t m
  unfolding translate_syscall
  translate_syscall-without_exits answers bank t m fetched enters =
      rw
        (
          fetched,
          enters,
          translate_syscall,
          enter_stage-without_exits (record t { regs = set_bank current bank t.regs }) m,
        )
        refl

  enters_active :
      (answers : EventAnswers) (bank : Bank) (t : Tracee) (m : Memory)
      → answers.registers.getregset ≡ ok bank
      → EveryPushed
          (λ after. t.status ≡ 0 → after.seccomp ≡ t.seccomp)
          (translate_syscall p headers handlers errno page_bits answers.registers t m)
  enters_active answers bank t m fetched = elim (Bool-cases (t.status == 0)) [
    | inl e ↦
        subst (EveryPushed (λ after. t.status ≡ 0 → after.seccomp ≡ t.seccomp))
          (sym (translate_syscall-without_exits answers bank t m fetched e))
          (EveryPushed-map (λ after. after.seccomp ≡ t.seccomp)
            (λ after. t.status ≡ 0 → after.seccomp ≡ t.seccomp) _ (λ after h zero_. h)
            (translate_syscall-keeps p headers (without_exits handlers) errno page_bits seccomp_of
              (λ t r c s st h x ch. refl) entering answers.registers t m))
    | inr e ↦
        EveryPushed-all (λ after. t.status ≡ 0 → after.seccomp ≡ t.seccomp)
          (translate_syscall p headers handlers errno page_bits answers.registers t m)
          (λ after zero_. absurd (ground arith))
  ]

  translate_syscall-Both :
      (answers : EventAnswers) (bank : Bank) (t : Tracee) (m : Memory)
      → answers.registers.getregset ≡ ok bank
      → t.seccomp ≡ seccomp_active
      → EveryPushed
          (Both t.status t.sysexit_pending)
          (translate_syscall p headers handlers errno page_bits answers.registers t m)
  unfolding Both
  translate_syscall-Both answers bank t m fetched active =
      EveryPushed-and (Stopped p headers handlers errno page_bits t.status)
        (λ after.
          (after.sysexit_pending ≡ t.sysexit_pending)
          × (t.status ≡ 0 → after.seccomp ≡ seccomp_active))
        (Both t.status t.sysexit_pending) _ (λ after h g. (h, g))
        (translate_syscall-Stopped p headers handlers errno page_bits answers.registers bank t m
          fetched)
        (EveryPushed-and (λ after. after.sysexit_pending ≡ t.sysexit_pending)
          (λ after. t.status ≡ 0 → after.seccomp ≡ t.seccomp) _ _
          (λ after h g. (h, λ zero_. g zero_ ∙ active))
          (translate_syscall-keeps p headers handlers errno page_bits pending_of
            (λ t r c s st h x ch. refl) leave answers.registers t m)
          (enters_active answers bank t m fetched))

  Both-Staged :
      (before : ℕ) (pending : Bool) (after : Tracee)
      → pending ≡ (before == 0)
      → Both before pending after
      → Staged before after
  unfolding Both Staged
  Both-Staged before pending after says (stages, (kept, active)) = (
    λ ne. (stages.0 ne, kept ∙ says ∙ ground arith),
    λ e no_cont. ((stages.1 e).1 no_cont, kept ∙ says ∙ rw e refl),
  )

  -- Seccomp is disabled at an exit only.
  disabled-Staged :
      (before : ℕ) (pending : Bool) (after : Tracee)
      → pending ≡ (before == 0)
      → is_disabling after.seccomp ≡ true
      → Both before pending after
      → Staged before (record after { restart_how = ptrace_syscall; seccomp = seccomp_disabled })
  unfolding Both Staged is_disabling
  disabled-Staged before pending after says disabling (stages, (kept, active)) = (
    λ ne. (stages.0 ne, kept ∙ says ∙ ground arith),
    λ e no_cont. absurd (ground (arith, active e)),
  )

  stop-Staged :
      (before : ℕ) (pending : Bool) (o : Option (Tracee × Memory × List Request))
      → pending ≡ (before == 0)
      → EveryPushed (Both before pending) o
      → EveryPushed (Staged before) (elim o as (λ _. Option (Tracee × Memory × List Request)) [
        | none ↦ none
        | some (after, m', requests) ↦ some (
          if is_disabling after.seccomp
              then record after { restart_how = ptrace_syscall; seccomp = seccomp_disabled }
              else after,
          m',
          requests,
        )
      ])
  stop-Staged before pending none says h = tt
  stop-Staged before pending (some (after, m', requests)) says h =
      elim (Bool-cases (is_disabling after.seccomp)) [
        | inl e ↦ rw e (disabled-Staged before pending after says e h)
        | inr e ↦ rw e (Both-Staged before pending after says h)
      ]

  translate_stop-Staged :
      (answers : EventAnswers) (bank : Bank) (t : Tracee) (m : Memory)
      → answers.registers.getregset ≡ ok bank
      → t.seccomp ≡ seccomp_active
      → t.sysexit_pending ≡ (t.status == 0)
      → EveryPushed
          (Staged t.status)
          (translate_stop p headers handlers errno page_bits listeners answers t m)
  unfolding translate_stop
  translate_stop-Staged answers bank t m fetched active says =
      stop-Staged t.status t.sysexit_pending _ says
        (translate_syscall-Both answers bank t m fetched active)

  -- The case ENABLED, at the entry and at the exit.
  active-Staged :
      (answers : EventAnswers) (bank : Bank) (t : Tracee) (m : Memory)
      → answers.registers.getregset ≡ ok bank
      → t.seccomp ≡ seccomp_active
      → EveryPushed (Staged t.status) (
          translate_stop p headers handlers errno page_bits listeners answers
            (if t.status == 0
              then record t { restart_how = ptrace_syscall; sysexit_pending = true }
              else record t { restart_how = ptrace_cont; sysexit_pending = false })
            m)
  active-Staged answers bank t m fetched active = elim (Bool-cases (t.status == 0)) [
    | inl e ↦ rw e (
        translate_stop-Staged answers bank
          (record t { restart_how = ptrace_syscall; sysexit_pending = true }) m fetched active
          (sym e))
    | inr e ↦ rw e (
        translate_stop-Staged answers bank
          (record t { restart_how = ptrace_cont; sysexit_pending = false }) m fetched active
          (sym e))
  ]

  -- `syscall_stop` under seccomp, on the state of seccomp.
  by_seccomp :
      (answers : EventAnswers) (bank : Bank) (t : Tracee) (m : Memory) (s : SeccompState)
      (x y z : Option (Tracee × Memory × List Request))
      → s ≡ seccomp_active
      → EveryPushed (Staged t.status) x
      → EveryPushed
          (Staged t.status)
          (elim s [ seccomp_active ↦ x | seccomp_disabled ↦ y | seccomp_disabling ↦ z ])
  by_seccomp answers bank t m s x y z is h = rw is h

  syscall_stop-Staged :
      (answers : EventAnswers) (bank : Bank) (t : Tracee) (m : Memory)
      → answers.registers.getregset ≡ ok bank
      → t.seccomp ≡ seccomp_active
      → EveryPushed
          (Staged t.status)
          (syscall_stop p headers handlers errno page_bits listeners answers t m)
  unfolding syscall_stop
  syscall_stop-Staged answers bank t m fetched active =
      by_seccomp answers bank t m t.seccomp _ _ _ active
        (active-Staged answers bank t m fetched active)

  -- What holds of an event that was handled.
  EveryHandled : (Handled Memory → Type 0) → Option (Handled Memory) → Type 0
  EveryHandled P none = Unit
  EveryHandled P (some handled) = P handled

  default_restart-status : (t : Tracee) → (default_restart t).status ≡ t.status
  unfolding default_restart
  default_restart-status t = by_restart (λ u. u.status) t t.restart_how _ refl

  default_restart-seccomp : (t : Tracee) → (default_restart t).seccomp ≡ t.seccomp
  unfolding default_restart
  default_restart-seccomp t = by_restart (λ u. u.seccomp) t t.restart_how _ refl

  abbrev Delivered : ℕ → Handled Memory → Type 0
  Delivered before handled = (handled.signal ≡ 0) × Staged before handled.tracee

  quiet-Delivered :
      (before : ℕ) (o : Option (Tracee × Memory × List Request))
      → EveryPushed (Staged before) o
      → EveryHandled (Delivered before) (
          clear_event p headers handlers errno page_bits listeners
            (quiet p headers handlers errno page_bits listeners o))
  unfolding EveryHandled Staged
  quiet-Delivered before none h = tt
  quiet-Delivered before (some (after, m, requests)) h = (refl, h)

  handled-Delivered :
      (answers : EventAnswers) (bank : Bank) (t : Tracee) (m : Memory)
      → answers.registers.getregset ≡ ok bank
      → t.seccomp ≡ seccomp_active
      → EveryHandled
          (Delivered t.status)
          (handle_tracee_event p headers handlers errno page_bits listeners answers 0x857f t m)
  unfolding handle_tracee_event handle_stop
  handled-Delivered answers bank t m fetched active =
      subst
        (λ s.
          EveryHandled (Delivered s)
            (handle_tracee_event p headers handlers errno page_bits listeners answers 0x857f t m))
        (default_restart-status t)
        (quiet-Delivered (default_restart t).status _ (
          syscall_stop-Staged answers bank (default_restart t) m fetched
            (default_restart-seccomp t ∙ active)))

  -- At a stop at a system call (SIGTRAP | 0x80) of a tracee for which seccomp is enabled, when the
  -- registers can be read, the components and callbacks leave `sysexit_pending` alone and, at the
  -- entry of a call, the state of seccomp (at the exit they may disable it, as PTRACE_TRACEME
  -- does): no signal is delivered; behind the exit of the call the tracee expects an entry and
  -- `sysexit_pending` is not set; and behind the entry, where the tracee is not restarted by
  -- PTRACE_CONT, it expects the exit and `sysexit_pending` is set, so that no later event makes it
  -- miss the exit.
  pub handle_tracee_event-Staged :
      (answers : EventAnswers) (bank : Bank) (t : Tracee) (m : Memory) (handled : Handled Memory)
      → answers.registers.getregset ≡ ok bank
      → t.seccomp ≡ seccomp_active
      → handle_tracee_event p headers handlers errno page_bits listeners answers 0x857f t m
        ≡ some handled
      → (handled.signal ≡ 0)
        × (t.status ≢ 0 → (handled.tracee.status ≡ 0) × (handled.tracee.sysexit_pending ≡ false))
        × (t.status ≡ 0
            → is_cont handled.tracee.restart_how ≡ false
            → (handled.tracee.status ≢ 0) × (handled.tracee.sysexit_pending ≡ true))
  unfolding EveryHandled Staged
  handle_tracee_event-Staged answers bank t m handled fetched active is =
      let (quiet_, staged) =
        subst (EveryHandled (Delivered t.status)) is
          (handled-Delivered answers bank t m fetched active) in
      (quiet_, staged.0, staged.1)
