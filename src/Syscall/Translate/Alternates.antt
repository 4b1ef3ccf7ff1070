-- ===== src/Syscall/Translate/Alternates.antt =====
-- The stages follow each other.
use mathlib.Core.Path.{subst}
use abyss.Base.{
  ℕ, true, false, inl, inr, Bool-cases, Option, none, some, List, [], ◌∷◌, arith, ◌≡◌, ◌≢◌, refl,
  sym, ap, ◌∙◌, ◌==◌, if◌then◌else◌, Result, ok,
}
use abyss.Tracee.State.{
  ChainedSyscall, current, original, Bank, Tracee, Syscalls, no_syscalls, freed, queued,
  ptrace_syscall,
}
use abyss.Tracee.Reg.{
  sysarg_result, stack_pointer, instr_pointer, Request, peek_reg, poke_reg, push_regs, set_bank,
}
use abyss.Tracee.Reg.Keeps.{part-poke_reg, part-poke_all, part-push_regs, if-cases, if-map}
use abyss.Tracee.Process.{Process}
use abyss.Syscall.Sysnum.{Headers}
use abyss.Syscall.Chain.{chain_next_syscall, forge, end_chain}
use abyss.Syscall.Stages.{Handlers, Answers, is_negative}
use abyss.Syscall.Translate.Every.{Every, EveryPushed, Every-map, Every-if, Every-bind}
use abyss.Syscall.Translate.{
  no_chain, is_cont, remember, skip_exit, enter_stage, exit_stage, next_chained, enter_requested,
  call_sysexit, exit_requested, translate_syscall,
}

-- The tracee is at the entry of a system call where it is to be restarted by PTRACE_CONT, at the
-- exit otherwise.
abbrev pub Entered : Tracee → Type 0
Entered tracee =
    (is_cont tracee.restart_how ≡ true → tracee.status ≡ 0)
    × (is_cont tracee.restart_how ≡ false → tracee.status ≢ 0)

abbrev status_of : Tracee → ℕ
status_of tracee = tracee.status

forge-status :
    (headers : Headers) (syscall : ChainedSyscall) (tracee : Tracee)
    → (forge headers syscall tracee).status ≡ tracee.status
unfolding forge
forge-status headers syscall tracee =
    part-poke_reg status_of (λ t r c. refl) instr_pointer _ _
    ∙ part-poke_all status_of (λ t r c. refl) _ tracee

end_chain-status : (tracee : Tracee) → (end_chain tracee).status ≡ tracee.status
unfolding end_chain
end_chain-status tracee =
    if-cases status_of tracee.chain.force_final_result _ tracee tracee.status
      (part-poke_reg status_of (λ t r c. refl) sysarg_result _ tracee) refl

abbrev Keeps : ℕ → Option Tracee → Type 0
Keeps status none = Unit
Keeps status (some tracee) = tracee.status ≡ status

queue-Keeps :
    (headers : Headers) (tracee : Tracee) (syscalls : Syscalls)
    → Keeps tracee.status (elim syscalls [
      | no_syscalls ↦ none
      | freed ↦ none
      | queued [] ↦ some (end_chain tracee)
      | queued (syscall ∷ pending) ↦ some (
          forge headers syscall (record tracee {
            chain = record tracee.chain { syscalls = queued pending };
            restore_original_regs = false;
          }))
    ])
queue-Keeps headers tracee no_syscalls = tt
queue-Keeps headers tracee freed = tt
queue-Keeps headers tracee (queued []) = end_chain-status tracee
queue-Keeps headers tracee (queued (syscall ∷ pending)) = forge-status headers syscall _

chain_next_syscall-status :
    (headers : Headers) (tracee next : Tracee)
    → chain_next_syscall headers tracee ≡ some next
    → next.status ≡ tracee.status
unfolding chain_next_syscall
chain_next_syscall-status headers tracee next is =
    subst (Keeps tracee.status) is (queue-Keeps headers tracee tracee.chain.syscalls)

module _ {Memory : Type 0} (p : Process Memory) (headers : Headers) (handlers : Handlers Memory)
    (errno page_bits : ℕ) where
  skip_exit-Entered :
      (tracee : Tracee)
      → tracee.status ≢ 0
      → Entered (skip_exit p headers handlers errno page_bits tracee)
  unfolding skip_exit
  skip_exit-Entered tracee h =
      let done = record tracee { status = 0 } in
      let pointer = peek_reg done original stack_pointer in
      let out = poke_reg stack_pointer pointer done in
      let how : (skip_exit p headers handlers errno page_bits tracee).restart_how
          ≡ tracee.restart_how =
        if-cases (λ (t : Tracee). t.restart_how) (is_cont tracee.restart_how) out tracee
          tracee.restart_how
          (part-poke_reg (λ t. t.restart_how) (λ t r c. refl) stack_pointer pointer done) refl in
      let status : (skip_exit p headers handlers errno page_bits tracee).status
          ≡ (if is_cont tracee.restart_how then 0 else tracee.status) =
        if-map status_of (is_cont tracee.restart_how) out tracee 0 tracee.status
          (part-poke_reg status_of (λ t r c. refl) stack_pointer pointer done) refl in
      let how' = ap is_cont how in
      (λ e. status ∙ rw (sym how' ∙ e) refl, λ e z. h (rw (sym how' ∙ e) refl ∙ sym status ∙ z))

  remember-status' :
      (status : ℕ) (tracee : Tracee)
      → (remember p headers handlers errno page_bits status tracee).status
        ≡ (if is_negative status then status else 1)
  unfolding remember
  remember-status' status tracee = if-map status_of (is_negative status) _ _ status 1 refl refl

  -- The end of the entry stage.
  left-Entered :
      (status : ℕ) (tracee : Tracee)
      → Entered (
          skip_exit p headers handlers errno page_bits
            (remember p headers handlers errno page_bits status tracee))
  left-Entered status tracee =
      skip_exit-Entered (remember p headers handlers errno page_bits status tracee)
        (λ z. ground (arith, sym (remember-status' status tracee) ∙ z))

  enter_stage-Entered :
      (tracee : Tracee) (m : Memory)
      → Every Entered (enter_stage p headers handlers errno page_bits tracee m)
  unfolding enter_stage
  enter_stage-Entered tracee m =
      let start = record tracee { restore_original_regs = false } in
      Every-if Entered (no_chain start.chain.syscalls) _ _
        (Every-bind Entered (enter_requested p headers handlers errno page_bits start m) _
          (λ r is. left-Entered r.0 r.1))
        (left-Entered 0 (record start { restart_how = ptrace_syscall }))

  next_chained-status :
      (state : Tracee × Memory)
      → Every (λ t. t.status ≡ 0) (next_chained p headers handlers errno page_bits state)
  unfolding next_chained
  next_chained-status (tracee, m) =
      let reset = record tracee { status = 0 } in
      Every-if (λ t. t.status ≡ 0) (no_chain reset.chain.syscalls) (some (reset, m)) _ refl
        (Every-bind (λ t. t.status ≡ 0) (chain_next_syscall headers reset) _
          (λ next is. chain_next_syscall-status headers reset next is))

  exit_stage-status :
      (tracee : Tracee) (m : Memory)
      → Every (λ t. t.status ≡ 0) (exit_stage p headers handlers errno page_bits tracee m)
  unfolding exit_stage
  exit_stage-status tracee m =
      Every-bind (λ t. t.status ≡ 0) (call_sysexit p headers handlers errno page_bits _ m) _
        (λ r is.
          Every-bind (λ t. t.status ≡ 0) (exit_requested p headers handlers errno page_bits r.0 r.1)
            _ (λ state is'. next_chained-status state))

  pub Every-push :
      (P : Tracee → Type 0) (answer : Result (Unit {0})) (o : Option (Tracee × Memory))
      → ((t : Tracee) → P t → P (push_regs answer t).1)
      → Every P o
      → EveryPushed P (elim o as (λ _. Option (Tracee × Memory × List Request)) [
        | none ↦ none
        | some (t, m) ↦ some ((push_regs answer t).1, m, (push_regs answer t).2)
      ])
  Every-push P answer none keeps h = tt
  Every-push P answer (some (t, m)) keeps h = keeps t h

  push_regs-status :
      (answer : Result (Unit {0})) (tracee : Tracee)
      → (push_regs answer tracee).1.status ≡ tracee.status
  push_regs-status answer tracee = part-push_regs status_of (λ t r c. refl) answer tracee

  push_regs-Entered :
      (answer : Result (Unit {0})) (tracee : Tracee)
      → Entered tracee
      → Entered (push_regs answer tracee).1
  push_regs-Entered answer tracee (cont, other) =
      let status = push_regs-status answer tracee in
      let how = ap is_cont (part-push_regs (λ t. t.restart_how) (λ t r c. refl) answer tracee) in
      (λ e. status ∙ cont (sym how ∙ e), λ e z. other (sym how ∙ e) (sym status ∙ z))

  -- The two outcomes of a stop: that of the exit stage, and that of the entry stage.
  abbrev pub Stopped : ℕ → Tracee → Type 0
  Stopped before after = (before ≢ 0 → after.status ≡ 0) × (before ≡ 0 → Entered after)

  push_regs-Stopped :
      (answer : Result (Unit {0})) (before : ℕ) (tracee : Tracee)
      → Stopped before tracee
      → Stopped before (push_regs answer tracee).1
  push_regs-Stopped answer before tracee (exit, enter) = (
    λ ne. push_regs-status answer tracee ∙ exit ne,
    λ e. push_regs-Entered answer tracee (enter e),
  )

  stages-Stopped :
      (before : ℕ) (enter exit : Option (Tracee × Memory))
      → Every Entered enter
      → Every (λ t. t.status ≡ 0) exit
      → Every (Stopped before) (if before == 0 then enter else exit)
  stages-Stopped before enter exit entered exited = elim (Bool-cases (before == 0)) [
    | inl e ↦ rw e (
        Every-map Entered (Stopped before) enter (λ t h. (λ ne. absurd (ne (ground arith)), λ z. h))
          entered)
    | inr e ↦ rw e (
        Every-map (λ t. t.status ≡ 0) (Stopped before) exit
          (λ t h. (λ ne. h, λ z. absurd (ground arith))) exited)
  ]

  pub translate_syscall-Stopped :
      (answers : Answers) (bank : Bank) (tracee : Tracee) (m : Memory)
      → answers.getregset ≡ ok bank
      → EveryPushed
          (Stopped tracee.status)
          (translate_syscall p headers handlers errno page_bits answers tracee m)
  unfolding translate_syscall
  translate_syscall-Stopped answers bank tracee m is =
      let fetched = record tracee { regs = set_bank current bank tracee.regs } in
      rw (is, translate_syscall)
        (Every-push (Stopped tracee.status) answers.setregset _
          (push_regs-Stopped answers.setregset tracee.status)
          (stages-Stopped tracee.status _ _ (enter_stage-Entered fetched m)
            (exit_stage-status fetched m)))

  -- Once the registers of a stopped tracee could be read, the stages alternate: behind an exit stage
  -- the status is 0, the mark of the entry stage, and so it is behind an entry stage of which the
  -- tracee is restarted by PTRACE_CONT and hits no exit stage; behind any other entry stage the
  -- status is not 0, also when the call was refused, whatever the callbacks and the other components
  -- do and whether or not calls are chained.
  pub translate_syscall-alternates :
      (answers : Answers) (bank : Bank) (tracee tracee' : Tracee) (m m' : Memory)
      (requests : List Request)
      → answers.getregset ≡ ok bank
      → translate_syscall p headers handlers errno page_bits answers tracee m
        ≡ some (tracee', m', requests)
      → (tracee.status ≢ 0 → tracee'.status ≡ 0)
        × (tracee.status ≡ 0
            → (is_cont tracee'.restart_how ≡ true → tracee'.status ≡ 0)
              × (is_cont tracee'.restart_how ≡ false → tracee'.status ≢ 0))
  translate_syscall-alternates answers bank tracee tracee' m m' requests fetched is =
      subst (EveryPushed (Stopped tracee.status)) is
        (translate_syscall-Stopped answers bank tracee m fetched)
