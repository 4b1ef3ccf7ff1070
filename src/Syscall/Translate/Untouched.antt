-- ===== src/Syscall/Translate/Untouched.antt =====
-- What `translate_syscall` leaves alone, from one end to the other.
use mathlib.Core.Path.{subst}
use abyss.Base.{
  ℕ, true, false, Option, none, some, List, [], ◌∷◌, ◌≡◌, refl, ◌∙◌, ◌==◌, if◌then◌else◌, Result,
  ok, err,
}
use abyss.Tracee.State.{
  ChainedSyscall, Chain, RegVersion, current, original, modified, Bank, Tracee, Syscalls,
  no_syscalls, freed, queued, Chain, ptrace_syscall,
}
use abyss.Tracee.Reg.{
  Reg, sysarg_result, instr_pointer, Request, poke_reg, save_current_regs, fetch_regs, push_regs,
  set_bank,
}
use abyss.Tracee.Reg.Keeps.{
  part-poke_reg, part-poke_all, part-save_current_regs, part-push_regs, if-cases,
}
use abyss.Tracee.Process.{Process}
use abyss.Syscall.Sysnum.{Headers}
use abyss.Syscall.Current.{get_sysnum}
use abyss.Syscall.Chain.{chain_next_syscall, forge, end_chain}
use abyss.Syscall.Stages.{
  Handlers, Answers, is_negative, switch_enter, translate_syscall_enter, switch_exit,
  translate_syscall_exit,
}
use abyss.Syscall.Translate.{
  no_chain, remember, skip_exit, enter_stage, exit_stage, next_chained, enter_requested,
  call_sysenter, call_sysexit, exit_requested, translate_syscall,
}
use abyss.Syscall.Translate.Every.{Every, EveryPushed, Every-map, Every-if, Every-bind}
use abyss.Syscall.Translate.Alternates.{Every-push}
use abyss.Syscall.Translate.Outside.{
  IsOutside, Leave, switch_enter-keeps, switch_exit-keeps, remember-keeps, skip_exit-keeps,
  call_sysenter-keeps, call_sysexit-keeps, give-keeps,
}

module _ {Memory : Type 0} {A : Type 0} (p : Process Memory) (headers : Headers)
    (handlers : Handlers Memory) (errno page_bits : ℕ) (part : Tracee → A)
    (outside : IsOutside part) (leave : Leave part handlers) where
  abbrev Left : Tracee → Tracee → Type 0
  Left t after = part after ≡ part t

  found :
      (t : Tracee) (o : Option (Tracee × Memory)) (r : Tracee × Memory)
      → Every (Left t) o
      → o ≡ some r
      → part r.0 ≡ part t
  found t o r h is = subst (Every (Left t)) is h

  abbrev LeftEntering : Tracee → Option (ℕ × Tracee × Memory) → Type 0
  LeftEntering t none = Unit
  LeftEntering t (some (_, after, _)) = part after ≡ part t

  entering-bind :
      {B : Type 0} (t : Tracee) (o : Option B) (next : B → Option (ℕ × Tracee × Memory))
      → ((b : B) → o ≡ some b → LeftEntering t (next b))
      → LeftEntering t (elim o [ none ↦ none | some b ↦ next b ])
  entering-bind t none next h = tt
  entering-bind t (some b) next h = h b refl

  found_entering :
      (t : Tracee) (o : Option (ℕ × Tracee × Memory)) (r : ℕ × Tracee × Memory)
      → LeftEntering t o
      → o ≡ some r
      → part r.1 ≡ part t
  found_entering t o r h is = subst (LeftEntering t) is h

  translate_syscall_enter-keeps :
      (t : Tracee) (m : Memory)
      → LeftEntering t (translate_syscall_enter p headers handlers errno page_bits t m)
  unfolding translate_syscall_enter
  translate_syscall_enter-keeps t m =
      entering-bind t (get_sysnum headers original t)
        (λ sysnum. some (switch_enter p headers handlers errno page_bits sysnum t m))
        (λ sysnum is.
          switch_enter-keeps p headers handlers errno page_bits part outside leave sysnum t m)

  save : (version : RegVersion) (t : Tracee) → part (save_current_regs version t) ≡ part t
  save = part-save_current_regs part (λ t r c. outside t r c _ _ _ _ _)

  enter_requested-keeps :
      (t : Tracee) (m : Memory)
      → LeftEntering t (enter_requested p headers handlers errno page_bits t m)
  unfolding enter_requested
  enter_requested-keeps t m =
      let saved = save_current_regs original t in
      entering-bind t (call_sysenter p headers handlers errno page_bits saved m) _ (λ r is.
        entering-bind t (translate_syscall_enter p headers handlers errno page_bits r.0 r.1) _
          (λ r' is'.
            save modified r'.1
            ∙ found_entering r.0 _ r' (translate_syscall_enter-keeps r.0 r.1) is'
            ∙ found saved _ r
                (call_sysenter-keeps p headers handlers errno page_bits part outside leave saved m)
                is
            ∙ save original t))

  left :
      (status : ℕ) (t : Tracee)
      → part (
          skip_exit p headers handlers errno page_bits
            (remember p headers handlers errno page_bits status t))
        ≡ part t
  left status t =
      skip_exit-keeps p headers handlers errno page_bits part outside leave _
      ∙ remember-keeps p headers handlers errno page_bits part outside leave status t

  enter_stage-keeps :
      (t : Tracee) (m : Memory)
      → Every (Left t) (enter_stage p headers handlers errno page_bits t m)
  unfolding enter_stage
  enter_stage-keeps t m =
      let start = record t { restore_original_regs = false } in
      let same : part start ≡ part t = outside t _ _ false _ _ _ _ in
      Every-if (Left t) (no_chain start.chain.syscalls) _ _
        (Every-bind (Left t) (enter_requested p headers handlers errno page_bits start m) _ (λ r is.
          left r.0 r.1 ∙ found_entering start _ r (enter_requested-keeps start m) is ∙ same))
        (left 0 (record start { restart_how = ptrace_syscall })
          ∙ outside t _ _ false _ ptrace_syscall _ _)

  translate_syscall_exit-keeps :
      (t : Tracee) (m : Memory)
      → Every (Left t) (translate_syscall_exit p headers handlers errno page_bits t m)
  unfolding translate_syscall_exit
  translate_syscall_exit-keeps t m =
      Every-if (Left t) (is_negative t.status) (some _) _
        (give-keeps p headers handlers errno page_bits part outside leave (t.status, t, m))
        (Every-bind (Left t) (get_sysnum headers original t)
          (λ sysnum. some (switch_exit p headers handlers errno page_bits sysnum t m))
          (λ sysnum is.
            switch_exit-keeps p headers handlers errno page_bits part outside leave sysnum t m))

  poke : (reg : Reg) (value : ℕ) (t : Tracee) → part (poke_reg reg value t) ≡ part t
  poke = part-poke_reg part (λ t r c. outside t r c _ _ _ _ _)

  forge-keeps : (syscall : ChainedSyscall) (t : Tracee) → part (forge headers syscall t) ≡ part t
  unfolding forge
  forge-keeps syscall t =
      poke instr_pointer _ _ ∙ part-poke_all part (λ t r c. outside t r c _ _ _ _ _) _ t

  end_chain-keeps : (t : Tracee) → part (end_chain t) ≡ part t
  unfolding end_chain
  end_chain-keeps t =
      let poked = poke_reg sysarg_result t.chain.final_result t in
      let forced = if t.chain.force_final_result then poked else t in
      let ended : Chain = record {
        syscalls = freed;
        force_final_result = false;
        final_result = 0;
      } in
      outside forced forced.regs forced.regs_were_changed forced.restore_original_regs forced.status
        forced.restart_how forced.user_context_data ended
      ∙ if-cases part t.chain.force_final_result poked t (part t) (poke sysarg_result _ t) refl

  abbrev Same : Tracee → Option Tracee → Type 0
  Same t none = Unit
  Same t (some next) = part next ≡ part t

  queue-keeps :
      (t : Tracee) (syscalls : Syscalls)
      → Same t (elim syscalls [
        | no_syscalls ↦ none
        | freed ↦ none
        | queued [] ↦ some (end_chain t)
        | queued (syscall ∷ pending) ↦ some (
            forge headers syscall (record t {
              chain = record t.chain { syscalls = queued pending };
              restore_original_regs = false;
            }))
      ])
  queue-keeps t no_syscalls = tt
  queue-keeps t freed = tt
  queue-keeps t (queued []) = end_chain-keeps t
  queue-keeps t (queued (syscall ∷ pending)) =
      forge-keeps syscall _
      ∙ outside t t.regs t.regs_were_changed false t.status t.restart_how t.user_context_data
          (record t.chain { syscalls = queued pending })

  chain_next_syscall-keeps :
      (t next : Tracee) → chain_next_syscall headers t ≡ some next → part next ≡ part t
  unfolding chain_next_syscall
  chain_next_syscall-keeps t next is = subst (Same t) is (queue-keeps t t.chain.syscalls)

  next_chained-keeps :
      (r : Tracee × Memory) → Every (Left r.0) (next_chained p headers handlers errno page_bits r)
  unfolding next_chained
  next_chained-keeps (t, m) =
      let reset = record t { status = 0 } in
      let same : part reset ≡ part t =
        outside t t.regs t.regs_were_changed t.restore_original_regs 0 t.restart_how
          t.user_context_data t.chain in
      Every-if (Left t) (no_chain reset.chain.syscalls) (some (reset, m)) _ same (
        Every-bind (Left t) (chain_next_syscall headers reset) _
          (λ next is. chain_next_syscall-keeps reset next is ∙ same))

  exit_requested-keeps :
      (t : Tracee) (m : Memory)
      → Every (Left t) (exit_requested p headers handlers errno page_bits t m)
  unfolding exit_requested
  exit_requested-keeps t m =
      Every-if (Left t) (no_chain t.chain.syscalls) _ (some (t, m))
        (translate_syscall_exit-keeps t m) refl

  after :
      (s : Tracee × Memory) (t : Tracee)
      → Every (Left s.0) (next_chained p headers handlers errno page_bits s)
      → part s.0 ≡ part t
      → Every (Left t) (next_chained p headers handlers errno page_bits s)
  after s t h e = Every-map (Left s.0) (Left t) _ (λ u same. same ∙ e) h

  exit_stage-keeps :
      (t : Tracee) (m : Memory) → Every (Left t) (exit_stage p headers handlers errno page_bits t m)
  unfolding exit_stage
  exit_stage-keeps t m =
      let start = record t { restore_original_regs = true } in
      let same : part start ≡ part t =
        outside t t.regs t.regs_were_changed true t.status t.restart_how t.user_context_data
          t.chain in
      Every-bind (Left t) (call_sysexit p headers handlers errno page_bits start m) _ (λ r is.
        Every-bind (Left t) (exit_requested p headers handlers errno page_bits r.0 r.1)
          (λ s. next_chained p headers handlers errno page_bits s)
          (λ s is'. after s t (next_chained-keeps s) (
            found r.0 _ s (exit_requested-keeps r.0 r.1) is'
            ∙ found start _ r
                (call_sysexit-keeps p headers handlers errno page_bits part outside leave start m)
                is
            ∙ same)))

  fetched :
      (answer : Result (Unit {0})) (a : Result Bank) (t : Tracee) (m : Memory)
      → EveryPushed
          (Left t)
          (elim (fetch_regs a t) as (λ _. Option (Tracee × Memory × List Request)) [
            | err e ↦ some (t, m, [])
            | ok u ↦
                elim (if t.status == 0
                    then enter_stage p headers handlers errno page_bits u m
                    else exit_stage p headers handlers errno page_bits u m)
                  as (λ _. Option (Tracee × Memory × List Request)) [
                    | none ↦ none
                    | some (after, m') ↦
                        some ((push_regs answer after).1, m', (push_regs answer after).2)
                  ]
          ])
  unfolding fetch_regs
  fetched answer (err e) t m = refl
  fetched answer (ok bank) t m =
      let u = record t { regs = set_bank current bank t.regs } in
      let same : part u ≡ part t =
        outside t u.regs t.regs_were_changed t.restore_original_regs t.status t.restart_how
          t.user_context_data t.chain in
      Every-push p headers handlers errno page_bits (Left t) answer _
        (λ v h. part-push_regs part (λ t r c. outside t r c _ _ _ _ _) answer v ∙ h)
        (Every-map (Left u) (Left t) _ (λ v h. h ∙ same)
          (Every-if (Left u) (t.status == 0) _ _ (enter_stage-keeps u m) (exit_stage-keeps u m)))

  -- `translate_syscall` leaves alone what the components leave alone.
  pub translate_syscall-keeps :
      (answers : Answers) (t : Tracee) (m : Memory)
      → EveryPushed (Left t) (translate_syscall p headers handlers errno page_bits answers t m)
  unfolding translate_syscall
  translate_syscall-keeps answers t m = fetched answers.setregset answers.getregset t m
