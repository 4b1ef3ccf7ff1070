-- ===== src/Tracees/Safe/Commands.antt =====
-- The commands on a single structure: most leave the links alone, `attach_to_ptracer` and
-- `detach_from_ptracer` write them together.
use mathlib.Core.Path.{subst}
use abyss.Base.{ℕ, ◌+◌, ◌<◌, ◌≡◌, ◌≢◌, refl, sym, Bool, Option, none, some, List, arith, ltb, ok}
use abyss.Tracee.State.{RestartHow}
use abyss.Syscall.Sysnum.{Headers}
use abyss.Syscall.Current.{set_sysnum}
use abyss.Tracee.Reg.{sysarg_num, Reg, poke_reg, push_regs}
use abyss.Tracee.Reg.Keeps.{part-poke_reg, part-push_regs}
use abyss.Event.Handle.{restart_tracee}
use abyss.Tracees.Store.{
  null, World, Cmd, Kernel, Platform, and_then, set_cell, modify, restart_call, kill_call,
  registers_call,
}
use abyss.Tracees.Post.{Post, bind}
use abyss.Tracees.Counts.{mult}
use abyss.Tracees.Valid.{links, IsValid, Same-valid}
use abyss.Tracees.Valid.Steps
use abyss.Tracees.Safe.{Good, load-then, modify-then, assert-then, modify-ends}
use abyss.Tracees.Safe.Quiet.{
  link_part, LeavesLinks, Quiet, Quiet-bind, Quiet-pure, Quiet-ask, Quiet-load, Quiet-log,
  Quiet-modify,
}
use abyss.Tracees.Remove.{kill}
use abyss.Ptrace.Attach.{
  attach_to_ptracer, detach_from_ptracer, restart, push, log_restart, is_restarted, set_ptracer,
  clear_ptracee, one_more, one_less, set_nb_ptracees,
}

pub poke_reg-LeavesLinks : (reg : Reg) (value : ℕ) → LeavesLinks (poke_reg reg value)
poke_reg-LeavesLinks reg value t = part-poke_reg link_part (λ u regs changed. refl) reg value t

pub set_sysnum-LeavesLinks :
    (headers : Headers) (sysnum : ℕ) → LeavesLinks (λ t. set_sysnum headers sysnum t)
set_sysnum-LeavesLinks headers sysnum t =
    part-poke_reg link_part (λ u regs changed. refl) sysarg_num _ t

push_regs-LeavesLinks : LeavesLinks (λ t. (push_regs (ok tt) t).1)
push_regs-LeavesLinks t = part-push_regs link_part (λ u regs changed. refl) (ok tt) t

restart_tracee-LeavesLinks :
    (granted : Bool) (signal : ℕ) → LeavesLinks (λ t. (restart_tracee granted signal t).1)
unfolding restart_tracee
restart_tracee-LeavesLinks granted signal t = ground arith

module _ {Memory : Type 0} where
  Quiet-log_restart :
      (pid : ℕ) (o : Option (RestartHow × ℕ)) → Quiet {Memory = Memory} (log_restart pid o)
  Quiet-log_restart pid none = Quiet-pure tt
  Quiet-log_restart pid (some (how, signal)) = Quiet-log (restart_call pid how signal)

  pub Quiet-restart : (kernel : Kernel Memory) (signal a : ℕ) → Quiet (restart kernel signal a)
  unfolding restart
  Quiet-restart kernel signal a = Quiet-bind _ _ (Quiet-load a) λ t.
      Quiet-bind _ _ (Quiet-ask (kernel.restart_granted t.pid t.restart_how signal)) λ granted.
        Quiet-bind _ _ (Quiet-log_restart t.pid (restart_tracee granted signal t).0) λ _.
          Quiet-bind _ _
            (Quiet-modify a (λ t'. (restart_tracee granted signal t').1)
              (restart_tracee-LeavesLinks granted signal))
            λ _. Quiet-pure (is_restarted (restart_tracee granted signal t).0 granted)

  pub Quiet-push : (a : ℕ) → Quiet {Memory = Memory} (push a)
  unfolding push
  Quiet-push a = Quiet-bind _ _ (Quiet-load a) λ t.
      Quiet-bind _ _ (Quiet-log (registers_call t.pid (push_regs (ok tt) t).2))
        λ _. Quiet-modify a (λ t'. (push_regs (ok tt) t').1) push_regs-LeavesLinks

  pub Quiet-kill : (platform : Platform Memory) (pid signal : ℕ) → Quiet (kill platform pid signal)
  unfolding kill
  Quiet-kill platform pid signal =
      Quiet-bind _ _ (Quiet-log (kill_call pid signal))
        λ _. Quiet-ask (platform.kernel.kill_granted pid signal)

  pub attach-Good :
      {leaving : List ℕ} (a p : ℕ) (w : World Memory)
      → IsValid leaving w
      → mult a leaving + mult a w.tracees ≡ 1
      → (w.cell a).as_ptracee.ptracer ≡ 0
      → p < w.next
      → Post (λ _ w'. Good leaving w w') (attach_to_ptracer a p w)
  unfolding attach_to_ptracer set_cell set_ptracer clear_ptracee one_more set_nb_ptracees
  attach-Good a p w v h free below =
      let w1 : World Memory = record w {
        cell = set_cell w.cell a (set_ptracer p (clear_ptracee (w.cell a)));
      } in
      modify-then w a (λ t. set_ptracer p (clear_ptracee t)) (λ _. modify p one_more)
        λ nonnull_a. modify-ends w1 p one_more λ nonnull_p. record {
          valid =
              Same-valid
                (record {
                  ptracer = λ b. ground arith;
                  nb = λ b. ground arith;
                  zombies = λ b. ground arith;
                  dead = λ b. ground arith;
                  zombified = λ b. ground arith;
                })
                (Steps.attached-IsValidAt v a p h free nonnull_p below);
          grows = λ b i. i;
        }

  pub detach-Good :
      {leaving : List ℕ} (a : ℕ) (w : World Memory)
      → IsValid leaving w
      → mult a leaving + mult a w.tracees ≡ 1
      → Post (λ _ w'. Good leaving w w' × ((links w').ptracer a ≡ 0)) (detach_from_ptracer a w)
  unfolding detach_from_ptracer set_cell set_ptracer one_less set_nb_ptracees
  detach-Good a w v h =
      let p = (w.cell a).as_ptracee.ptracer in
      let w1 : World Memory = record w { cell = set_cell w.cell a (set_ptracer null (w.cell a)) } in
      load-then w a _ λ nonnull_a. modify-then w a (set_ptracer null) _ λ _.
        load-then w1 p _ λ bound.
          assert-then w1 (ltb 0 (w1.cell p).as_ptracer.nb_ptracees) (λ _. modify p one_less)
            λ counts. modify-ends w1 p one_less λ _. (
              record {
                valid =
                    Same-valid
                      (record {
                        ptracer = λ b. ground arith;
                        nb = λ b. ground arith;
                        zombies = λ b. ground arith;
                        dead = λ b. ground arith;
                        zombified = λ b. ground arith;
                      })
                      (Steps.detached-IsValidAt v a h bound (ground arith));
                grows = λ b i. i;
              },
              ground arith,
            )

  -- The same commands with what they leave written out.
  abbrev pub detached_world : (a : ℕ) → World Memory → World Memory
  detached_world a w =
      let cell1 = set_cell w.cell a (set_ptracer null (w.cell a)) in
      let p = (w.cell a).as_ptracee.ptracer in
      record w { cell = set_cell cell1 p (one_less (cell1 p)) }

  exactly :
      {B : Type 0} {R : B → World Memory → Type 0} {F : Type 0} (u : World Memory)
      (r : Option (Unit {0} × World Memory)) (next : Unit {0} → Cmd Memory B)
      → Post (λ _ w'. (w' ≡ u) × F) r
      → (F → Post R (next tt u))
      → Post R (and_then r next)
  exactly {R} u r next h k = bind h λ _ w' (e, f). subst (λ v. Post R (next tt v)) (sym e) (k f)

  pub detach-then :
      {B : Type 0} {R : B → World Memory → Type 0} (a : ℕ) (w : World Memory)
      (next : Unit {0} → Cmd Memory B)
      → ((w.cell a).as_ptracee.ptracer ≢ 0
          → 0 < (w.cell (w.cell a).as_ptracee.ptracer).as_ptracer.nb_ptracees
          → Post R (next tt (detached_world a w)))
      → Post R (and_then (detach_from_ptracer a w) next)
  unfolding detach_from_ptracer set_cell set_ptracer
  detach-then a w next h =
      let p = (w.cell a).as_ptracee.ptracer in
      let w1 : World Memory = record w { cell = set_cell w.cell a (set_ptracer null (w.cell a)) } in
      exactly {F = (p ≢ 0) × (0 < (w.cell p).as_ptracer.nb_ptracees)} (detached_world a w) _ next
        (load-then w a _ λ nonnull_a. modify-then w a (set_ptracer null) _ λ _.
          load-then w1 p _ λ bound.
            assert-then w1 (ltb 0 (w1.cell p).as_ptracer.nb_ptracees) (λ _. modify p one_less)
              λ counts. modify-ends w1 p one_less λ _. (refl, (bound, ground arith)))
        (λ f. h f.0 f.1)
