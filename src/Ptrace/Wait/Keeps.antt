-- ===== src/Ptrace/Wait/Keeps.antt =====
-- The emulated wait(2) keeps the invariant of the links.
use mathlib.Core.Path.{subst}
use abyss.Base.{
  ◌⊎◌, ℕ, ◌+◌, ◌%◌, ◌^◌, ◌<◌, ◌≡◌, ◌≢◌, refl, sym, ap, ◌∙◌, Bool, true, not, ◌&&◌, inl, inr, List,
  arith, ◌==◌, if◌then◌else◌,
}
use abyss.Tracee.State.{original, doesnt_wait}
use abyss.Tracee.Reg.{sysarg_1, sysarg_2, sysarg_3, peek_reg}
use abyss.Tracee.Reg.Keeps.{part-poke_reg, part-poke_all}
use abyss.Syscall.Chain.{restart_original_syscall}
use abyss.Syscall.Stages.{minus}
use abyss.Tracees.Store.{null, World, Platform, pure, set_cell}
use abyss.Tracees.Post.{Post, ends, bind, branch, choose, mono}
use abyss.Tracees.Find.{get_stopped_ptracee}
use abyss.Tracees.Find.Sound.{IsFound, get_ptracee-IsFound}
use abyss.Syscall.Stages.{is_waiting}
use abyss.Tracees.Counts.{mult}
use abyss.Tracees.Remove.{is_end, before_tracee_free, remove_zombie, without_zombie, echild}
use abyss.Tracees.Valid.{links, IsValid, Same-valid}
use abyss.Tracees.Valid.Steps
use abyss.Tracees.Safe.{Still, Still-refl, Still-Good, Good, Good-trans, load-then, assert-then}
use abyss.Tracees.Safe.Quiet.{
  link_part, LeavesLinks, Quiet, Quiet-bind, Quiet-pure, Quiet-load, Quiet-modify, Quiet-if,
}
use abyss.Tracees.Safe.Commands.{detached_world, detach-then}
use abyss.Ptrace.Attach.{set_ptracer, one_less, set_nb_ptracees}
use abyss.Ptrace.Wait.{
  passed_on, set_event_ptracer, poke_int32, rest_in_peace, let_go, is_nohang, set_waits_in,
  set_wait, wait_for_ptracee, translate_wait_exit, report_again, report, update_wait_status,
}

restart_original_syscall-LeavesLinks : LeavesLinks restart_original_syscall
unfolding restart_original_syscall
restart_original_syscall-LeavesLinks t =
    part-poke_reg link_part (λ u regs changed. refl) _ _ _
    ∙ part-poke_all link_part (λ u regs changed. refl) _ t

module _ {Memory : Type 0} where
  -- A structure that its ptracer counts: a tracee, or a zombie in its list.
  abbrev pub IsHeld : List ℕ → World Memory → ℕ → Type 0
  IsHeld leaving w a =
      (mult a leaving + mult a w.tracees ≡ 1)
      ⊎ (0 < mult a ((links w).zombies ((links w).ptracer a)))

  pub Still-IsHeld :
      (leaving : List ℕ) {w w' : World Memory} (a : ℕ)
      → Still w w'
      → IsHeld leaving w a
      → IsHeld leaving w' a
  Still-IsHeld leaving a s (inl h) = inl (ap (λ ts. mult a leaving + mult a ts) s.same_tracees ∙ h)
  Still-IsHeld leaving a s (inr h) =
      inr (subst (λ l. 0 < mult a (l.zombies (l.ptracer a))) (sym s.same_links) h)

  -- A tracee is not marked as a zombie.
  held_zombie :
      {leaving : List ℕ} (w : World Memory) (a : ℕ)
      → IsValid leaving w
      → IsHeld leaving w a
      → (w.cell a).as_ptracee.zombified ≡ true
      → 0 < mult a ((links w).zombies ((links w).ptracer a))
  held_zombie w a v held e = ground (arith, v.alive a)

  module _ (platform : Platform Memory) where
    Quiet-poke_int32 :
        (ptracer address value : ℕ) → Quiet (poke_int32 platform ptracer address value)
    unfolding poke_int32
    Quiet-poke_int32 ptracer address value = record {
      post = λ w. ends (record { same_links = refl; same_tracees = refl; same_next = refl });
    }

    -- A detached zombie is freed.
    free_detached :
        {leaving : List ℕ} (z : ℕ) (w : World Memory)
        → IsValid leaving w
        → 0 < mult z ((links w).zombies ((links w).ptracer z))
        → 0 < (links w).nb ((links w).ptracer z)
        → z ≢ 0
        → Post (λ _ w'. Good leaving w w') (before_tracee_free platform z (detached_world z w))
    unfolding before_tracee_free remove_zombie without_zombie set_cell set_ptracer one_less
        set_nb_ptracees
    free_detached z w v zombie counts nonnull =
        let w1 = detached_world z w in
        let p = (links w).ptracer z in
        let dead : (w1.cell z).is_zombie ≡ true = ground (arith, v.zombie_dead p z zombie) in
        branch (z == null) _ _ (λ e. absurd (ground arith))
          (λ _. load-then w1 z _ λ _.
            branch (w1.cell z).is_zombie _ _
              (λ _. ends (record {
                valid =
                    Same-valid
                      (record {
                        ptracer = λ b. ground arith;
                        nb = λ b. ground arith;
                        zombies = λ b. ground arith;
                        dead = λ b. ground arith;
                        zombified = λ b. ground arith;
                      })
                      (Steps.reaped-IsValidAt v z zombie counts);
                grows = λ a i. i;
              }))
              (λ e. absurd (cc)))

    -- A structure is detached, and freed if it is a zombie.
    let_go-Good :
        {leaving : List ℕ} (a : ℕ) (w : World Memory)
        → IsValid leaving w
        → IsHeld leaving w a
        → a ≢ 0
        → Post (λ _ w'. Good leaving w w') (let_go platform a w)
    unfolding let_go set_cell set_ptracer one_less set_nb_ptracees
    let_go-Good {leaving} a w v held nonnull = detach-then a w _ λ bound counts.
        let w1 = detached_world a w in
        let same : (w1.cell a).as_ptracee.zombified ≡ (w.cell a).as_ptracee.zombified =
          ground arith in
        load-then w1 a _ λ _.
          branch (w1.cell a).as_ptracee.zombified _ _
            (λ e. free_detached a w v (held_zombie w a v held (sym same ∙ e)) counts nonnull)
            (λ e. ends (record {
              valid =
                  Same-valid
                    (record {
                      ptracer = λ b. ground arith;
                      nb = λ b. ground arith;
                      zombies = λ b. ground arith;
                      dead = λ b. ground arith;
                      zombified = λ b. ground arith;
                    })
                    (Steps.detached-IsValidAt v a
                      (ground (arith, held, v.zombie_marked ((links w).ptracer a) a)) bound counts);
              grows = λ b i. i;
            }))

    report_again-Good :
        {leaving : List ℕ} (ptracer a : ℕ) (w : World Memory)
        → IsValid leaving w
        → IsHeld leaving w a
        → a ≢ 0
        → Post (λ _ w'. Good leaving w w') (report_again platform ptracer a w)
    unfolding report_again
    report_again-Good {leaving} ptracer a w v held nonnull =
        bind
          ((Quiet-modify ptracer restart_original_syscall restart_original_syscall-LeavesLinks).post
            w)
          λ _ w1 s.
            let g1 = Still-Good s v in
            bind (let_go-Good a w1 g1.valid (Still-IsHeld leaving a s held) nonnull)
              λ _ w2 g2. ends (Good-trans g1 g2)

    report-Good :
        {leaving : List ℕ} (a : ℕ) (w : World Memory)
        → IsValid leaving w
        → IsHeld leaving w a
        → a ≢ 0
        → Post (λ _ w'. Good leaving w w') (report platform a w)
    unfolding report rest_in_peace passed_on set_event_ptracer
    report-Good {leaving} a w v held nonnull =
        bind ((Quiet-modify a passed_on (λ t. refl)).post w) λ _ w1 s.
          let g1 = Still-Good s v in
          let held1 = Still-IsHeld leaving a s held in
          load-then w1 a _ λ _.
            bind
              (branch {Q = λ _ w'. Good leaving w1 w'} (w1.cell a).as_ptracee.zombified _ _
                (λ e. detach-then a w1 _ λ bound counts.
                  free_detached a w1 g1.valid (held_zombie w1 a g1.valid held1 e) counts nonnull)
                (λ _. ends (record { valid = g1.valid; grows = λ b i. i })))
              λ _ w2 g2. ends (Good-trans g1 g2)

    pub update_wait_status-Good :
        {leaving : List ℕ} (ptracer a : ℕ) (w : World Memory)
        → IsValid leaving w
        → IsHeld leaving w a
        → Post (λ _ w'. Good leaving w w') (update_wait_status platform ptracer a w)
    unfolding update_wait_status
    update_wait_status-Good {leaving} ptracer a w v held =
        let t = w.cell a in
        load-then w a _ λ nonnull.
          branch (t.as_ptracee.ptracer == t.parent && is_end t.as_ptracee.event_ptracer.value) _ _
            (λ _. report_again-Good ptracer a w v held nonnull)
            (λ _. load-then w ptracer _ λ _.
              let address = peek_reg (w.cell ptracer) original sysarg_2 in
              branch (address == 0) _ _ (λ _. report-Good a w v held nonnull)
                (λ _.
                  bind {next = λ status. if status == 0 then report platform a else pure status}
                    ((Quiet-poke_int32 ptracer address t.as_ptracee.event_ptracer.value).post w)
                    λ status w1 s.
                      let g1 = Still-Good s v in
                      branch (status == 0) _ _
                        (λ _.
                          mono (report-Good a w1 g1.valid (Still-IsHeld leaving a s held) nonnull)
                            (λ _ w2 g2. Good-trans g1 g2))
                        (λ _. ends g1)))

  -- What `get_ptracee` finds is counted by the ptracer.
  pub found-IsHeld :
      (leaving : List ℕ) (w : World Memory) (ptracer pid options a : ℕ) (stopped pevent : Bool)
      → IsValid leaving w
      → IsFound w.cell w.tracees ptracer pid options stopped pevent a
      → IsHeld leaving w a
  found-IsHeld leaving w ptracer pid options a stopped pevent v found = elim found.linked [
    | inl zombie ↦ inr (
        subst (λ p. 0 < mult a ((links w).zombies p)) (sym (v.zombie_linked ptracer a zombie))
          zombie)
    | inr (listed, owned, ready) ↦ inl (omega (arith, v.once a, listed))
  ]

  module _ (platform : Platform Memory) where
    Quiet-wait_for_ptracee :
        (ptracer pid options : ℕ) → Quiet (wait_for_ptracee platform ptracer pid options)
    unfolding wait_for_ptracee set_wait
    Quiet-wait_for_ptracee ptracer pid options = Quiet-bind _ _ (Quiet-load ptracer) λ t.
        Quiet-if (t.as_ptracer.nb_ptracees == 0) _ _ (Quiet-pure (minus echild)) (
          Quiet-if (is_nohang options) _ _ (record { post = λ w. ends (Still-refl w) })
            (Quiet-bind _ _ (Quiet-modify ptracer (set_wait pid options) (λ u. refl))
              λ _. Quiet-pure 0))

    -- Behind the emulated wait(2) the counters nb_ptracees are right and all tracees are still listed,
    -- also where a zombie is released, unless an assertion or a dereference fails.
    pub translate_wait_exit-Good :
        {leaving : List ℕ} (ptracer : ℕ) (w : World Memory)
        → IsValid leaving w
        → Post (λ _ w'. Good leaving w w') (translate_wait_exit platform ptracer w)
    unfolding translate_wait_exit set_waits_in
    translate_wait_exit-Good {leaving} ptracer w v =
        let t = w.cell ptracer in
        load-then w ptracer _ λ _. assert-then w (is_waiting t.as_ptracer.waits_in) _ λ _.
          bind ((Quiet-modify ptracer (set_waits_in doesnt_wait) (λ u. refl)).post w) λ _ w1 s.
            let g1 = Still-Good s v in
            let pid = peek_reg t original sysarg_1 % 2 ^ 32 in
            let options = peek_reg t original sysarg_3 in
            let a = get_stopped_ptracee w1 ptracer pid true options in
            choose (a == null) _ _
              (λ e.
                bind {next = λ status. pure (status, true)}
                  ((Quiet-wait_for_ptracee ptracer pid options).post w1)
                  λ _ w2 s2. ends (Good-trans g1 (Still-Good s2 g1.valid)))
              (λ e.
                bind {next = λ status. pure (status, not (status == 0))}
                  (update_wait_status-Good platform ptracer a w1 g1.valid (
                    found-IsHeld leaving w1 ptracer pid options a true true g1.valid
                      (get_ptracee-IsFound w1 ptracer pid true true options a refl (ground arith))))
                  λ _ w2 g2. ends (Good-trans g1 g2))
