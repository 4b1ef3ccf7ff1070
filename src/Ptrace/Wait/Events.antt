-- ===== src/Ptrace/Wait/Events.antt =====
-- The events of a ptracee, and the entry of wait(2), keep the invariant of the links.
use abyss.Base.{
  arith, ◌≡◌, ℕ, ◌%◌, ◌^◌, ◌<◌, refl, Bool, true, false, not, ◌&&◌, ◌||◌, inl, List, ◌==◌,
}
use abyss.Tracee.State.{original, Tracee, waits_in_kernel, waits_in_proot}
use abyss.Tracee.Reg.{sysarg_1, sysarg_3, sysarg_result, peek_reg, poke_reg}
use abyss.Syscall.Current.{set_sysnum}
use abyss.Syscall.Sysnum.{pr_void}
use abyss.Syscall.Stages.{word_of}
use abyss.Tracees.Store.{null, World, Platform}
use abyss.Tracees.Post.{Post, ends, bind, branch, choose, mono}
use abyss.Tracees.Counts.{mult}
use abyss.Tracees.Remove.{stop_waiting}
use abyss.Tracees.Find.{any_pid, expected_wait_clone, get_ptracee}
use abyss.Tracees.Valid.{IsValid}
use abyss.Tracees.Safe.{
  Still-refl, Still-Good, Still-trans, Good, Good-trans, load-then, assert-then,
}
use abyss.Tracees.Safe.Quiet.{Quiet, Quiet-bind, Quiet-pure, Quiet-load, Quiet-modify, Quiet-if}
use abyss.Tracees.Safe.Commands.{
  poke_reg-LeavesLinks, set_sysnum-LeavesLinks, Quiet-restart, Quiet-push, Quiet-kill,
}
use abyss.Tracees.Safe.{listed_once}
use abyss.Ptrace.Wait.{
  sigchld, set_waits_in, set_event_proot, set_event_ptracer, start_tracing, Expected, unexpected,
  expected, filter_event, translate_wait_enter, wake, offer, notify, pass_on, handle_ptracee_event,
}
use abyss.Ptrace.Wait.Keeps.{update_wait_status-Good}

-- Whether PRoot handles an event before the ptracer does.
abbrev pub goes_first : Expected → Bool
goes_first unexpected = false
goes_first (expected event first starts keep_stopped) = first

true≢false : (b : Bool) → b ≡ true → b ≡ false → ⊥
true≢false b t f = ground arith

module _ {Memory : Type 0} (platform : Platform Memory) where
  pub Quiet-translate_wait_enter : (ptracer : ℕ) → Quiet (translate_wait_enter platform ptracer)
  unfolding translate_wait_enter set_waits_in
  Quiet-translate_wait_enter ptracer =
      Quiet-bind _ _ (Quiet-modify ptracer (set_waits_in waits_in_kernel) (λ t. refl)) λ _.
        Quiet-bind _ _ (Quiet-load ptracer) λ t.
          Quiet-if (t.as_ptracer.nb_ptracees == 0) _ _ (Quiet-pure 0) (record {
            post = λ w.
                choose
                  (not (peek_reg t original sysarg_1 % 2 ^ 32 == any_pid)
                    && (get_ptracee w ptracer (peek_reg t original sysarg_1 % 2 ^ 32) false true
                            (peek_reg t original sysarg_3)
                          == null
                        || not (
                            (w.cell (
                              get_ptracee w ptracer (peek_reg t original sysarg_1 % 2 ^ 32) false
                                true (peek_reg t original sysarg_3))).as_ptracee.ptracer
                            == ptracer)))
                  _ _ (λ _. ends (Still-refl w))
                  (λ _.
                    (Quiet-bind _ _
                        (Quiet-modify ptracer (λ u. set_sysnum platform.headers pr_void u)
                          (set_sysnum-LeavesLinks platform.headers pr_void))
                        λ _.
                          Quiet-bind _ _
                            (Quiet-modify ptracer (set_waits_in waits_in_proot) (λ u. refl))
                            λ _. Quiet-pure 0).post
                      w);
          })

  module _ {leaving : List ℕ} where
    wake-Good :
        (ptracer a : ℕ) (keep_stopped : Bool) (w : World Memory)
        → IsValid leaving w
        → 0 < mult a w.tracees
        → Post (λ _ w'. Good leaving w w') (wake platform ptracer a keep_stopped w)
    unfolding wake stop_waiting
    wake-Good ptracer a keep_stopped w v i =
        bind (update_wait_status-Good platform ptracer a w v (inl (listed_once a w v i)))
          λ status w1 g.
            mono
              ((Quiet-bind _ _
                  (Quiet-if (status == 0) _ _ (Quiet-pure tt) (
                    Quiet-modify ptracer (poke_reg sysarg_result (word_of status))
                      (poke_reg-LeavesLinks sysarg_result (word_of status))))
                  λ _. Quiet-bind _ _ (Quiet-push ptracer) λ _.
                    Quiet-bind _ _ (Quiet-modify ptracer stop_waiting (λ t. refl)) λ _.
                      Quiet-bind _ _ (Quiet-restart platform.kernel 0 ptracer)
                        λ restarted. Quiet-pure (restarted && keep_stopped)).post
                w1)
              λ _ w2 s. Good-trans g (Still-Good s g.valid)

    offer-Good :
        (r : Tracee) (ptracer a : ℕ) (keep_stopped : Bool) (w : World Memory)
        → IsValid leaving w
        → 0 < mult a w.tracees
        → Post (λ _ w'. Good leaving w w') (offer platform r ptracer a keep_stopped w)
    unfolding offer
    offer-Good r ptracer a keep_stopped w v i =
        let t = w.cell a in
        load-then w a _ λ _.
          branch
            ((r.as_ptracer.wait_pid == any_pid || r.as_ptracer.wait_pid == t.pid)
              && expected_wait_clone r.as_ptracer.wait_options t)
            _ _ (λ _. wake-Good ptracer a keep_stopped w v i)
            (λ _. ends (record { valid = v; grows = λ b j. j }))

    notify-Good :
        (ptracer a event : ℕ) (keep_stopped : Bool) (w : World Memory)
        → IsValid leaving w
        → 0 < mult a w.tracees
        → Post (λ _ w'. Good leaving w w') (notify platform ptracer a event keep_stopped w)
    unfolding notify set_event_ptracer
    notify-Good ptracer a event keep_stopped w v i =
        bind
          ((Quiet-modify a (set_event_ptracer (record { value = event; pending = true }))
              (λ t. refl)).post
            w)
          λ _ w1 s1. load-then w1 ptracer _ λ _.
            let r = w1.cell ptracer in
            bind {next = λ _. offer platform r ptracer a keep_stopped}
              ((Quiet-kill platform r.pid sigchld).post w1)
              λ _ w2 s2.
                let g = Still-Good (Still-trans s1 s2) v in
                mono (offer-Good r ptracer a keep_stopped w2 g.valid (g.grows a i))
                  (λ _ w3 g3. Good-trans g g3)

    pass_on-Good :
        (ptracer a : ℕ) (e : Expected) (w : World Memory)
        → goes_first e ≡ false
        → IsValid leaving w
        → 0 < mult a w.tracees
        → Post (λ _ w'. Good leaving w w') (pass_on platform ptracer a e w)
    unfolding pass_on start_tracing
    pass_on-Good ptracer a unexpected w later v i = ends (record { valid = v; grows = λ b j. j })
    pass_on-Good ptracer a (expected event first starts keep_stopped) w later v i =
        bind
          ((Quiet-if starts _ _ (Quiet-modify a start_tracing (λ t. refl)) (Quiet-pure tt)).post w)
          λ _ w1 s. load-then w1 a _ λ _.
            let g1 = Still-Good s v in
            branch (not (w1.cell a).as_ptracee.tracing_started) _ _ (λ _. ends g1)
              (λ _.
                bind
                  (branch {Q = λ _ w'. Good leaving w1 w'} first _ _
                    (λ e. absurd (true≢false first e later))
                    (λ _. ends (record { valid = g1.valid; grows = λ b j. j })))
                  λ _ w2 g2.
                    mono
                      (notify-Good ptracer a event keep_stopped w2 g2.valid
                        (g2.grows a (g1.grows a i)))
                      λ _ w3 g3. Good-trans g1 (Good-trans g2 g3))

    -- Behind an event that PRoot does not handle before the ptracer does, as a signal, the entry of a
    -- system call and the end of the ptracee, the counters nb_ptracees are right and all tracees
    -- are still listed, unless an assertion or a dereference fails.
    pub handle_ptracee_event-Good :
        (event a : ℕ) (w : World Memory)
        → goes_first (filter_event event (w.cell a)) ≡ false
        → IsValid leaving w
        → 0 < mult a w.tracees
        → Post (λ _ w'. Good leaving w w') (handle_ptracee_event platform event a w)
    unfolding handle_ptracee_event set_event_proot
    handle_ptracee_event-Good event a w later v i =
        let t = w.cell a in
        load-then w a _ λ _. assert-then w (not (t.as_ptracee.ptracer == null)) _ λ _.
          bind
            ((Quiet-modify a (set_event_proot (record { value = event; pending = true }))
                (λ u. refl)).post
              w)
            λ _ w1 s.
              let g1 = Still-Good s v in
              mono
                (pass_on-Good t.as_ptracee.ptracer a (filter_event event t) w1 later g1.valid
                  (g1.grows a i))
                λ _ w2 g2. Good-trans g1 g2
