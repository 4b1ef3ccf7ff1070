-- ===== src/Tracees/Child/Adopts.antt =====
-- `new_child` keeps the invariant of the links.
use mathlib.Core.Path.{subst}
use abyss.Base.{ℕ, ◌%◌, ◌^◌, ◌<◌, ◌≡◌, ◌≢◌, refl, sym, ap, ◌∙◌, true, ◌&&◌, List, arith, ◌==◌}
use abyss.Tracee.State.{Tracee}
use abyss.Syscall.Stages.{minus}
use abyss.Tracees.Store.{null, World, Platform, Reply, reply, failure, pure, on_reply}
use abyss.Tracees.Post.{Post, ends, bind, branch, mono}
use abyss.Tracees.Counts.{mult}
use abyss.Tracees.Valid.{IsValid}
use abyss.Tracees.Safe.{Still-Good, Good, Good-trans, load-then, assert-then}
use abyss.Tracees.Safe.Quiet.{Quiet, Quiet-bind, Quiet-modify}
use abyss.Tracees.Child.{inherit, parented, settle, adopt, adopt_found, adopt_pid, new_child}
use abyss.Tracees.Child.Keeps.{
  get_tracee-Got, parented-LeavesLinks, Quiet-actual_flags, inherit_ptracer-Good,
  restart_child-Good,
}

module _ {Memory : Type 0} (platform : Platform Memory) where
  Quiet-settle :
      (parent child flags : ℕ) (p : Tracee) → Quiet (settle platform parent child flags p)
  unfolding settle inherit
  Quiet-settle parent child flags p =
      Quiet-bind _ _ (Quiet-modify child (inherit p) (λ t. refl))
        λ _. Quiet-modify child (parented parent p flags) (parented-LeavesLinks parent p flags)

  adopt-Good :
      {leaving : List ℕ} (parent child flags : ℕ) (w : World Memory)
      → IsValid leaving w
      → 0 < mult parent w.tracees
      → 0 < mult child w.tracees
      → Post (λ _ w'. Good leaving w w') (adopt platform parent child flags w)
  unfolding adopt
  adopt-Good parent child flags w v i j =
      let c = w.cell child in
      let p = w.cell parent in
      load-then w child _ λ _.
        assert-then w (c.parent == null && c.as_ptracee.ptracer == null) _ λ free.
          load-then w parent _ λ _. bind ((Quiet-settle parent child flags p).post w) λ _ w1 s.
            let g1 = Still-Good s v in
            let unbound : (w.cell child).as_ptracee.ptracer ≡ 0 = ground arith in
            let below : p.as_ptracee.ptracer < w.next = v.linked parent (omega (arith, i)) in
            bind
              (inherit_ptracer-Good platform child p flags w1 g1.valid (g1.grows child j)
                (ap (λ l. l.ptracer child) s.same_links ∙ unbound)
                (subst (λ n. p.as_ptracee.ptracer < n) (sym s.same_next) below))
              λ _ w2 g2.
                mono
                  (restart_child-Good platform child w2 g2.valid
                    (g2.grows child (g1.grows child j)))
                  (λ _ w3 g3. Good-trans g1 (Good-trans g2 g3))

  adopt_found-Good :
      {leaving : List ℕ} (parent flags child : ℕ) (w : World Memory)
      → IsValid leaving w
      → 0 < mult parent w.tracees
      → (child ≢ null → 0 < mult child w.tracees)
      → Post (λ _ w'. Good leaving w w') (adopt_found platform parent flags child w)
  unfolding adopt_found
  adopt_found-Good parent flags child w v i j =
      branch (child == null) _ _ (λ _. ends (record { valid = v; grows = λ b k. k }))
        (λ e. bind (adopt-Good parent child flags w v i (j (ground arith))) λ _ w1 g. ends g)

  adopt_pid-Good :
      {leaving : List ℕ} (parent flags pid : ℕ) (w : World Memory)
      → IsValid leaving w
      → 0 < mult parent w.tracees
      → Post (λ _ w'. Good leaving w w') (adopt_pid platform parent flags pid w)
  unfolding adopt_pid
  adopt_pid-Good parent flags pid w v i =
      branch (pid == 0) _ _ (λ _. ends (record { valid = v; grows = λ b k. k }))
        (λ _.
          bind (get_tracee-Got platform.kernel parent (pid % 2 ^ 32) true w v (λ _. i))
            λ child w1 (g, got).
              mono (adopt_found-Good parent flags child w1 g.valid (g.grows parent i) got)
                (λ _ w2 g2. Good-trans g g2))

  on_message :
      {leaving : List ℕ} (parent flags : ℕ) (message : Reply ℕ) (w : World Memory)
      → IsValid leaving w
      → 0 < mult parent w.tracees
      → Post
          (λ _ w'. Good leaving w w')
          (on_reply message (λ _. pure (minus 1)) (λ pid. adopt_pid platform parent flags pid) w)
  on_message parent flags (failure errno) w v i = ends (record { valid = v; grows = λ b k. k })
  on_message parent flags (reply pid) w v i = adopt_pid-Good parent flags pid w v i

  -- Behind `new_child`, for a listed parent, the counters nb_ptracees are right and all tracees are
  -- still listed, provided that `handle_tracee_event` keeps this and no assertion or dereference
  -- fails.
  pub new_child-Good :
      {leaving : List ℕ} (parent flags : ℕ) (w : World Memory)
      → IsValid leaving w
      → 0 < mult parent w.tracees
      → Post (λ _ w'. Good leaving w w') (new_child platform parent flags w)
  unfolding new_child
  new_child-Good parent flags w v i =
      bind ((Quiet-actual_flags platform parent flags).post w) λ actual w1 s.
        let g1 = Still-Good s v in
        load-then w1 parent _ λ _.
          mono
            (on_message parent actual (platform.kernel.geteventmsg (w1.cell parent).pid w1.memory)
              w1 g1.valid (g1.grows parent i))
            (λ _ w2 g2. Good-trans g1 g2)
