-- ===== src/Tracees/Child/Keeps.antt =====
-- `get_tracee` and `new_child` keep the invariant of the links.
use Prim.Native.Nat.{bit_and}
use abyss.Base.{
  false, ℕ, ◌+◌, ◌%◌, ◌^◌, ◌<◌, ◌≡◌, ◌≢◌, refl, Bool, not, ◌&&◌, ◌||◌, inl, inr, Option,
  Option-cases, none, some, List, ◌∷◌, arith, ◌==◌, if◌then◌else◌, Result, ok, err,
}
use abyss.Tracee.State.{current, Bank, Tracee, no_event, sigstop_allowed, new_dummy_tracee}
use abyss.Tracee.Reg.{sysarg_1, peek_reg, fetch_regs}
use abyss.Syscall.Current.{get_sysnum}
use abyss.Event.Stops.{sigstop_number}
use abyss.Tracees.Store.{
  null, World, Cmd, Kernel, Platform, set_cell, insert_head, take_vpid, new_tracee,
}
use abyss.Tracees.Post.{Post, ends, bind, branch, choose, mono}
use abyss.Tracees.Counts.{mult}
use abyss.Tracees.Find.{get_tracee, find_tracee}
use abyss.Tracees.Find.Sound.{find_tracee-found}
use abyss.Tracees.Valid.{IsValid, Same-valid}
use abyss.Tracees.Valid.Lists
use abyss.Tracees.Safe.{Still-Good, Good, Good-trans, load-then, modify-then, assert-then}
use abyss.Tracees.Safe.Quiet.{
  LeavesLinks, Quiet, Quiet-bind, Quiet-pure, Quiet-ask, Quiet-fault, Quiet-load, Quiet-modify,
  Quiet-if,
}
use abyss.Tracees.Safe.Commands.{Quiet-restart, attach-Good}
use abyss.Tracees.Safe.{listed_once}
use abyss.Tracees.Safe.Allocates.{new_dummy-then, allocated-IsValid, fresh_zombies}
use abyss.Ptrace.Wait.{filter_event, filter_stop, set_event_proot}
use abyss.Ptrace.Wait.Events.{goes_first, handle_ptracee_event-Good}
use abyss.Tracees.Child.{
  pr_clone, clone_ptrace, ptrace_options, inherited_options, w_stopcode, set_parent, parented,
  add_options, set_sigstop, is_pending, refetch, is_ok, on_sysnum, fetch, actual_flags,
  inherit_ptracer, notify_ptracer, restart_child,
}

module _ {Memory : Type 0} where
  -- A structure that was found or made.
  abbrev pub Got : List ℕ → World Memory → ℕ → World Memory → Type 0
  Got leaving w a w' = Good leaving w w' × (a ≢ null → 0 < mult a w'.tracees)

  new_tracee-Got :
      {leaving : List ℕ} (kernel : Kernel Memory) (pid : ℕ) (w : World Memory)
      → IsValid leaving w
      → Post (Got leaving w) (new_tracee kernel pid w)
  unfolding new_tracee take_vpid insert_head set_cell new_dummy_tracee mult
  new_tracee-Got {leaving} kernel pid w v =
      let a = w.next in
      let name : Tracee → Tracee = λ t. record t { pid = pid; vpid = w.next_vpid } in
      let w1 : World Memory = record w {
        cell = set_cell w.cell w.next new_dummy_tracee;
        next = w.next + 1;
      } in
      let w2 : World Memory = record w1 { next_vpid = (w.next_vpid + 1) % 2 ^ 64 } in
      let w3 : World Memory = record w2 {
        cell = set_cell w1.cell a (name (w1.cell a));
        tracees = a ∷ w.tracees;
      } in
      let v1 = allocated-IsValid w v in
      new_dummy-then kernel w _
        (branch (a == null) _ _ (λ e. absurd (ground (arith, v.start)))
          (λ _. modify-then w2 a name _ λ _. ends {w = w3} (
            record {
              valid =
                  Same-valid
                    (record {
                      ptracer = λ b. ground arith;
                      nb = λ b. ground arith;
                      zombies = λ b. ground arith;
                      dead = λ b. ground arith;
                      zombified = λ b. ground arith;
                    })
                    (Lists.inserted-IsValidAt v1 a (v.known a (omega arith)) (ground arith)
                      (omega arith) (ground arith) (ground arith) (ground arith) (ground arith)
                      (λ b i. ground (arith, v.linked b)) (λ q. fresh_zombies w q v));
              grows = λ b i. ground arith;
            },
            λ _. ground arith,
          )))
        (ends (record { valid = v; grows = λ b j. j }, λ ne. absurd (ne refl)))

  pub get_tracee-Got :
      {leaving : List ℕ} (kernel : Kernel Memory) (now pid : ℕ) (create : Bool) (w : World Memory)
      → IsValid leaving w
      → (now ≢ null → 0 < mult now w.tracees)
      → Post (Got leaving w) (get_tracee kernel now pid create w)
  unfolding get_tracee
  get_tracee-Got {leaving} kernel now pid create w v i =
      let same : Good leaving w w = record { valid = v; grows = λ b j. j } in
      choose (not (now == null) && (w.cell now).pid == pid) _ _
        (λ e. ends (same, λ _. i (ground (arith, e))))
        (λ e. elim (Option-cases (find_tracee w.cell pid w.tracees)) [
          | inl absent ↦ rw absent (
              choose create _ _ (λ _. new_tracee-Got kernel pid w v)
                (λ _. ends (same, λ ne. absurd (ne refl))))
          | inr (a, is) ↦ rw is (ends (same, λ _. find_tracee-found w.cell pid w.tracees is))
        ])

refetch-LeavesLinks : (answer : Result Bank) → LeavesLinks (refetch answer)
unfolding refetch fetch_regs
refetch-LeavesLinks (ok bank) t = refl
refetch-LeavesLinks (err e) t = refl

pub parented-LeavesLinks :
    (parent : ℕ) (p : Tracee) (flags : ℕ) → LeavesLinks (parented parent p flags)
unfolding parented set_parent
parented-LeavesLinks parent p flags t = ground arith

-- The ptracer handles the stop by SIGSTOP.
stop-later : (t : Tracee) → goes_first (filter_event (w_stopcode sigstop_number) t) ≡ false
unfolding filter_event filter_stop
stop-later t = refl

module _ {Memory : Type 0} (platform : Platform Memory) where
  Quiet-on_sysnum :
      {A : Type 0} (o : Option ℕ) (x : Cmd Memory A) (f : ℕ → Cmd Memory A)
      → Quiet x
      → ((n : ℕ) → Quiet (f n))
      → Quiet (on_sysnum o x f)
  Quiet-on_sysnum none x f q r = q
  Quiet-on_sysnum (some n) x f q r = r n

  pub Quiet-actual_flags : (parent flags : ℕ) → Quiet (actual_flags platform parent flags)
  unfolding actual_flags fetch
  Quiet-actual_flags parent flags =
      Quiet-bind {A = Bool} _ _
        (Quiet-bind _ _ (Quiet-load parent) λ t.
          Quiet-bind _ _ (Quiet-ask (platform.kernel.getregset t.pid)) λ answer.
            Quiet-bind _ _ (Quiet-modify parent (refetch answer) (refetch-LeavesLinks answer))
              λ _. Quiet-pure (is_ok answer))
        λ fetched. Quiet-if (not fetched) _ _ (Quiet-pure flags) (
          Quiet-bind _ _ (Quiet-load parent) λ t.
            Quiet-on_sysnum (get_sysnum platform.headers current t) _ _ Quiet-fault (λ sysnum.
              Quiet-pure (if sysnum == pr_clone then peek_reg t current sysarg_1 else flags)))

  module _ {leaving : List ℕ} where
    pub inherit_ptracer-Good :
        (child : ℕ) (p : Tracee) (flags : ℕ) (w : World Memory)
        → IsValid leaving w
        → 0 < mult child w.tracees
        → (w.cell child).as_ptracee.ptracer ≡ 0
        → p.as_ptracee.ptracer < w.next
        → Post (λ _ w'. Good leaving w w') (inherit_ptracer platform child p flags w)
    unfolding inherit_ptracer add_options
    inherit_ptracer-Good child p flags w v i free below =
        branch
          (not (p.as_ptracee.ptracer == null)
            && (not (bit_and (ptrace_options flags) p.as_ptracee.options == 0)
                || clone_ptrace flags))
          _ _
          (λ _.
            bind (attach-Good child p.as_ptracee.ptracer w v (listed_once child w v i) free below)
              λ _ w1 g.
                let options = bit_and p.as_ptracee.options inherited_options in
                mono ((Quiet-modify child (add_options options) (λ t. refl)).post w1)
                  (λ _ w2 s. Good-trans g (Still-Good s g.valid)))
          (λ _. ends (record { valid = v; grows = λ b j. j }))

    notify_ptracer-Good :
        (child : ℕ) (c : Tracee) (w : World Memory)
        → IsValid leaving w
        → 0 < mult child w.tracees
        → Post (λ _ w'. Good leaving w w') (notify_ptracer platform child c w)
    unfolding notify_ptracer set_event_proot
    notify_ptracer-Good child c w v i =
        branch (c.as_ptracee.ptracer == null) _ _
          (λ _. ends (record { valid = v; grows = λ b j. j }))
          (λ _. assert-then w (not c.as_ptracee.tracing_started) _ λ _.
            bind
              (handle_ptracee_event-Good platform (w_stopcode sigstop_number) child w
                (stop-later (w.cell child)) v i)
              λ keep w1 g.
                mono
                  ((Quiet-bind _ _ (Quiet-modify child (set_event_proot no_event) (λ t. refl))
                      λ _. Quiet-pure keep).post
                    w1)
                  (λ _ w2 s. Good-trans g (Still-Good s g.valid)))

    pub restart_child-Good :
        (child : ℕ) (w : World Memory)
        → IsValid leaving w
        → 0 < mult child w.tracees
        → Post (λ _ w'. Good leaving w w') (restart_child platform child w)
    unfolding restart_child set_sigstop
    restart_child-Good child w v i = load-then w child _ λ _.
        branch (not (is_pending (w.cell child).sigstop)) _ _
          (λ _. ends (record { valid = v; grows = λ b j. j }))
          (λ _.
            bind ((Quiet-modify child (set_sigstop sigstop_allowed) (λ t. refl)).post w) λ _ w1 s.
              let g1 = Still-Good s v in
              bind (notify_ptracer-Good child (w.cell child) w1 g1.valid (g1.grows child i))
                λ keep w2 g2.
                  mono
                    ((Quiet-if keep _ _ (Quiet-pure tt) (
                        Quiet-bind _ _ (Quiet-restart platform.kernel 0 child)
                          λ _. Quiet-pure tt)).post
                      w2)
                    (λ _ w3 s3. Good-trans g1 (Good-trans g2 (Still-Good s3 g2.valid))))
