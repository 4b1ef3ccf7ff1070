-- ===== src/Ptrace/Requests/Refused.antt =====
-- The requests of ptrace(2) that are refused.
use abyss.Base.{
  ℕ, ◌%◌, ◌^◌, ◌≡◌, ◌≢◌, ◌⊎◌, ◌-◌, refl, ◌∙◌, true, false, not, ◌||◌, inl, inr, Bool-cases, none,
  some, arith, ◌==◌,
}
use abyss.Tracee.State.{original}
use abyss.Tracee.Reg.{sysarg_1, sysarg_2, sysarg_3, sysarg_4, peek_reg}
use abyss.Syscall.Stages.{minus}
use abyss.Tracees.Store.{null, World, Platform}
use abyss.Tracees.Find.{get_stopped_ptracee, get_tracee, find_tracee}
use abyss.Tracees.Find.Sound.{IsFound, get_ptracee-IsFound}
use abyss.Ptrace.Request
use abyss.Ptrace.Requests.{
  eperm, esrch, wall, attach_found, attach_request, traceme_request, stopped_request, signed_pid,
  translate_ptrace_exit,
}
use abyss.Tracees.Store.{load}

module _ {Memory : Type 0} (platform : Platform Memory) (w : World Memory) (a : ℕ) where
  abbrev request_of : ℕ
  request_of = peek_reg (w.cell a) original sysarg_1

  abbrev pid_of : ℕ
  pid_of = signed_pid platform (w.cell a) (peek_reg (w.cell a) original sysarg_2) % 2 ^ 32

  -- The requests of the tracee with the address `a` that ptrace(2) does not allow: to be traced
  -- twice, or by itself; to trace itself, what is not known, or what is traced already; and any
  -- request to what is no stopped ptracee of its own, to one that has ended, and to the pid -1.
  pub data IsRefused : ℕ → Type 0 where
    traced : request_of ≡ Request.traceme → (w.cell a).as_ptracee.ptracer ≢ null → IsRefused eperm
    own_parent : request_of ≡ Request.traceme → (w.cell a).parent ≡ a → IsRefused eperm
    unknown :
        request_of ≡ Request.attach
        → (w.cell a).pid ≢ pid_of
        → find_tracee w.cell pid_of w.tracees ≡ none
        → IsRefused esrch
    taken :
        (b : ℕ)
        → b ≢ null
        → request_of ≡ Request.attach
        → (w.cell a).pid ≢ pid_of
        → find_tracee w.cell pid_of w.tracees ≡ some b
        → (w.cell b).as_ptracee.ptracer ≢ null
        → IsRefused eperm
    own_pid :
        request_of ≡ Request.attach
        → ((w.cell a).pid ≡ pid_of)
          ⊎ (((w.cell a).pid ≢ pid_of) × (find_tracee w.cell pid_of w.tracees ≡ some a))
        → IsRefused eperm
    ended :
        request_of ≢ Request.traceme
        → request_of ≢ Request.attach
        → (w.cell (get_stopped_ptracee w a pid_of false wall)).as_ptracee.zombified ≡ true
        → IsRefused esrch
    foreign :
        request_of ≢ Request.traceme
        → request_of ≢ Request.attach
        → (w.cell (get_stopped_ptracee w a pid_of false wall)).as_ptracee.ptracer ≢ a
        → IsRefused esrch
    no_pid :
        request_of ≢ Request.traceme
        → request_of ≢ Request.attach
        → signed_pid platform (w.cell a) (peek_reg (w.cell a) original sysarg_2) ≡ 2 ^ 64 - 1
        → IsRefused esrch
    not_stopped :
        request_of ≢ Request.traceme
        → request_of ≢ Request.attach
        → ((b : ℕ) → ¬ (IsFound w.cell w.tracees a pid_of wall true false b))
        → IsRefused esrch

  traceme_refused :
      a ≢ null
      → not ((w.cell a).as_ptracee.ptracer == null) || a == (w.cell a).parent ≡ true
      → traceme_request platform a (w.cell a).parent w ≡ some (minus eperm, w)
  unfolding traceme_request load
  traceme_refused nonnull e = ground arith

  exit-traceme :
      a ≢ null
      → request_of ≡ Request.traceme
      → translate_ptrace_exit platform a w ≡ traceme_request platform a (w.cell a).parent w
  unfolding translate_ptrace_exit load
  exit-traceme nonnull is = ground arith

  exit-attach :
      a ≢ null
      → request_of ≡ Request.attach
      → translate_ptrace_exit platform a w ≡ attach_request platform a pid_of w
  unfolding translate_ptrace_exit load
  exit-attach nonnull is = ground arith

  attach_unknown :
      (w.cell a).pid ≢ pid_of
      → find_tracee w.cell pid_of w.tracees ≡ none
      → attach_request platform a pid_of w ≡ some (minus esrch, w)
  unfolding attach_request attach_found get_tracee
  attach_unknown other absent = ground arith

  attach_taken :
      (b : ℕ)
      → b ≢ null
      → (w.cell a).pid ≢ pid_of
      → find_tracee w.cell pid_of w.tracees ≡ some b
      → (w.cell b).as_ptracee.ptracer ≢ null
      → attach_request platform a pid_of w ≡ some (minus eperm, w)
  unfolding attach_request attach_found get_tracee load
  attach_taken b ne other found held = ground arith

  attach_self : a ≢ null → attach_found platform a pid_of a w ≡ some (minus eperm, w)
  unfolding attach_found load
  attach_self nonnull = ground arith

  attach_own :
      a ≢ null
      → (w.cell a).pid ≡ pid_of
      → attach_request platform a pid_of w ≡ attach_found platform a pid_of a w
  unfolding attach_request get_tracee
  attach_own nonnull same = ground arith

  attach_listed :
      (w.cell a).pid ≢ pid_of
      → find_tracee w.cell pid_of w.tracees ≡ some a
      → attach_request platform a pid_of w ≡ attach_found platform a pid_of a w
  unfolding attach_request get_tracee
  attach_listed other found = ground arith

  -- The test behind the search.
  insane_refused :
      (request pid address argument : ℕ)
      → (w.cell (get_stopped_ptracee w a (pid % 2 ^ 32) false wall)).as_ptracee.zombified
          || not
              ((w.cell (get_stopped_ptracee w a (pid % 2 ^ 32) false wall)).as_ptracee.ptracer == a)
          || pid == 2 ^ 64 - 1
        ≡ true
      → stopped_request platform a request pid address argument w ≡ some (minus esrch, w)
  unfolding stopped_request load
  insane_refused request pid address argument e = ground arith

  stopped_refused :
      (request pid address argument : ℕ)
      → get_stopped_ptracee w a (pid % 2 ^ 32) false wall ≡ null
      → stopped_request platform a request pid address argument w ≡ some (minus esrch, w)
  unfolding stopped_request
  stopped_refused request pid address argument e = ground arith

  exit-stopped :
      a ≢ null
      → request_of ≢ Request.traceme
      → request_of ≢ Request.attach
      → translate_ptrace_exit platform a w
        ≡ stopped_request platform a request_of
            (signed_pid platform (w.cell a) (peek_reg (w.cell a) original sysarg_2))
            (peek_reg (w.cell a) original sysarg_3)
            (peek_reg (w.cell a) original sysarg_4)
            w
  unfolding translate_ptrace_exit load
  exit-stopped nonnull not_traceme not_attach = ground arith

  none_found :
      ((b : ℕ) → ¬ (IsFound w.cell w.tracees a pid_of wall true false b))
      → get_stopped_ptracee w a pid_of false wall ≡ null
  none_found nothing =
      let b = get_stopped_ptracee w a pid_of false wall in
      elim (Bool-cases (b == null)) [
        | inl e ↦ ground arith
        | inr e ↦
            absurd
              (nothing b (get_ptracee-IsFound w a pid_of true false wall b refl (ground arith)))
      ]

  -- A request of a tracee that ptrace(2) does not allow changes nothing. It is answered with EPERM
  -- where a tracee is traced already or would trace itself, by PTRACE_TRACEME or PTRACE_ATTACH; and
  -- with ESRCH where no tracee with the pid is to be attached, and, for any other request, where
  -- there is no stopped ptracee of the caller with the pid, it has ended, or the pid is -1.
  pub translate_ptrace_exit-refused :
      (error : ℕ)
      → a ≢ null
      → IsRefused error
      → translate_ptrace_exit platform a w ≡ some (minus error, w)
  translate_ptrace_exit-refused error nonnull (traced is ne) =
      exit-traceme nonnull is ∙ traceme_refused nonnull (ground arith)
  translate_ptrace_exit-refused error nonnull (own_parent is same) =
      exit-traceme nonnull is ∙ traceme_refused nonnull (ground arith)
  translate_ptrace_exit-refused error nonnull (unknown is other absent) =
      exit-attach nonnull is ∙ attach_unknown other absent
  translate_ptrace_exit-refused error nonnull (taken b ne is other found held) =
      exit-attach nonnull is ∙ attach_taken b ne other found held
  translate_ptrace_exit-refused error nonnull (own_pid is (inl same)) =
      exit-attach nonnull is ∙ attach_own nonnull same ∙ attach_self nonnull
  translate_ptrace_exit-refused error nonnull (own_pid is (inr (other, found))) =
      exit-attach nonnull is ∙ attach_listed other found ∙ attach_self nonnull
  translate_ptrace_exit-refused error nonnull (ended not_traceme not_attach dead) =
      exit-stopped nonnull not_traceme not_attach ∙ insane_refused _ _ _ _ (ground arith)
  translate_ptrace_exit-refused error nonnull (foreign not_traceme not_attach other) =
      exit-stopped nonnull not_traceme not_attach ∙ insane_refused _ _ _ _ (ground arith)
  translate_ptrace_exit-refused error nonnull (no_pid not_traceme not_attach all) =
      exit-stopped nonnull not_traceme not_attach ∙ insane_refused _ _ _ _ (ground arith)
  translate_ptrace_exit-refused error nonnull (not_stopped not_traceme not_attach nothing) =
      exit-stopped nonnull not_traceme not_attach ∙ stopped_refused _ _ _ _ (none_found nothing)
