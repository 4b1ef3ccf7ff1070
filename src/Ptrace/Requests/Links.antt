-- ===== src/Ptrace/Requests/Links.antt =====
-- The requests that attach and detach keep the invariant of the links, and so does the emulated
-- ptrace(2) with any request.
use abyss.Base.{ℕ, ◌<◌, ◌≡◌, Bool, false, ◌||◌, Option, none, some, List, ◌==◌}
use abyss.Tracee.State.{Tracee}
use abyss.Tracees.Store.{◌>>=◌, World, Cmd, Platform, ◌>>◌}
use abyss.Tracees.Post.{Post}
use abyss.Tracees.Counts.{mult}
use abyss.Tracees.Valid.{IsValid}
use abyss.Tracees.Safe.{Good}
use abyss.Tracees.Safe.Quiet.{Quiet}
use abyss.Ptrace.Request

module _ {Memory : Type 0} (platform : Platform Memory) (leaving : List ℕ) where
  -- PRoot has handled the event of a tracee.
  abbrev IsHandled : ℕ → World Memory → Type 0
  IsHandled a w = (w.cell a).as_ptracee.event_proot.pending ≡ false

  -- A command that is run on a tracee whose event has been handled, where there is one.
  OnHandled : (a : ℕ) → Option (Cmd Memory ℕ) → Type 0
  OnHandled a none = Unit {0}
  OnHandled a (some cmd) =
      (w : World Memory)
      → IsValid leaving w
      → 0 < mult a w.tracees
      → IsHandled a w
      → Post (λ _ w'. Good leaving w w') (cmd w)

  -- The requests that restart a ptracee.
  abbrev pub restarts : ℕ → Bool
  restarts request =
      request == Request.syscall
      || request == Request.cont
      || request == Request.singlestep
      || request == Request.singleblock
      || request == Request.detach
      || request == Request.kill
