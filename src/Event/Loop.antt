-- ===== src/Event/Loop.antt =====
-- `event_loop` of tracee/event.c, behind the setup of the signals: a round for each answer of
-- waitpid(2). The loop ends with an error of waitpid(2) other than ECHILD.
use abyss.Base.{
  ℕ, Bool, true, false, not, ◌&&◌, Option, none, some, List, [], ◌∷◌, ◌==◌, if◌then◌else◌,
}
use abyss.Tracee.State.{Tracee}
use abyss.Event.Stops.{wifexited, wexitstatus}
use abyss.Tracees.Store.{null, World, Cmd, Platform, pure, ◌>>=◌, ◌>>◌, load, modify, assert}
use abyss.Tracees.Find.{find_tracee, get_tracee}
use abyss.Tracees.Remove.{free_terminated_tracees}
use abyss.Ptrace.Attach.{restart}
use abyss.Ptrace.Wait.{handle_ptracee_event}

-- What waitpid(2) answers: a tracee and its status, ECHILD, or another error. With the status comes
-- the pid that is to be traced, `none` for -1, and whether PTRACE_ATTACH is granted for it.
pub data Waited : Type 0 where
  event : (pid status : ℕ) → (new_attach_pid : Option ℕ) → (attach_granted : Bool) → Waited
  no_child : Waited
  wait_error : Waited

-- A tracee that PTRACE_ATTACH has been called for.
unfoldable pub as_root : ℕ → Tracee → Tracee
as_root pid t = record t { pid = pid; is_root = true; deliver_sigtrap = false }

unfoldable pub set_running : Bool → Tracee → Tracee
set_running running t = record t { running = running }

module _ {Memory : Type 0} (platform : Platform Memory) where
  -- A helper process has ended: its exit status is the request to trace a process.
  unfoldable pub is_helper : (pid status : ℕ) → Option ℕ → World Memory → Bool
  unfolding find_tracee
  is_helper pid status none w = false
  is_helper pid status (some new_attach_pid) w =
      wifexited status
      && wexitstatus status == 255
      && (elim (find_tracee w.cell pid w.tracees) [ none ↦ true | some tracee ↦ false ])

  unfoldable pub trace_new : Option ℕ → (granted : Bool) → Cmd Memory (Unit {0})
  unfolding get_tracee modify as_root
  trace_new none granted = pure tt
  trace_new (some new_attach_pid) granted = if not granted then pure tt else (do
    new_tracee ← get_tracee platform.kernel null 0 true
    if new_tracee == null then pure tt else modify new_tracee (as_root new_attach_pid))

  -- The ptracer of a tracee may keep it stopped.
  unfoldable pub offer_event : (tracee status : ℕ) → Tracee → Cmd Memory Bool
  unfolding handle_ptracee_event
  offer_event tracee status t =
      if t.as_ptracee.ptracer == null
      then pure false
      else handle_ptracee_event platform status tracee

  unfoldable pub handle_event : (tracee status : ℕ) → Cmd Memory (Unit {0})
  unfolding load modify set_running offer_event restart
  handle_event tracee status = do
    assert (not (tracee == null))
    modify tracee (set_running false)
    t ← load tracee
    keep_stopped ← offer_event tracee status t
    if keep_stopped then pure tt else (do
      signal ← platform.handle_tracee_event status tracee
      restart platform.kernel signal tracee
      pure tt)

  unfoldable pub known_event : (pid status : ℕ) → Cmd Memory (Unit {0})
  unfolding get_tracee handle_event
  known_event pid status = do
    tracee ← get_tracee platform.kernel null pid true
    handle_event tracee status

  unfoldable pub on_event : (pid status : ℕ) → Option ℕ → (granted : Bool) → Cmd Memory (Unit {0})
  unfolding is_helper trace_new known_event
  on_event pid status new_attach_pid granted w =
      if is_helper pid status new_attach_pid w
      then trace_new new_attach_pid granted w
      else known_event pid status w

  -- The rounds, up to the first error.
  unfoldable pub event_loop : List Waited → Cmd Memory (Unit {0})
  unfolding free_terminated_tracees on_event
  event_loop [] = pure tt
  event_loop (wait_error ∷ rest) = free_terminated_tracees platform
  event_loop (no_child ∷ rest) = do free_terminated_tracees platform; event_loop rest
  event_loop (event pid status new_attach_pid granted ∷ rest) = do
    free_terminated_tracees platform
    on_event pid status new_attach_pid granted
    event_loop rest
