-- ===== src/Tracees/Remove.antt =====
-- The end of a tracee: `terminate_tracee`, `kill_all_tracees`, `remove_tracee`, `remove_zombie`,
-- `before_tracee_free` and `free_terminated_tracees` of tracee/tracee.c.
use abyss.Base.{ℕ, Bool, true, not, ◌&&◌, ◌||◌, none, some, List, [], ◌∷◌, ◌==◌, if◌then◌else◌}
use abyss.Tracee.State.{Tracee, AsPtracee}
use abyss.Tracee.Reg.{sysarg_result, poke_reg}
use abyss.Syscall.Stages.{minus, word_of}
use abyss.Event.Stops.{wifexited, wifsignaled}
use abyss.Tracees.Store.{
  ask, null, Cmd, Kernel, Platform, kill_call, pure, ◌>>=◌, ◌>>◌, load, modify, log, new_dummy,
}
use abyss.Ptrace.Attach.{
  attach_to_ptracer, detach_from_ptracer, restart, push, set_ptracer, clear_ptracee,
}

abbrev pub sigkill : ℕ
sigkill = 9

abbrev pub echild : ℕ
echild = 10

-- `LIST_REMOVE`, which takes the structure out of the list that it stands in.
unfoldable pub list_remove : ℕ → List ℕ → List ℕ
list_remove a [] = []
list_remove a (b ∷ rest) = if b == a then rest else b ∷ list_remove a rest

unfoldable pub without_zombie : ℕ → Tracee → Tracee
unfolding list_remove
without_zombie zombie t = record t {
  as_ptracer = record t.as_ptracer { zombies = list_remove zombie t.as_ptracer.zombies };
}

unfoldable pub orphan : Tracee → Tracee
orphan t = record t { parent = null; parent_pid = none }

-- `zombie` is put into the list of its ptracer.
unfoldable pub with_zombie : ℕ → Tracee → Tracee
with_zombie zombie t = record t {
  as_ptracer = record t.as_ptracer { zombies = zombie ∷ t.as_ptracer.zombies };
}

-- The zombie that stands for a tracee, before and behind its attachment.
unfoldable pub stand_in : Tracee → Tracee → Tracee
stand_in t zombie = record zombie {
  is_zombie = true;
  parent = t.parent;
  parent_pid = t.parent_pid;
  clone = t.clone;
  pid = t.pid;
}

unfoldable pub zombify : ℕ → Tracee → Tracee
zombify event zombie = record zombie {
  as_ptracee = record zombie.as_ptracee {
    event_ptracer = record { value = event; pending = true };
    zombified = true;
  };
}

unfoldable pub stop_waiting : Tracee → Tracee
stop_waiting t = record t { as_ptracer = record t.as_ptracer { wait_pid = 0 } }

-- A tracee is not alive anymore.
abbrev pub is_end : ℕ → Bool
is_end event = wifexited event || wifsignaled event

module _ {Memory : Type 0} (platform : Platform Memory) where
  abbrev pub kernel : Kernel Memory
  kernel = platform.kernel

  unfoldable pub kill : (pid signal : ℕ) → Cmd Memory Bool
  unfolding log
  kill pid signal = do log (kill_call pid signal); ask (platform.kernel.kill_granted pid signal)

  unfoldable pub kill_each : List ℕ → Cmd Memory (Unit {0})
  unfolding load kill
  kill_each [] = pure tt
  kill_each (a ∷ rest) = do t ← load a; kill t.pid sigkill; kill_each rest

  unfoldable pub kill_all_tracees : Cmd Memory (Unit {0})
  unfolding kill_each
  kill_all_tracees w = kill_each w.tracees w

  unfoldable pub terminate_tracee : ℕ → Cmd Memory (Unit {0})
  unfolding modify load kill_all_tracees
  terminate_tracee tracee = do
    modify tracee (λ t. record t { terminated = true })
    t ← load tracee
    if t.killall_on_exit then kill_all_tracees else pure tt

  -- `LIST_REMOVE(tracee, link)`, from the list of tracees and from a list of zombies.
  unfoldable pub unlink_tracee : ℕ → Cmd Memory (Unit {0})
  unfolding list_remove
  unlink_tracee a w = some (tt, record w { tracees = list_remove a w.tracees })

  unfoldable pub remove_zombie : ℕ → Cmd Memory (Unit {0})
  unfolding without_zombie
  remove_zombie zombie w = some (tt, record w { cell = λ a. without_zombie zombie (w.cell a) })

  -- The pending event of a tracee that has lost its ptracer.
  unfoldable pub release_event : ℕ → AsPtracee → Cmd Memory (Unit {0})
  unfolding restart
  release_event a before =
      if before.event_proot.pending
      then (do
        event ← platform.handle_tracee_event before.event_proot.value a
        restart platform.kernel event a
        pure tt)
      else if before.event_ptracer.pending
      then (do restart platform.kernel before.event_proot.value a; pure tt)
      else pure tt

  -- The body of the loop over the relatives.
  unfoldable pub release : (tracee relative : ℕ) → Cmd Memory (Unit {0})
  unfolding load modify orphan set_ptracer clear_ptracee release_event
  release tracee relative = do
    r ← load relative
    if r.parent == tracee then modify relative orphan else pure tt
    if r.as_ptracee.ptracer == tracee
        then (do
          modify relative (set_ptracer null)
          release_event relative r.as_ptracee
          modify relative clear_ptracee)
        else pure tt

  unfoldable pub release_all : ℕ → List ℕ → Cmd Memory (Unit {0})
  unfolding release
  release_all tracee [] = pure tt
  release_all tracee (relative ∷ rest) = do release tracee relative; release_all tracee rest

  -- The ptracer is woken if there is nothing else to wait for.
  unfoldable pub leave_ptracer : (tracee ptracer : ℕ) → Cmd Memory (Unit {0})
  unfolding detach_from_ptracer load modify push restart poke_reg stop_waiting
  leave_ptracer tracee ptracer = do
    detach_from_ptracer tracee
    r ← load ptracer
    if r.as_ptracer.nb_ptracees == 0 && not (r.as_ptracer.wait_pid == 0)
        then (do
          modify ptracer (poke_reg sysarg_result (word_of (minus echild)))
          push ptracer
          modify ptracer stop_waiting
          restart platform.kernel 0 ptracer
          pure tt)
        else pure tt

  -- A zombie takes the place of the tracee.
  unfoldable pub leave_zombie : (tracee ptracer event zombie : ℕ) → Cmd Memory (Unit {0})
  unfolding load modify with_zombie stand_in zombify attach_to_ptracer detach_from_ptracer
  leave_zombie tracee ptracer event zombie = do
    modify ptracer (with_zombie zombie)
    t ← load tracee
    modify zombie (stand_in t)
    detach_from_ptracer tracee
    attach_to_ptracer zombie ptracer
    modify zombie (zombify event)

  unfoldable pub leave : ℕ → Cmd Memory (Unit {0})
  unfolding load new_dummy leave_zombie leave_ptracer
  leave tracee = do
    t ← load tracee
    let ptracer = t.as_ptracee.ptracer
    let event = t.as_ptracee.event_ptracer.value
    if ptracer == null
        then pure tt
        else if t.as_ptracee.event_ptracer.pending && is_end event
        then (do
          zombie ← new_dummy platform.kernel
          if zombie == null
              then leave_ptracer tracee ptracer
              else leave_zombie tracee ptracer event zombie)
        else leave_ptracer tracee ptracer

  unfoldable pub remove_tracee : ℕ → Cmd Memory (Unit {0})
  unfolding unlink_tracee release_all leave
  remove_tracee tracee = do unlink_tracee tracee; λ w. release_all tracee w.tracees w; leave tracee

  unfoldable pub before_tracee_free : ℕ → Cmd Memory (Unit {0})
  unfolding load remove_zombie remove_tracee
  before_tracee_free tracee =
      if tracee == null
      then pure tt
      else (do t ← load tracee; if t.is_zombie then remove_zombie tracee else remove_tracee tracee)

  -- The loop of `free_terminated_tracees`, over the tracees that are there when it starts.
  unfoldable pub free_each : List ℕ → Cmd Memory (Unit {0})
  unfolding load before_tracee_free
  free_each [] = pure tt
  free_each (a ∷ rest) = do
    t ← load a
    if t.terminated then before_tracee_free a else pure tt
    free_each rest

  unfoldable pub free_terminated_tracees : Cmd Memory (Unit {0})
  unfolding free_each
  free_terminated_tracees w = free_each w.tracees w
