-- ===== src/Tracees/Find.antt =====
-- The searches in the lists: `get_ptracee`, `get_stopped_ptracee`, `has_ptracees` and `get_tracee` of
-- tracee/tracee.c. A pid is an int, in two's complement.
pub mod Sound
use abyss.Base.{
  ℕ, ◌/◌, ◌%◌, ◌^◌, Bool, true, false, not, ◌&&◌, ◌||◌, Option, none, some, List, [], ◌∷◌, ◌==◌,
  if◌then◌else◌,
}
use abyss.Tracee.State.{Tracee}
use abyss.Syscall.Stages.{minus}
use abyss.Tracees.Store.{null, World, Cmd, Kernel, pure, new_tracee}

-- `flags & (1 << i)`
abbrev pub bit : ℕ → ℕ → Bool
bit i flags = flags / 2 ^ i % 2 == 1

-- `__WALL` and `__WCLONE`.
abbrev pub is_wall : ℕ → Bool
is_wall options = bit 30 options

abbrev pub is_wclone : ℕ → Bool
is_wclone options = bit 31 options

abbrev pub any_pid : ℕ
any_pid = minus 1

-- `EXPECTED_WAIT_CLONE` of ptrace/wait.h.
unfoldable pub expected_wait_clone : ℕ → Tracee → Bool
expected_wait_clone wait_options tracee =
    is_wall wait_options
    || (is_wclone wait_options && tracee.clone)
    || (not (is_wclone wait_options) && not tracee.clone)

-- The tests on the pid and on the kind that both loops start with.
unfoldable pub is_wanted : ℕ → ℕ → Tracee → Bool
unfolding expected_wait_clone
is_wanted pid wait_options t =
    (pid == t.pid || pid == any_pid) && expected_wait_clone wait_options t

module _ (cell : ℕ → Tracee) (pid wait_options : ℕ) where
  -- The loop over the zombies.
  unfoldable pub find_zombie : List ℕ → Option ℕ
  unfolding is_wanted
  find_zombie [] = none
  find_zombie (a ∷ rest) = if is_wanted pid wait_options (cell a) then some a else find_zombie rest

  -- The loop over the tracees.
  unfoldable pub find_ptracee : (ptracer : ℕ) (only_stopped only_with_pevent : Bool) → List ℕ → ℕ
  unfolding is_wanted
  find_ptracee ptracer only_stopped only_with_pevent [] = null
  find_ptracee ptracer only_stopped only_with_pevent (a ∷ rest) =
      let t = cell a in
      let others = find_ptracee ptracer only_stopped only_with_pevent rest in
      if not (t.as_ptracee.ptracer == ptracer) || not (is_wanted pid wait_options t)
      then others
      else if not only_stopped
      then a
      else if t.running
      then others
      else if t.as_ptracee.event_ptracer.pending || not only_with_pevent
      then a
      else if pid == t.pid
      then null
      else others

module _ {Memory : Type 0} (w : World Memory) where
  unfoldable pub get_ptracee :
      (ptracer pid : ℕ) (only_stopped only_with_pevent : Bool) (wait_options : ℕ) → ℕ
  unfolding find_zombie find_ptracee
  get_ptracee ptracer pid only_stopped only_with_pevent wait_options =
      elim (find_zombie w.cell pid wait_options (w.cell ptracer).as_ptracer.zombies) [
        | some zombie ↦ zombie
        | none ↦
            find_ptracee w.cell pid wait_options ptracer only_stopped only_with_pevent w.tracees
      ]

  abbrev pub get_stopped_ptracee : (ptracer pid : ℕ) (only_with_pevent : Bool) → ℕ → ℕ
  get_stopped_ptracee ptracer pid only_with_pevent wait_options =
      get_ptracee ptracer pid true only_with_pevent wait_options

  abbrev pub has_ptracees : (ptracer pid wait_options : ℕ) → Bool
  has_ptracees ptracer pid wait_options =
      not (get_ptracee ptracer pid false false wait_options == null)

-- The loop of `get_tracee`.
unfoldable pub find_tracee : (ℕ → Tracee) → ℕ → List ℕ → Option ℕ
find_tracee cell pid [] = none
find_tracee cell pid (a ∷ rest) = if (cell a).pid == pid then some a else find_tracee cell pid rest

module _ {Memory : Type 0} where
  unfoldable pub get_tracee :
      Kernel Memory → (current_tracee pid : ℕ) (create : Bool) → Cmd Memory ℕ
  unfolding find_tracee new_tracee
  get_tracee kernel current_tracee pid create w =
      if not (current_tracee == null) && (w.cell current_tracee).pid == pid
      then some (current_tracee, w)
      else (elim (find_tracee w.cell pid w.tracees) [
        | some tracee ↦ some (tracee, w)
        | none ↦ if create then new_tracee kernel pid w else some (null, w)
      ])
