-- ===== src/Tracees/Tests.antt =====
-- A tracee that traces one of its two children.
use abyss.Base.{ℕ, ◌≡◌, refl, true, false, some, [], ◌∷◌, inr, arith, ◌==◌, if◌then◌else◌, ok}
use abyss.Tracee.State.{Tracee, waits_in_proot, no_ptracer, new_dummy_tracee}
use abyss.Tracee.Reg.{peek_reg}
use abyss.Tracee.Flat.{flat}
use abyss.Syscall.Sysnum.{Headers}
use abyss.Syscall.Stages.{minus}
use abyss.Tracees.Store.{World, Kernel, Platform, reply, pure}
use abyss.Tracees.Post.{Post}
use abyss.Tracees.Counts.{mult, count}
use abyss.Tracees.Valid.{IsValid}
use abyss.Tracees.Safe.{Good}
use abyss.Tracees.Find.{is_wanted, get_ptracee}
use abyss.Tracees.Find.Sound.{IsFound, get_ptracee-IsFound, has_ptracees_complete}
use abyss.Tracees.Child.{new_child}
use abyss.Tracees.Child.Adopts.{new_child-Good}
use abyss.Ptrace.Wait.{translate_wait_exit, handle_ptracee_event, filter_event}
use abyss.Ptrace.Wait.Events.{handle_ptracee_event-Good}
use abyss.Ptrace.Wait.Keeps.{translate_wait_exit-Good}
use abyss.Ptrace.Requests.{wall, translate_ptrace_exit}
use abyss.Ptrace.Requests.Refused.{traced, translate_ptrace_exit-refused}

abbrev headers : Headers
headers = record { abi1 = 7 ∷ []; abi2 = []; abi3 = [] }

abbrev kernel : Kernel (ℕ → ℕ)
kernel = record {
  process = λ pid. flat;
  kill_granted = λ pid signal m. true;
  restart_granted = λ pid how signal m. true;
  calloc_granted = λ m. true;
  getregset = λ pid m. ok (λ j. 0);
  geteventmsg = λ pid m. reply 12;
  request = λ request pid address argument m. (reply 0, m);
  get_block = λ request pid address size m. reply [];
  set_block = λ request pid address block m. (reply tt, m);
  partial_word = λ address m. 0;
}

abbrev platform : Platform (ℕ → ℕ)
platform = record {
  kernel = kernel;
  headers = headers;
  errno = 0;
  handle_tracee_event = λ status a. pure 0;
}

-- The tracee at address 1 traces the one at address 2, its child, and waits.
abbrev parent_tracee : Tracee
unfolding new_dummy_tracee
parent_tracee = record new_dummy_tracee {
  pid = 10;
  as_ptracer = record {
    nb_ptracees = 1;
    zombies = [];
    wait_pid = 0;
    wait_options = 0;
    waits_in = waits_in_proot;
  };
}

abbrev traced_child : Tracee
unfolding new_dummy_tracee
traced_child = record new_dummy_tracee {
  pid = 11;
  parent = 1;
  as_ptracee = record no_ptracer { ptracer = 1; tracing_started = true };
}

-- The other child is not traced yet.
abbrev other_child : Tracee
unfolding new_dummy_tracee
other_child = record new_dummy_tracee { pid = 12; parent = 1 }

abbrev family : World (ℕ → ℕ)
unfolding new_dummy_tracee
family = record {
  cell = λ a.
      if a == 1
      then parent_tracee
      else if a == 2
      then traced_child
      else if a == 3
      then other_child
      else new_dummy_tracee;
  tracees = 3 ∷ 2 ∷ 1 ∷ [];
  next = 4;
  next_vpid = 4;
  memory = λ a. 0;
  calls = [];
}

family-IsValid : IsValid [] family
unfolding mult count new_dummy_tracee
family-IsValid = record {
  start = ground arith;
  not_null = refl;
  once = λ a. ground arith;
  known = λ a h. ground arith;
  linked = λ a i. ground arith;
  alive = λ a i. ground arith;
  zombie_once = λ p z. ground arith;
  zombie_linked = λ p z i. ground arith;
  zombie_apart = λ p z i. ground arith;
  zombie_known = λ p z i. ground arith;
  zombie_dead = λ p z i. ground arith;
  zombie_marked = λ p z i. ground arith;
  counted = λ p i. ground arith;
}

-- The traced child may not ask again.
translate_ptrace_exit-refused_example :
    translate_ptrace_exit platform 2 family ≡ some (minus 1, family)
unfolding family parent_tracee traced_child other_child new_dummy_tracee peek_reg
translate_ptrace_exit-refused_example =
    translate_ptrace_exit-refused platform family 2 1 (ground arith) (traced refl (ground arith))

translate_wait_exit-Good_example :
    Post (λ _ w'. Good [] family w') (translate_wait_exit platform 1 family)
translate_wait_exit-Good_example = translate_wait_exit-Good platform 1 family family-IsValid

new_child-Good_example : Post (λ _ w'. Good [] family w') (new_child platform 2 17 family)
unfolding mult family
new_child-Good_example = new_child-Good platform 2 17 family family-IsValid (omega arith)

get_ptracee-IsFound_example : IsFound family.cell family.tracees 1 11 wall true false 2
unfolding get_ptracee family
get_ptracee-IsFound_example = get_ptracee-IsFound family 1 11 true false wall 2 refl (ground arith)

has_ptracees_complete_example : is_wanted 12 wall (family.cell 2) ≡ false
unfolding mult family get_ptracee
has_ptracees_complete_example =
    has_ptracees_complete family 1 12 wall 2 refl refl (inr (omega arith, refl))

-- The traced child has ended.
handle_ptracee_event-Good_example :
    Post (λ _ w'. Good [] family w') (handle_ptracee_event platform 0 2 family)
unfolding mult family filter_event
handle_ptracee_event-Good_example =
    handle_ptracee_event-Good platform 0 2 family refl family-IsValid (omega arith)
