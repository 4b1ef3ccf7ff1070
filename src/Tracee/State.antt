-- ===== src/Tracee/State.antt =====
-- `struct tracee` of tracee/tracee.h: the fields that the model reads or writes.
use abyss.Base.{ℕ, Bool, false, List, [], Option, none}

pub data RegVersion : Type 0 where
  current original modified : RegVersion

-- `struct user_regs_struct` of a 64-bit ARM kernel, as the 32-bit words that it is made of: the
-- registers of a 64-bit process are pairs of them, those of a 32-bit process single ones.
abbrev pub Bank : Type 0
Bank = ℕ → ℕ

-- `struct chained_syscall` of syscall/chain.c.
pub record ChainedSyscall : Type 0 where
  pub sysnum : ℕ
  pub sysarg_1 : ℕ
  pub sysarg_2 : ℕ
  pub sysarg_3 : ℕ
  pub sysarg_4 : ℕ
  pub sysarg_5 : ℕ
  pub sysarg_6 : ℕ

-- What the pointer `chain.syscalls` is: NULL, a queue, or a queue that has been freed.
pub data Syscalls : Type 0 where
  no_syscalls freed : Syscalls
  queued : List ChainedSyscall → Syscalls

pub record Chain : Type 0 where
  pub syscalls : Syscalls
  pub force_final_result : Bool
  pub final_result : ℕ

-- `restart_how`: 0, or a request of ptrace(2).
pub data RestartHow : Type 0 where
  restart_unset ptrace_syscall ptrace_cont ptrace_singlestep ptrace_singleblock : RestartHow

pub data SeccompState : Type 0 where
  seccomp_disabled seccomp_disabling seccomp_active : SeccompState

pub data Sigstop : Type 0 where
  sigstop_ignored sigstop_allowed sigstop_pending : Sigstop

pub data WaitsIn : Type 0 where
  doesnt_wait waits_in_kernel waits_in_proot : WaitsIn

-- The tracer side of the emulation of ptrace(2). A tracee is named by its address, of which 0 is
-- NULL; `zombies` is the list of the addresses. `wait_pid` and the events are ints, in two's
-- complement.
pub record AsPtracer : Type 0 where
  pub nb_ptracees : ℕ
  pub zombies : List ℕ
  pub wait_pid : ℕ
  pub wait_options : ℕ
  pub waits_in : WaitsIn

-- `STRUCT_EVENT`
pub record StructEvent : Type 0 where
  pub value : ℕ
  pub pending : Bool

-- The tracee side.
pub record AsPtracee : Type 0 where
  pub ptracer : ℕ
  pub event_proot : StructEvent
  pub event_ptracer : StructEvent
  pub tracing_started : Bool
  pub ignore_loader_syscalls : Bool
  pub ignore_syscalls : Bool
  pub options : ℕ
  pub zombified : Bool

-- `status` is an int, in two's complement. `parent` is an address, and `parent_pid` the pid that
-- is read through it, `none` for NULL.
pub record Tracee : Type 0 where
  pub regs : RegVersion → Bank
  pub regs_were_changed : Bool
  pub restore_original_regs : Bool
  pub is_aarch32 : Bool
  pub chain : Chain
  pub pid : ℕ
  pub parent_pid : Option ℕ
  pub status : ℕ
  pub restart_how : RestartHow
  pub running : Bool
  pub user_context_data : ℕ
  pub seccomp : SeccompState
  pub sysexit_pending : Bool
  pub seccomp_detected : Bool
  pub seccomp_enabled : Bool
  pub is_root : Bool
  pub deliver_sigtrap : Bool
  pub sigstop : Sigstop
  pub vpid : ℕ
  pub terminated : Bool
  pub killall_on_exit : Bool
  pub parent : ℕ
  pub clone : Bool
  pub as_ptracer : AsPtracer
  pub as_ptracee : AsPtracee
  pub is_zombie : Bool

-- The fields as calloc(3) leaves them.
abbrev pub no_ptracees : AsPtracer
no_ptracees = record {
  nb_ptracees = 0;
  zombies = [];
  wait_pid = 0;
  wait_options = 0;
  waits_in = doesnt_wait;
}

abbrev pub no_event : StructEvent
no_event = record { value = 0; pending = false }

abbrev pub no_ptracer : AsPtracee
no_ptracer = record {
  ptracer = 0;
  event_proot = no_event;
  event_ptracer = no_event;
  tracing_started = false;
  ignore_loader_syscalls = false;
  ignore_syscalls = false;
  options = 0;
  zombified = false;
}

unfoldable pub new_dummy_tracee : Tracee
new_dummy_tracee = record {
  regs = λ version j. 0;
  regs_were_changed = false;
  restore_original_regs = false;
  is_aarch32 = false;
  chain = record { syscalls = no_syscalls; force_final_result = false; final_result = 0 };
  pid = 0;
  parent_pid = none;
  status = 0;
  restart_how = restart_unset;
  running = false;
  user_context_data = 0;
  seccomp = seccomp_disabled;
  sysexit_pending = false;
  seccomp_detected = false;
  seccomp_enabled = false;
  is_root = false;
  deliver_sigtrap = false;
  sigstop = sigstop_ignored;
  vpid = 0;
  terminated = false;
  killall_on_exit = false;
  parent = 0;
  clone = false;
  as_ptracer = no_ptracees;
  as_ptracee = no_ptracer;
  is_zombie = false;
}
