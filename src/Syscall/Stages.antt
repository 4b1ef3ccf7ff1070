-- ===== src/Syscall/Stages.antt =====
-- The two stages of a system call: `translate_syscall` of syscall/syscall.c,
-- `translate_syscall_enter` of syscall/enter.c and `translate_syscall_exit` of syscall/exit.c, with
-- HANDLE_SYSCALL. An int is in two's complement; `none` is a read outside a table or of freed
-- memory.
use abyss.Base.{
  ℕ, ◌+◌, ◌-◌, ◌%◌, ◌^◌, Bool, true, false, not, ◌&&◌, ◌||◌, Option, none, some, leb, ◌==◌,
  if◌then◌else◌, Result, ok, err, Errno, efault, einval, eloop, enametoolong, enoent, enoexec,
  enomem, erange,
}
use abyss.Tracee.State.{current, original, Bank, Tracee, WaitsIn, waits_in_proot}
use abyss.Tracee.Reg.{sysarg_1, sysarg_2, sysarg_3, sysarg_4, sysarg_result, peek_reg, poke_reg}
use abyss.Tracee.Process.{Process}
use abyss.Syscall.Sysnum.{Headers, pr_void}
use abyss.Syscall.Current.{get_sysnum, set_sysnum}
use abyss.Syscall.Args.{get_sysarg_path}

-- The places in sysnums.list.
abbrev pub pr_execve : ℕ
pr_execve = 58

abbrev pub pr_execveat : ℕ
pr_execveat = 59

abbrev pub pr_open : ℕ
pr_open = 214

abbrev pub pr_openat : ℕ
pr_openat = 216

abbrev pub pr_prctl : ℕ
pr_prctl = 228

abbrev pub pr_ptrace : ℕ
pr_ptrace = 237

abbrev pub pr_wait4 : ℕ
pr_wait4 = 400

abbrev pub pr_waitpid : ℕ
pr_waitpid = 402

abbrev pub pr_set_dumpable : ℕ
pr_set_dumpable = 4

-- The numbers of errno.h.
abbrev pub errno_number : Errno → ℕ
errno_number efault = 14
errno_number einval = 22
errno_number eloop = 40
errno_number enametoolong = 36
errno_number enoent = 2
errno_number enoexec = 8
errno_number enomem = 12
errno_number erange = 34

abbrev pub minus : ℕ → ℕ
minus n = 2 ^ 32 - n

abbrev pub enosys : ℕ
enosys = 38

-- `AT_FDCWD`
abbrev pub at_fdcwd : ℕ
at_fdcwd = minus 100

abbrev pub is_negative : ℕ → Bool
is_negative status = leb (2 ^ 31) status

-- `(word_t) status`
abbrev pub word_of : ℕ → ℕ
word_of status = if is_negative status then status + (2 ^ 64 - 2 ^ 32) else status

-- `struct syscall_data` of library.h; the tracee that `_internal` points to is passed beside it.
pub record SyscallData : Type 0 where
  pub tracee_pid : ℕ
  pub sysnum : ℕ
  pub user_context_data : ℕ

-- The components that the stages call, and the callbacks that the user of the library sets. All of
-- them work on the tracee and the memory; a callback also leaves its context data.
pub record Handlers (Memory : Type 0) : Type 0 where
  pub execve_enter : Tracee → Memory → ℕ × Tracee × Memory
  pub ptrace_enter : Tracee → Memory → ℕ × Tracee × Memory
  pub wait_enter : Tracee → Memory → ℕ × Tracee × Memory
  pub execve_exit : Tracee → Memory → Tracee × Memory
  pub ptrace_exit : Tracee → Memory → ℕ × Tracee × Memory
  pub wait_exit : Tracee → Memory → (ℕ × Bool) × Tracee × Memory
  pub on_sysenter : Option (SyscallData → Tracee → Memory → ℕ × Tracee × Memory)
  pub on_sysexit : Option (SyscallData → Tracee → Memory → Tracee × Memory)

-- What ptrace(2) answers to PTRACE_GETREGSET and PTRACE_SETREGSET.
pub record Answers : Type 0 where
  pub getregset : Result Bank
  pub setregset : Result (Unit {0})

-- The pid that the callbacks are given.
abbrev pub tracee_pid_of : Tracee → ℕ
tracee_pid_of tracee = elim tracee.parent_pid [ none ↦ tracee.pid | some parent ↦ parent ]

-- The status of `get_sysarg_path` as an int.
abbrev pub int_of : Result ℕ → ℕ
int_of (ok size) = size
int_of (err e) = minus (errno_number e)

unfoldable pub is_waiting : WaitsIn → Bool
is_waiting waits_in_proot = true
is_waiting _ = false

module _ {Memory : Type 0} (p : Process Memory) (headers : Headers) (handlers : Handlers Memory)
    (errno page_bits : ℕ) where
  -- The case PR_execveat.
  unfoldable pub execveat_enter : Tracee → Memory → ℕ × Tracee × Memory
  unfolding peek_reg poke_reg
  execveat_enter tracee m =
      if peek_reg tracee current sysarg_1 % 2 ^ 32 == at_fdcwd
      then (let t0 = set_sysnum headers pr_execve tracee in
          let t1 = poke_reg sysarg_1 (peek_reg t0 current sysarg_2) t0 in
          let t2 = poke_reg sysarg_2 (peek_reg t1 current sysarg_3) t1 in
          let t3 = poke_reg sysarg_3 (peek_reg t2 current sysarg_4) t2 in
          handlers.execve_enter t3 m)
      else (minus enosys, tracee, m)

  -- The switch on the number.
  unfoldable pub switch_enter : ℕ → Tracee → Memory → ℕ × Tracee × Memory
  unfolding execveat_enter get_sysarg_path peek_reg
  switch_enter sysnum tracee m =
      if sysnum == pr_execve
      then handlers.execve_enter tracee m
      else if sysnum == pr_execveat
      then execveat_enter tracee m
      else if sysnum == pr_ptrace
      then handlers.ptrace_enter tracee m
      else if sysnum == pr_wait4 || sysnum == pr_waitpid
      then handlers.wait_enter tracee m
      else if sysnum == pr_open
      then (0, tracee, m)
      else if sysnum == pr_openat
      then (int_of (get_sysarg_path p errno page_bits sysarg_2 tracee m).0, tracee, m)
      else if sysnum == pr_prctl && peek_reg tracee current sysarg_1 == pr_set_dumpable
      then (0, set_sysnum headers pr_void tracee, m)
      else (0, tracee, m)

  unfoldable pub translate_syscall_enter : Tracee → Memory → Option (ℕ × Tracee × Memory)
  unfolding switch_enter
  translate_syscall_enter tracee m = elim (get_sysnum headers original tracee) [
    | none ↦ none
    | some sysnum ↦ some (switch_enter sysnum tracee m)
  ]

  -- `poke_reg(tracee, SYSARG_RESULT, (word_t) status)`
  unfoldable pub give : ℕ × Tracee × Memory → Tracee × Memory
  unfolding poke_reg
  give (status, tracee, m) = (poke_reg sysarg_result (word_of status) tracee, m)

  unfoldable pub switch_exit : ℕ → Tracee → Memory → Tracee × Memory
  unfolding give is_waiting
  switch_exit sysnum tracee m =
      if sysnum == pr_execve
      then handlers.execve_exit tracee m
      else if sysnum == pr_ptrace
      then give (handlers.ptrace_exit tracee m)
      else if sysnum == pr_wait4 || sysnum == pr_waitpid
      then (if not (is_waiting tracee.as_ptracer.waits_in)
          then (tracee, m)
          else (let ((status, set_result), tracee', m') = handlers.wait_exit tracee m in
              if not set_result then (tracee', m') else give (status, tracee', m')))
      else (tracee, m)

  unfoldable pub translate_syscall_exit : Tracee → Memory → Option (Tracee × Memory)
  unfolding switch_exit give
  translate_syscall_exit tracee m =
      if is_negative tracee.status
      then some (give (tracee.status, tracee, m))
      else (elim (get_sysnum headers original tracee) [
        | none ↦ none
        | some sysnum ↦ some (switch_exit sysnum tracee m)
      ])
