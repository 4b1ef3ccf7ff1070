-- ===== src/Event/Stops.antt =====
-- Signals, events of ptrace(2), and the macros of sys/wait.h.
use abyss.Base.{ℕ, ◌+◌, ◌*◌, ◌/◌, ◌%◌, ◌^◌, Bool, ◌&&◌, leb, ltb, ◌==◌}

abbrev pub sigtrap : ℕ
sigtrap = 5

abbrev pub sigstop_number : ℕ
sigstop_number = 19

-- The events of ptrace(2).
abbrev pub event_fork : ℕ
event_fork = 1

abbrev pub event_vfork : ℕ
event_vfork = 2

abbrev pub event_clone : ℕ
event_clone = 3

abbrev pub event_exec : ℕ
event_exec = 4

abbrev pub event_vfork_done : ℕ
event_vfork_done = 5

abbrev pub event_exit : ℕ
event_exit = 6

abbrev pub event_seccomp : ℕ
event_seccomp = 7

abbrev pub event_seccomp2 : ℕ
event_seccomp2 = 8

abbrev pub clone_vfork : ℕ
clone_vfork = 0x4000

-- The macros of sys/wait.h.
abbrev pub wifexited : ℕ → Bool
wifexited status = status % 128 == 0

abbrev pub wexitstatus : ℕ → ℕ
wexitstatus status = status / 2 ^ 8 % 2 ^ 8

abbrev pub wifsignaled : ℕ → Bool
wifsignaled status = leb 1 (status % 128) && ltb (status % 128) 127

abbrev pub wifstopped : ℕ → Bool
wifstopped status = status % 2 ^ 8 == 127

-- `(tracee_status & 0xfff00) >> 8`
abbrev pub stop_of : ℕ → ℕ
stop_of status = status / 2 ^ 8 % 2 ^ 12

-- `SIGTRAP | event << 8`
abbrev pub trap_of : ℕ → ℕ
trap_of event = sigtrap + event * 2 ^ 8

-- `SIGTRAP | 0x80`
abbrev pub syscall_trap : ℕ
syscall_trap = 0x85
