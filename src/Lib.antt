-- ===== src/Lib.antt =====
-- The part of Abyss, a port of PRoot to Android, that decides what a traced program may do: the
-- paths it names, the numbers of its system calls, the filter that stops it at them, and what is
-- done at such a stop. The C code is under library/src/main/jni.
--
-- Base: Boolean tests, lists over the native ℕ, and results with an errno.
--
-- Path: path/path.c and path/canon.c. A C string is the list of its bytes without the terminator
-- (Path/Str), and Path/Components reads it as the list of names between its separators, which is
-- the abstract view that the results speak of.
--   Path/Join: `join_paths`, with the buffer that it leaves. A NULL argument is `none`.
--   Path/Canon: `next_component`, `pop_component`, `canonicalize` and `chop_finality`. The loop of
--     `canonicalize` runs on fuel; each round but the last takes at least one byte off the cursor,
--     so one more than the length of the path is enough. Where the C code goes on to dereference
--     a link, the test in front of it always holds, and the model ends the round there.
--   Path/Compare: `compare_paths` and `compare_paths2`.
--   Path/Prefix: `substitute_path_prefix`, with the size_t that it returns.
--
-- Tracee: tracee/reg.c and tracee/mem.c, built for arm64. Tracee/State has the fields of
-- `struct tracee` that are read or written. A bank of registers is the array of its 32-bit words, which a 64-bit tracee
-- uses in pairs and a 32-bit tracee one by one.
--   Tracee/Reg: `peek_reg`, `poke_reg`, `save_current_regs`, `fetch_regs` and `push_regs`, with the
--     requests that it makes of ptrace(2).
--   Tracee/Process: what is used of the kernel to reach the memory of a tracee, with its laws;
--     Tracee/Flat has two processes that meet them.
--   Tracee/Mem: `write_data`, `read_data`, and in Tracee/Mem/Vectors `writev_data` and `clear_mem`.
--     The value of errno at a call is an argument.
--   Tracee/Strings: `read_string` and `read_path`. The loop over the chunks runs on fuel; every
--     chunk has at least one byte, so one more than the size of the buffer is enough
--     (Tracee/Strings/Fuel).
--   Tracee/Alloc: `alloc_mem`.
--
-- Syscall/Args: `get_sysarg_path`, `set_sysarg_data` and `set_sysarg_path` of syscall/syscall.c, on
-- the registers and the memory of Tracee.
-- Syscall/Sysnum: syscall/sysnum.c. The tables that the build selects are an argument. A read
-- outside a table is `none`.
--   Syscall/Current: `get_sysnum` and `set_sysnum`, on the registers of Tracee.
--   Syscall/Chain: syscall/chain.c. The pointer to the queue is NULL, a queue, or freed; `none`
--     where the code fails an assertion, reads freed memory or writes past a block.
--   Syscall/Stages: `translate_syscall_enter` and `translate_syscall_exit` of syscall/enter.c and
--     syscall/exit.c. The components behind the cases of execve, ptrace and wait, and the callbacks
--     of the library's user, are an interface, `Handlers`. An int is its two's complement.
--   Syscall/Translate: `translate_syscall` of syscall/syscall.c, on fetch_regs, push_regs and the
--     chained system calls; `none` where one of these reads what it must not.
--
-- Event: tracee/event.c.
--   Event/Stops: the signals, the events of ptrace(2) and the macros on the status of a tracee.
--   Event/Handle: `handle_tracee_event` and `restart_tracee`. The stops at system calls go to
--     Syscall/Translate, forks and ends to an interface, `Listeners`.
--   Event/Pending: the flag `sysexit_pending` and the stages.
--   Event/Loop: the rounds of `event_loop`, for the list of what waitpid(2) answers. They run on the
--     structures of Tracees.
--
-- Tracees: tracee/tracee.c. A structure is named by its address, 0 is NULL, and an address is not
-- given out again. Tracees/Store has the world: the structures, the list of tracees, the allocator
-- and the calls that are made. A command on it is `none` where the C code goes through NULL or fails
-- an assertion. The kernel and the C library are an argument, `Kernel`; `handle_tracee_event`, which
-- calls back into the commands, is one of `Platform`; no result assumes anything of it.
--   Tracees/Find: `get_ptracee`, `get_stopped_ptracee`, `has_ptracees` and `get_tracee`.
--   Tracees/Remove: `terminate_tracee`, `kill_all_tracees`, `remove_tracee`, `remove_zombie`,
--     `before_tracee_free` and `free_terminated_tracees`.
--   Tracees/Child: `new_child`.
--   Tracees/Valid: the invariant of the links between ptracers, ptracees and zombies; Tracees/Counts
--     counts in lists, and Tracees/Safe has the rules for one command after the other.
--
-- Ptrace: ptrace/ptrace.c and ptrace/wait.c, on the world of Tracees, as they are on arm64.
--   Ptrace/Attach: `attach_to_ptracer` and `detach_from_ptracer`; the restart of a structure.
--   Ptrace/Wait: `translate_wait_enter`, `translate_wait_exit`, `update_wait_status` and
--     `handle_ptracee_event`.
--   Ptrace/Words and Ptrace/Blocks: the requests that move a word, with `peek_word` and `poke_word`
--     of tracee/mem.c, and those that move a block. Ptrace/Request has the numbers.
--   Ptrace/Requests: `translate_ptrace_enter` and `translate_ptrace_exit`.
--
-- Seccomp: syscall/seccomp.c.
--   Seccomp/Bpf: the statements, and the interface of the machine in the kernel that runs them:
--     one law for each kind of statement. Seccomp/Tests has a machine that meets them.
--   Seccomp/Filter: the construction. Memory and the two calls of prctl(2) are arguments; so are
--     the list of architectures, the table of numbers and the range of libc, static variables in C.
--     The constants SECCOMP_RET_KILL, TRACE and ALLOW are those of linux/seccomp.h.
--   Seccomp/Verdict: what the kernel is to answer, described without the statements.
--   Seccomp/Installs: when the construction succeeds.
--   Seccomp/Merge: `merge_filtered_sysnums` and `enable_syscall_filtering`. The bounds of libc that
--     `find_libc_exec_maps` reads in /proc are an argument, and `none` is a write through NULL.
-- The filter uses `detranslate_sysnum` of Syscall/Sysnum; the path functions stand by themselves.
--
-- Not modelled: the translation of paths with the host file system, the bindings, the emulated
-- heap, execve, the registers of the x86 processors in ptrace/user.c, `swap_config`, the signal
-- handlers that `event_loop` sets up before its rounds, the loader and the logging.
pub mod Base
pub mod Path
pub mod Tracee
pub mod Syscall
pub mod Seccomp
pub mod Tracees
pub mod Ptrace
pub mod Event
