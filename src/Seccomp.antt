-- ===== src/Seccomp.antt =====
-- The system call filter: library/src/main/jni/syscall/seccomp.c.
pub mod Bpf
pub mod Filter
pub mod Verdict
pub mod Installs
pub mod Merge
mod Tests
