-- ===== src/Syscall.antt =====
-- System calls: library/src/main/jni/syscall.
pub mod Sysnum
pub mod Args
pub mod Current
pub mod Chain
pub mod Stages
pub mod Translate
mod Tests
