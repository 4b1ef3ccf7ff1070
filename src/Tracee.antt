-- ===== src/Tracee.antt =====
-- The state of a tracee: library/src/main/jni/tracee, as it is built for arm64.
pub mod State
pub mod Reg
pub mod Process
pub mod Flat
pub mod Alloc
pub mod Mem
pub mod Strings
mod Tests
