-- ===== src/Ptrace.antt =====
-- The emulation of ptrace(2): library/src/main/jni/ptrace.
pub mod Attach
pub mod Wait
pub mod Words
pub mod Blocks
pub mod Request
pub mod Requests
