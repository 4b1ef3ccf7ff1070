-- ===== src/Tracees.antt =====
-- The list of tracees: library/src/main/jni/tracee/tracee.c.
pub mod Store
pub mod Find
pub mod Post
pub mod Counts
pub mod Valid
pub mod Safe
pub mod Remove
pub mod Child
mod Tests
