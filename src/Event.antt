-- ===== src/Event.antt =====
-- The events of a tracee: library/src/main/jni/tracee/event.c.
pub mod Stops
pub mod Handle
pub mod Loop
pub mod Pending
mod Tests
