-- ===== src/Path.antt =====
-- Paths as C strings: library/src/main/jni/path/path.c and canon.c.
pub mod Str
pub mod Components
pub mod Strings
pub mod Join
pub mod Canon
pub mod Compare
pub mod Prefix
mod Tests
