-- ===== src/Examples.antt =====
-- examples/: programs that use the library.
pub mod Api
pub mod Shared
