-- ===== src/Demo.antt =====
-- demo/: the programs that use the library.
pub mod Async
mod Examples
