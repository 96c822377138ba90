-- ===== src/Wasi/Stubs.antt =====
-- The functions of wasi.c that only report their call and return a fixed code.
pub mod Files
pub mod Paths
pub mod Process
