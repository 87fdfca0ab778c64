-- ===== src/Bench.antt =====
-- bench/: the test benches that carry logic of their own.
pub mod Sim
