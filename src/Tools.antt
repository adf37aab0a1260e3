-- ===== src/Tools.antt =====
-- tools/: the stress tool of the ring.
pub mod Stress
