-- ===== src/Metrics.antt =====
-- include/aether/metrics and src/metrics.
pub mod Counters
pub mod Histogram
