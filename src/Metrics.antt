-- ===== src/Metrics.antt =====
-- extension/metrics: what extensions measure.
pub mod Storage
