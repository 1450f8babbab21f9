-- ===== src/Metrics.antt =====
-- src/metrics: latencies and counters.
pub mod Latency
pub mod Registry
pub mod Snapshot
