-- ===== src/Metrics/Snapshot.antt =====
-- src/metrics/metrics_snapshot.h: `MetricsSnapshot`.
use kvmemo.Base.{ℕ}
use kvmemo.Metrics.Latency.{LatencyStats}

pub record CommandLatencySnapshot : Type 0 where
  pub get_latency : LatencyStats
  pub set_latency : LatencyStats
  pub delete_latency : LatencyStats

pub record EngineMetricsSnapshot : Type 0 where
  pub total_keys : ℕ
  pub total_requests : ℕ
  pub total_evictions : ℕ
  pub total_expirations : ℕ

pub record NetworkMetricsSnapshot : Type 0 where
  pub active_connections : ℕ
  pub total_connections : ℕ
  pub bytes_received : ℕ
  pub bytes_sent : ℕ

pub record MetricsSnapshot : Type 0 where
  pub command_latency : CommandLatencySnapshot
  pub engine_metrics : EngineMetricsSnapshot
  pub network_metrics : NetworkMetricsSnapshot

abbrev pub new :
    CommandLatencySnapshot → EngineMetricsSnapshot → NetworkMetricsSnapshot → MetricsSnapshot
new command_latency engine_metrics network_metrics = record {
  command_latency = command_latency;
  engine_metrics = engine_metrics;
  network_metrics = network_metrics;
}
