-- ===== src/Prometheus.antt =====
-- backend/pkg/repository/prometheus: the PromQL texts that the backend sends.
pub mod Duration
pub mod P9xBuilder
pub mod Metrics
