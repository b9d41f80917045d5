-- ===== src/Kubernetes.antt =====
-- backend/pkg/repository/kubernetes: the alert rules and the Alertmanager receivers that the
-- backend keeps in memory, and the two config maps that it loads them from and writes them to.
pub mod Labels
pub mod Paging
pub mod AlertRules
pub mod Receivers
pub mod ConfigMaps
pub mod RuleApi
pub mod ReceiverApi
