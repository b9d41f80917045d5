-- ===== src/Clickhouse.antt =====
-- backend/pkg/repository/clickhouse: how the queries of the backend are put together.
pub mod SqlBuilder
