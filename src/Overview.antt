-- ===== src/Overview.antt =====
-- The overview of services: their alerts and the red, yellow or green light of each.
pub mod Alerts
pub mod Instances
pub mod RygLight
pub mod Endpoints
pub mod Services
