-- ===== src/DataGroups.antt =====
-- services/data: the data that a user's groups let the user view.
pub mod ViewPermission
pub mod Grants
pub mod GroupSubjects
