-- ===== src/Access.antt =====
-- The access control of the backend: roles, features and the permissions of a subject, and the
-- transactions they are changed in.
pub mod Transaction
pub mod Filters
pub mod Difference
pub mod Memberships
pub mod Roles
pub mod Teams
pub mod Permissions
pub mod RoleCreation
pub mod Tests
