-- ===== src/Console.antt =====
-- internal/console/acl: permissions of console operators.
pub mod Permission
pub mod Grants
pub mod Access
