-- ===== src/Service.antt =====
-- internal/service/service.go: the use cases.
pub mod Basic
pub mod Assignment
pub mod Deactivation
