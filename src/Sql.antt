-- ===== src/Sql.antt =====
-- internal/connectors/bind.go: the dialect-aware SQL scanner behind parameter binding.
pub mod Scan
pub mod Bind
pub mod Extract
pub mod Strip
pub mod Stall
pub mod Pagination
mod Tests
