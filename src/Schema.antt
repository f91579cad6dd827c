-- ===== src/Schema.antt =====
-- internal/schema: the names of rows, and the values of their columns.
pub mod Fits
pub mod Key
pub mod Value
mod Tests
