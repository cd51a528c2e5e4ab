-- ===== src/Wire.antt =====
-- The fixed-size headers of the file formats, each with its `to_bytes` and `from_bytes`.
pub mod Exception
pub mod Tuned
pub mod Columns
pub mod Runs
