-- ===== src/Infrastructure.antt =====
-- src/infrastructure: the CSV files.
pub mod CsvReader
pub mod CsvWriter
