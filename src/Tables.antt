-- ===== src/Tables.antt =====
-- src/core/tables.c: SQLTables. `Types` splits the list of table types, `Rows` passes over the rows
-- that the arguments do not select, and `Opened` is tables_open.
pub mod Types
pub mod Rows
pub mod Opened
