-- ===== src/Params/Batches.antt =====
-- Arrays of parameters, _stmt_execute_with_param_state of src/core/stmt.c: `Rows` converts a
-- column of a batch, `Columns` all columns, and `Loop` runs over the batches. The column that names
-- the sub table stands apart from the others, as the first.
pub mod Rows
pub mod Columns
pub mod Loop
mod Tests
