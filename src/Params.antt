-- ===== src/Params.antt =====
-- Parameters of a prepared statement, converted row by row into the columns that TDengine takes:
-- the `param check` and `param conv` parts of src/core/stmt.c, for integers.
-- `State` has the state of one parameter in one row, `Text` converts text, `Numbers` checks and
-- converts 64-bit integers, `Row` combines a checker and a converter, and `Batches` runs them over
-- arrays of parameters.
pub mod State
pub mod Text
pub mod Numbers
pub mod Row
pub mod Batches
pub mod Pack
mod Tests
