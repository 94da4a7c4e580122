-- ===== src/GetData.antt =====
-- SQLGetData and the columns of a fetched row: the `get data` part of src/core/stmt.c.
-- `State` has the state and what the code takes from the C library; `Charset` converts single
-- characters and counts bytes; `Fixed` stores numbers, `Varchar` parses text into numbers, `Char`
-- and `Binary` deliver data in parts, `Copy` and `Session` choose by types and columns, and
-- `Parts` is the application's loop.
pub mod State
pub mod Charset
pub mod Char
pub mod Fixed
pub mod Varchar
pub mod Parts
pub mod Binary
pub mod Copy
pub mod Session
pub mod Tests
