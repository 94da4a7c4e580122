-- ===== src/Fetch.antt =====
-- SQLFetch and SQLFetchScroll: the rows that the TDengine client hands out in blocks
-- (src/core/tsdb.c), and the fetch of a rowset into the application's arrays (src/core/stmt.c).
pub mod Blocks
pub mod Rows
mod Tests
