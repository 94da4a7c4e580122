-- ===== src/Columns/Tests.antt =====
-- SQLColumns on two tables with a column each.
use taos_connector_odbc.Prelude.{
  ℕ, ◌+◌, ◌<◌, ◌==◌, if◌then◌else◌, Option, none, some, List, [], ◌∷◌, true, refl, arith, length,
}
use taos_connector_odbc.Odbc.{Text}
use taos_connector_odbc.GetData.State.{tsdb_varchar}
use taos_connector_odbc.Fetch.Blocks.{Row, Answer, fetched}
use taos_connector_odbc.Fetch.Blocks.Cursor.{remaining}
use taos_connector_odbc.Tables.Rows.{opened, Tables, tables_for_generic, row_text, col_text}
use taos_connector_odbc.Columns.{Columns, fresh, fetch_columns_row}
use taos_connector_odbc.Columns.Listed.{Fetches, left_columns, rounds}
use taos_connector_odbc.Columns.Fetched.{fetch_columns_row-Fetches}

-- A table of a database.
abbrev table_row : Text → Row ℕ
table_row name = λ i_col.
    if i_col == 0
    then some (tsdb_varchar (100 ∷ []))
    else if i_col == 2
    then some (tsdb_varchar name)
    else some (tsdb_varchar [])

abbrev both : Tables ℕ
both = record {
  res = fresh (fetched (table_row (97 ∷ []) ∷ table_row (98 ∷ []) ∷ []) ∷ [], 5);
  tables_type = tables_for_generic;
  catalog_pattern = none;
  schema_pattern = none;
  table_pattern = none;
  select_current_db = true;
  db = 100 ∷ [];
  table_types = [];
}

-- A table has a column that is named like it.
abbrev describe : Text → Text → Option (List (Answer ℕ) × ℕ)
describe catalog table = some (fetched ((λ i_col. some (tsdb_varchar table)) ∷ []) ∷ [], 7)

abbrev columns : Columns ℕ
columns = record { tables = both; desc = fresh ([], 7); column_pattern = none; ordinal_order = 0 }

enough :
    length (remaining columns.desc)
      + rounds (opened (λ t. some t)) describe (remaining columns.tables.res)
    < 5
unfolding remaining row_text col_text
enough = omega arith

fetch_columns_row-Fetches_example :
    Fetches
      (opened (λ t. some t))
      describe
      0
      (left_columns (opened (λ t. some t)) describe columns)
      (fetch_columns_row 5 (opened (λ t. some t)) describe columns)
fetch_columns_row-Fetches_example =
    fetch_columns_row-Fetches (opened (λ t. some t)) describe 5 columns (refl, refl, refl) enough
