-- ===== src/Columns.antt =====
-- _fetch_and_desc_next_table, _fetch_row_with_tsdb and _fetch_row of src/core/columns.c: the rows of
-- SQLColumns, table by table. Diagnostics are not kept here, nor what a table that cannot be
-- described leaves in `desc`.
pub mod Counted
pub mod Listed
pub mod Read
pub mod Described
pub mod Fetched
mod Tests
use taos_connector_odbc.Prelude.{ℕ, zero, suc, ◌+◌, Option, none, some, List, [], ◌∷◌, ◌++◌, false}
use taos_connector_odbc.Odbc.{
  Text, SqlReturn, sql_success, sql_success_with_info, sql_no_data, sql_error,
}
use taos_connector_odbc.Wildcard.{Node}
use taos_connector_odbc.Fetch.Blocks.{Row, Answer, Res, fetch_row, current}
use taos_connector_odbc.Tables.Rows.{
  Iconv, Tables, Verdict, kept, skipped, failing, row_text, test_pattern, fetch_from,
}

-- columns_t behind columns_open.
pub record Columns (F : Type 0) : Type 0 where
  pub tables : Tables F
  pub desc : Res F
  pub column_pattern : Option (List Node)
  pub ordinal_order : ℕ

module _ {F : Type 0} where
  -- A result of tsdb_stmt_query: the client's answers and the number of fields.
  abbrev pub fresh : List (Answer F) × ℕ → Res F
  fresh (answers, fields_nr) = record {
    upcoming = answers;
    fields_nr = fields_nr;
    rows_block = record { block = []; nr = 0; pos = 0 };
    eof = false;
  }

  -- The queries for a table by the names of its catalog and itself, where the four columns are read.
  pub describe_row : (Text → Text → Option (List (Answer F) × ℕ)) → Row F → Option (Res F)
  describe_row describe row = elim (row_text row 0) [
    | none ↦ none
    | some catalog ↦ elim (row_text row 1) [
      | none ↦ none
      | some schema ↦ elim (row_text row 2) [
        | none ↦ none
        | some table ↦ elim (row_text row 3) [
          | none ↦ none
          | some type ↦ elim (describe catalog table) [ none ↦ none | some d ↦ some (fresh d) ]
        ]
      ]
    ]
  ]

  pub describe_current : (Text → Text → Option (List (Answer F) × ℕ)) → Tables F → Option (Res F)
  unfolding describe_row
  describe_current describe t = elim (current t.res) [
    | none ↦ none
    | some row ↦ describe_row describe row
  ]

  abbrev pub with_desc : Columns F → Res F → Columns F
  with_desc c res = record c { desc = res }

  -- What follows tables.base.fetch_row.
  pub after_tables :
      (Text → Text → Option (List (Answer F) × ℕ)) → Columns F → SqlReturn → Columns F × SqlReturn
  unfolding describe_current
  after_tables describe c sql_success = elim (describe_current describe c.tables) [
    | none ↦ (c, sql_error)
    | some res ↦ (with_desc c res, sql_success)
  ]
  after_tables describe c sql_no_data = (c, sql_no_data)
  after_tables describe c sql_success_with_info = (c, sql_error)
  after_tables describe c sql_error = (c, sql_error)

  pub fetch_and_desc_next_table :
      ℕ → Iconv → (Text → Text → Option (List (Answer F) × ℕ)) → Columns F → Columns F × SqlReturn
  unfolding after_tables
  fetch_and_desc_next_table fuel conv describe c =
      let (t, sr, diags) = fetch_from fuel conv c.tables in
      after_tables describe (record c { tables = t }) sr

  -- The test of the column's name.
  pub column_verdict : Iconv → Columns F → Verdict
  column_verdict conv c = elim (current c.desc) [
    | none ↦ failing
    | some row ↦ test_pattern conv c.column_pattern (row_text row 0) kept
  ]

  pub by_column : Columns F × SqlReturn → Columns F → Verdict → Columns F × SqlReturn
  by_column again c kept = (c, sql_success)
  by_column again c skipped = again
  by_column again c failing = (c, sql_error)

  -- The way back to the label behind a table that was described.
  pub go_again : (Columns F → Columns F × SqlReturn) → Columns F × SqlReturn → Columns F × SqlReturn
  go_again again (c, sql_success) = again c
  go_again again (c, sql_no_data) = (c, sql_no_data)
  go_again again (c, sql_success_with_info) = (c, sql_error)
  go_again again (c, sql_error) = (c, sql_error)

  -- What follows desc.base.fetch_row.
  pub after_desc :
      Iconv
      → (Columns F → Columns F × SqlReturn)
      → (Columns F → Columns F × SqlReturn)
      → Columns F
      → SqlReturn
      → Columns F × SqlReturn
  unfolding column_verdict by_column go_again
  after_desc conv next_table again c sql_success = by_column (again c) c (column_verdict conv c)
  after_desc conv next_table again c sql_no_data = go_again again (next_table c)
  after_desc conv next_table again c sql_success_with_info = (c, sql_error)
  after_desc conv next_table again c sql_error = (c, sql_error)

  -- The loop at the label `again`, on fuel: a round reads a column or describes a table.
  pub fetch_column :
      ℕ → Iconv → (Text → Text → Option (List (Answer F) × ℕ)) → Columns F → Columns F × SqlReturn
  unfolding after_desc fetch_and_desc_next_table
  fetch_column zero conv describe c = (c, sql_error)
  fetch_column (suc fuel) conv describe c =
      let (res, sr, diags) = fetch_row c.desc in
      after_desc conv (fetch_and_desc_next_table (suc fuel) conv describe)
        (fetch_column fuel conv describe) (with_desc c res) sr

  pub count_column : Columns F × SqlReturn → Columns F × SqlReturn
  count_column (c, sql_success) = (record c { ordinal_order = suc c.ordinal_order }, sql_success)
  count_column (c, sr) = (c, sr)

  unfoldable pub fetch_columns_row :
      ℕ → Iconv → (Text → Text → Option (List (Answer F) × ℕ)) → Columns F → Columns F × SqlReturn
  unfolding fetch_column count_column
  fetch_columns_row fuel conv describe c = count_column (fetch_column fuel conv describe c)
