-- ===== src/Columns/Counted.antt =====
-- src/core/columns.c: fetching a column leaves the count of those returned before to _fetch_row.
use taos_connector_odbc.Prelude.{ℕ, zero, suc, Option, none, some, List, ◌≡◌, refl, ◌∙◌}
use taos_connector_odbc.Odbc.{
  Text, SqlReturn, sql_success, sql_success_with_info, sql_no_data, sql_error,
}
use taos_connector_odbc.Fetch.Blocks.{Answer, Res, fetch_row}
use taos_connector_odbc.Tables.Rows.{Iconv, Verdict, kept, skipped, failing, fetch_from}
use taos_connector_odbc.Columns.{
  Columns, describe_current, with_desc, after_tables, fetch_and_desc_next_table, column_verdict,
  by_column, go_again, after_desc, fetch_column,
}

module _ {F : Type 0} (conv : Iconv) (describe : Text → Text → Option (List (Answer F) × ℕ)) where
  -- The number of columns returned before stays.
  abbrev pub Counts : (Columns F → Columns F × SqlReturn) → Type 0
  Counts f = (c : Columns F) → (f c).0.ordinal_order ≡ c.ordinal_order

  go_again-Counts :
      (again : Columns F → Columns F × SqlReturn) (n : ℕ) (c : Columns F) (sr : SqlReturn)
      → Counts again
      → c.ordinal_order ≡ n
      → (go_again again (c, sr)).0.ordinal_order ≡ n
  unfolding go_again
  go_again-Counts again n c sql_success h same = h c ∙ same
  go_again-Counts again n c sql_no_data h same = same
  go_again-Counts again n c sql_success_with_info h same = same
  go_again-Counts again n c sql_error h same = same

  after_tables-Counts :
      (c : Columns F) (sr : SqlReturn)
      → (after_tables describe c sr).0.ordinal_order ≡ c.ordinal_order
  unfolding after_tables
  after_tables-Counts c sql_success = described (describe_current describe c.tables)
    where
      described :
          (o : Option (Res F))
          → let out : Columns F × SqlReturn = elim o [
            | none ↦ (c, sql_error)
            | some res ↦ (with_desc c res, sql_success)
          ] in
            out.0.ordinal_order ≡ c.ordinal_order
      described none = refl
      described (some res) = refl
  after_tables-Counts c sql_no_data = refl
  after_tables-Counts c sql_success_with_info = refl
  after_tables-Counts c sql_error = refl

  by_column-Counts :
      (v : Verdict) (again : Columns F → Columns F × SqlReturn) (c : Columns F)
      → Counts again
      → (by_column (again c) c v).0.ordinal_order ≡ c.ordinal_order
  unfolding by_column
  by_column-Counts kept again c h = refl
  by_column-Counts skipped again c h = h c
  by_column-Counts failing again c h = refl

  after_desc-Counts :
      (next_table again : Columns F → Columns F × SqlReturn) (c : Columns F) (sr : SqlReturn)
      → Counts next_table
      → Counts again
      → (after_desc conv next_table again c sr).0.ordinal_order ≡ c.ordinal_order
  unfolding after_desc
  after_desc-Counts next_table again c sql_success h k =
      by_column-Counts (column_verdict conv c) again c k
  after_desc-Counts next_table again c sql_no_data h k =
      let out = next_table c in go_again-Counts again c.ordinal_order out.0 out.1 k (h c)
  after_desc-Counts next_table again c sql_success_with_info h k = refl
  after_desc-Counts next_table again c sql_error h k = refl

  pub fetch_column-Counts : (fuel : ℕ) → Counts (fetch_column fuel conv describe)
  unfolding fetch_column fetch_and_desc_next_table
  fetch_column-Counts zero c = refl
  fetch_column-Counts (suc fuel) c =
      let (res, sr, diags) = fetch_row c.desc in
      after_desc-Counts (fetch_and_desc_next_table (suc fuel) conv describe)
        (fetch_column fuel conv describe) (with_desc c res) sr
        (λ c'.
          let out = fetch_from (suc fuel) conv c'.tables in
          after_tables-Counts (record c' { tables = out.0 }) out.1)
        (fetch_column-Counts fuel)
