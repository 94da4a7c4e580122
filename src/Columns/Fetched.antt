-- ===== src/Columns/Fetched.antt =====
-- src/core/columns.c: fetching a row of SQLColumns returns the next of the columns that are left.
use taos_connector_odbc.Prelude.{
  ℕ, zero, suc, ◌+◌, ◌<◌, Option, none, some, List, [], ◌∷◌, length, ◌≡◌, refl, sym, ap, ◌∙◌, arith,
}
use mathlib.Core.Path.{subst}
use taos_connector_odbc.Odbc.{Text, SqlReturn, sql_no_data, sql_error}
use taos_connector_odbc.Fetch.Blocks.{Row, Answer, Res, fetch_row}
use taos_connector_odbc.Fetch.Blocks.Cursor.{remaining, fetch_row-Reads}
use taos_connector_odbc.Tables.Rows.{Iconv, Tables, fetch_from}
use taos_connector_odbc.Tables.Rows.Picked.{fetch_from-Selects}
use taos_connector_odbc.Columns.{
  Columns, with_desc, fetch_and_desc_next_table, go_again, fetch_column, fetch_columns_row,
  count_column,
}
use taos_connector_odbc.Columns.Counted.{fetch_column-Counts}
use taos_connector_odbc.Columns.Listed.{
  description, all_columns, left_columns, Usable, Next, described_rounds, rounds, Fetches,
}
use taos_connector_odbc.Columns.Read.{after_desc-Next}
use taos_connector_odbc.Columns.Described.{length-rounds, tables-Next, left_columns-onward}

module _ {F : Type 0} (conv : Iconv) (describe : Text → Text → Option (List (Answer F) × ℕ)) where
  -- The rounds behind a table that was described.
  onward_rounds :
      (fuel : ℕ) (c : Columns F) (t' : Tables F) (row : Row F) (rest : List (Option (Row F)))
      (d : Res F)
      → length (remaining c.desc) + rounds conv describe (remaining c.tables.res) < suc fuel
      → description describe row ≡ some d
      → remaining t'.res ≡ rest
      → described_rounds conv describe (description describe row) + rounds conv describe rest
        < rounds conv describe (remaining c.tables.res)
      → length (remaining d) + rounds conv describe (remaining t'.res) < fuel
  onward_rounds fuel c t' row rest d h same left less =
      let k : described_rounds conv describe (description describe row) ≡ length (remaining d) =
        ap (described_rounds conv describe) same in
      let l : rounds conv describe (remaining t'.res) ≡ rounds conv describe rest =
        ap (rounds conv describe) left in
      omega (arith, h, k, l, less)

  abbrev Goes : ℕ → Type 0
  Goes fuel =
      (c : Columns F)
      → Usable conv describe c
      → length (remaining c.desc) + rounds conv describe (remaining c.tables.res) < fuel
      → Next conv describe (left_columns conv describe c) (fetch_column fuel conv describe c)

  -- A round at the end of a table.
  next_table-Next :
      (fuel : ℕ) (c : Columns F) (res : Res F)
      → Goes fuel
      → Usable conv describe c
      → length (remaining c.desc) + rounds conv describe (remaining c.tables.res) < suc fuel
      → Next conv describe
          (all_columns conv describe c.tables c.column_pattern (remaining c.tables.res))
          (go_again
            (fetch_column fuel conv describe)
            (fetch_and_desc_next_table (suc fuel) conv describe (with_desc c res)))
  unfolding fetch_and_desc_next_table
  next_table-Next fuel c res goes (valid, table_valid, generic) h =
      let out = fetch_from (suc fuel) conv c.tables in
      let k = length-rounds conv describe (remaining c.tables.res) in
      tables-Next conv describe (with_desc c res) (fetch_column fuel conv describe) out.0 out.1
        out.2 (remaining c.tables.res)
        (fetch_from-Selects (suc fuel) conv c.tables table_valid generic (omega (arith, h, k)))
        λ row rest less d same dv leaves.
          subst
            (λ rs.
              Next conv describe rs
                (fetch_column fuel conv describe (record c { tables = out.0; desc = d })))
            (left_columns-onward conv describe c out.0 d rest leaves)
            (goes (record c { tables = out.0; desc = d })
              (dv, leaves.0, ap (λ t. t.tables_type) leaves.1 ∙ generic)
              (onward_rounds fuel c out.0 row rest d h same leaves.2 less))

  fetch_column-Next : (fuel : ℕ) → Goes fuel
  unfolding fetch_column
  fetch_column-Next zero c usable h = absurd (omega arith)
  fetch_column-Next (suc fuel) c (valid, table_valid, generic) h =
      let goes = fetch_column-Next fuel in
      after_desc-Next conv describe c (fetch_and_desc_next_table (suc fuel) conv describe)
        (fetch_column fuel conv describe) (remaining c.desc) (fetch_row c.desc) table_valid generic
        (fetch_row-Reads c.desc valid)
        (λ res v. next_table-Next fuel c res goes (valid, table_valid, generic) h)
        (λ res v less. goes (with_desc c res) (v, table_valid, generic) (omega (arith, h, less)))

  counted-Fetches :
      (n : ℕ) (rows : List (Option (Row F))) (c : Columns F) (sr : SqlReturn)
      → c.ordinal_order ≡ n
      → Next conv describe rows (c, sr)
      → Fetches conv describe n rows (count_column (c, sr))
  unfolding count_column
  counted-Fetches n [] c sr same e = subst (λ s. (count_column (c, s)).1 ≡ sql_no_data) (sym e) refl
  counted-Fetches n (none ∷ rest) c sr same e =
      subst (λ s. (count_column (c, s)).1 ≡ sql_error) (sym e) refl
  counted-Fetches n (some row ∷ rest) c sr same (e, at, left, usable) =
      subst (λ s. Fetches conv describe n (some row ∷ rest) (count_column (c, s))) (sym e)
        (refl, at, left, usable, ap suc same)

  -- Fetching a row of SQLColumns (_fetch_row of columns.c), over results whose blocks are whole,
  -- tables that SQLTables selects among, and fuel for more rounds than there are tables and rows of
  -- descriptions left: the columns left are those of the table at hand and of the selected tables
  -- behind it whose names the column's pattern selects, in order, with a failure of the client, of
  -- a test or of a description in its place. The call reads the first of them, counts it and
  -- leaves the others; a failure is SQL_ERROR; and where none is left it returns SQL_NO_DATA.
  pub fetch_columns_row-Fetches :
      (fuel : ℕ) (c : Columns F)
      → Usable conv describe c
      → length (remaining c.desc) + rounds conv describe (remaining c.tables.res) < fuel
      → Fetches conv describe c.ordinal_order
          (left_columns conv describe c)
          (fetch_columns_row fuel conv describe c)
  unfolding fetch_columns_row
  fetch_columns_row-Fetches fuel c usable h =
      let out = fetch_column fuel conv describe c in
      counted-Fetches c.ordinal_order (left_columns conv describe c) out.0 out.1
        (fetch_column-Counts conv describe fuel c) (fetch_column-Next fuel c usable h)
