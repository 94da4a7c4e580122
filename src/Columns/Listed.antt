-- ===== src/Columns/Listed.antt =====
-- src/core/columns.c: SQLColumns lists the selected columns of the selected tables, in order.
use taos_connector_odbc.Prelude.{ℕ, suc, ◌+◌, Option, none, some, List, [], ◌∷◌, ◌++◌, length, ◌≡◌}
use taos_connector_odbc.Odbc.{Text, SqlReturn, sql_success, sql_no_data, sql_error}
use taos_connector_odbc.Wildcard.{Node}
use taos_connector_odbc.Fetch.Blocks.{Row, Answer, Res, current}
use taos_connector_odbc.Fetch.Blocks.Cursor.{remaining, IsValid}
use taos_connector_odbc.Tables.Rows.{
  Iconv, Tables, Verdict, kept, skipped, failing, tables_for_generic, row_text, row_verdict,
  test_pattern,
}
use taos_connector_odbc.Columns.{Columns, fresh}

module _ {F : Type 0} where
  -- The rows that describe a table: the queries are for the names of its catalog (column 1) and of
  -- itself (column 3), where these, the schema's name and the table's type are texts.
  abbrev pub described :
      (Text → Text → Option (List (Answer F) × ℕ))
      → Option Text
      → Option Text
      → Option Text
      → Option Text
      → Option (Res F)
  described describe none schema table type = none
  described describe (some catalog) none table type = none
  described describe (some catalog) (some schema) none type = none
  described describe (some catalog) (some schema) (some table) none = none
  described describe (some catalog) (some schema) (some table) (some type) =
      elim (describe catalog table) [ none ↦ none | some d ↦ some (fresh d) ]

  abbrev pub description : (Text → Text → Option (List (Answer F) × ℕ)) → Row F → Option (Res F)
  description describe row =
      described describe (row_text row 0) (row_text row 1) (row_text row 2) (row_text row 3)

  -- What a row adds to a list, by its verdict; `none` is a failure.
  abbrev pub listed : Verdict → Row F → List (Option (Row F)) → List (Option (Row F))
  listed kept row rest = some row ∷ rest
  listed skipped row rest = rest
  listed failing row rest = none ∷ rest

  -- The columns of a table that its pattern selects.
  abbrev pub columns_of : Iconv → Option (List Node) → List (Option (Row F)) → List (Option (Row F))
  columns_of conv pattern [] = []
  columns_of conv pattern (none ∷ rest) = none ∷ columns_of conv pattern rest
  columns_of conv pattern (some row ∷ rest) =
      listed (test_pattern conv pattern (row_text row 0) kept) row (columns_of conv pattern rest)

  module _ (conv : Iconv) (describe : Text → Text → Option (List (Answer F) × ℕ)) where
    -- The columns of a table that was selected or not.
    abbrev pub table_columns :
        Verdict
        → Option (Res F)
        → Option (List Node)
        → List (Option (Row F))
        → List (Option (Row F))
    table_columns kept none pattern rest = none ∷ rest
    table_columns kept (some res) pattern rest = columns_of conv pattern (remaining res) ++ rest
    table_columns skipped d pattern rest = rest
    table_columns failing d pattern rest = none ∷ rest

    -- The columns of the tables that remain.
    abbrev pub all_columns :
        Tables F → Option (List Node) → List (Option (Row F)) → List (Option (Row F))
    all_columns t pattern [] = []
    all_columns t pattern (none ∷ rest) = none ∷ all_columns t pattern rest
    all_columns t pattern (some row ∷ rest) =
        table_columns (row_verdict conv t row) (description describe row) pattern
          (all_columns t pattern rest)

    -- The columns that SQLColumns has left.
    abbrev pub left_columns : Columns F → List (Option (Row F))
    left_columns c =
        columns_of conv c.column_pattern (remaining c.desc)
        ++ all_columns c.tables c.column_pattern (remaining c.tables.res)

    abbrev pub Usable : Columns F → Type 0
    Usable c = IsValid c.desc × IsValid c.tables.res × (c.tables.tables_type ≡ tables_for_generic)

    -- The outcome, by the columns that are left.
    abbrev pub Next : List (Option (Row F)) → Columns F × SqlReturn → Type 0
    Next [] (c, sr) = sr ≡ sql_no_data
    Next (none ∷ rest) (c, sr) = sr ≡ sql_error
    Next (some row ∷ rest) (c, sr) =
        (sr ≡ sql_success) × (current c.desc ≡ some row) × (left_columns c ≡ rest) × Usable c

    -- The rounds for the rows of a table that was described.
    abbrev pub described_rounds : Option (Res F) → ℕ
    described_rounds none = 0
    described_rounds (some res) = length (remaining res)

    -- The rounds for the tables that remain, and their columns.
    abbrev pub rounds : List (Option (Row F)) → ℕ
    rounds [] = 0
    rounds (none ∷ rest) = suc (rounds rest)
    rounds (some row ∷ rest) = suc (described_rounds (description describe row) + rounds rest)

    -- The outcome of a fetch, by the columns that are left: the next one is at hand and counted.
    abbrev pub Fetches : ℕ → List (Option (Row F)) → Columns F × SqlReturn → Type 0
    Fetches n [] (c, sr) = sr ≡ sql_no_data
    Fetches n (none ∷ rest) (c, sr) = sr ≡ sql_error
    Fetches n (some row ∷ rest) (c, sr) =
        (sr ≡ sql_success)
        × (current c.desc ≡ some row)
        × (left_columns c ≡ rest)
        × Usable c
        × (c.ordinal_order ≡ suc n)
