-- ===== src/Tables/Rows.antt =====
-- wildexec of src/utils/utils.c, and _match and _fetch_row_with_tsdb of src/core/tables.c, over the
-- rows that src/core/tsdb.c fetches.
pub mod Picked
pub mod Wanted
use taos_connector_odbc.Prelude.{
  ℕ, zero, suc, ◌+◌, if◌then◌else◌, not, Bool, true, false, ◌||◌, Option, none, some, List, [], ◌∷◌,
  ◌++◌,
}
use taos_connector_odbc.Odbc.{
  Text, SqlReturn, sql_success, sql_success_with_info, sql_no_data, sql_error, SqlState, hy000,
}
use taos_connector_odbc.HashTable.{text_eq}
use taos_connector_odbc.Wildcard.{Node, wild_exec}
use taos_connector_odbc.GetData.State.{TsdbData, tsdb_varchar, tsdb_nchar}
use taos_connector_odbc.Fetch.Blocks.{Row, Res, fetch_row, current}

-- tables_type_e
pub data TablesType : Type 0 where
  tables_for_generic tables_for_catalogs tables_for_schemas tables_for_tabletypes : TablesType

-- iconv to UCS-4: `cannot_open` if iconv_open fails, or what mem_conv makes of a string.
pub data Iconv : Type 0 where
  cannot_open : Iconv
  opened : (Text → Option (List ℕ)) → Iconv

-- tables_t and tables_args_t, behind tables_open; `table_types` has the strings of the memory.
pub record Tables (F : Type 0) : Type 0 where
  pub res : Res F
  pub tables_type : TablesType
  pub catalog_pattern : Option (List Node)
  pub schema_pattern : Option (List Node)
  pub table_pattern : Option (List Node)
  pub select_current_db : Bool
  pub db : Text
  pub table_types : List Text

-- wildexec: none is an error. A failing iconv_open is none, and nothing is matched.
pub wildexec : Iconv → List Node → Text → Option Bool
wildexec cannot_open nodes str = some false
wildexec (opened conv) nodes str = elim (conv str) [
  | none ↦ none
  | some s ↦ some (wild_exec nodes s)
]

-- _match
pub match_types : List Text → Text → Bool
match_types [] str = false
match_types (t ∷ ts) str = text_eq t str || match_types ts str

-- What becomes of a row; the failures append a diagnostic.
pub data Verdict : Type 0 where
  kept skipped failing : Verdict

-- get_data of a column of text. A column that is NULL, which leaves the text read before it in place,
-- or of another type is left out of the model: it fails here. The query of tables_open selects names
-- and literals for the four columns that are read.
unfoldable pub col_text : {F : Type 0} → Option (TsdbData F) → Option Text
col_text (some (tsdb_varchar t)) = some t
col_text (some (tsdb_nchar encoder t)) = some t
col_text _ = none

pub then_test : Option Bool → Verdict → Verdict
then_test none rest = failing
then_test (some true) rest = rest
then_test (some false) rest = skipped

-- A pattern for a column, where there is one.
pub test_pattern : Iconv → Option (List Node) → Option Text → Verdict → Verdict
unfolding wildexec then_test
test_pattern conv none str rest = rest
test_pattern conv (some nodes) none rest = failing
test_pattern conv (some nodes) (some str) rest = then_test (wildexec conv nodes str) rest

-- The pattern of the catalog, or the current database, for a column that was read.
pub test_catalog : Iconv → Option (List Node) → Bool → Text → Text → Verdict → Verdict
unfolding wildexec then_test
test_catalog conv (some nodes) current_db db str rest = then_test (wildexec conv nodes str) rest
test_catalog conv none current_db db str rest =
    if current_db then then_test (some (text_eq db str)) rest else rest

pub test_types : List Text → Option Text → Verdict → Verdict
unfolding match_types then_test
test_types [] str rest = rest
test_types (t ∷ ts) none rest = failing
test_types (t ∷ ts) (some str) rest = then_test (some (match_types (t ∷ ts) str)) rest

module _ {F : Type 0} where
  -- The columns TABLE_CAT, TABLE_SCHEM, TABLE_NAME and TABLE_TYPE of a row.
  unfoldable pub row_text : Row F → ℕ → Option Text
  unfolding col_text
  row_text row i_col = col_text (row i_col)

  -- The tests behind fetch_row in TABLES_FOR_GENERIC.
  unfoldable pub row_verdict : Iconv → Tables F → Row F → Verdict
  unfolding row_text test_catalog test_pattern test_types
  row_verdict conv t row = elim (row_text row 0) [
    | none ↦ failing
    | some cat ↦ test_catalog conv t.catalog_pattern t.select_current_db t.db cat (
        test_pattern conv t.schema_pattern (row_text row 1) (
          test_pattern conv t.table_pattern (row_text row 2)
            (test_types t.table_types (row_text row 3) kept)))
  ]

  abbrev pub with_res : Tables F → Res F → Tables F
  with_res t res = record t { res = res }

  pub by_verdict :
      Tables F × SqlReturn × List SqlState
      → Tables F
      → List SqlState
      → Verdict
      → Tables F × SqlReturn × List SqlState
  by_verdict again t diags kept = (t, sql_success, diags)
  by_verdict again t diags skipped = again
  by_verdict again t diags failing = (t, sql_error, diags ++ (hy000 ∷ []))

  pub current_verdict : Iconv → Tables F → Verdict
  unfolding row_verdict
  current_verdict conv t = elim (current t.res) [
    | none ↦ failing
    | some row ↦ row_verdict conv t row
  ]

  -- What follows base->fetch_row; `again` is the way back to the label.
  pub after_fetch :
      Iconv
      → (Tables F → Tables F × SqlReturn × List SqlState)
      → Tables F
      → SqlReturn
      → List SqlState
      → Tables F × SqlReturn × List SqlState
  unfolding current_verdict by_verdict
  after_fetch conv again t sql_no_data diags = (t, sql_no_data, diags)
  after_fetch conv again t sql_success diags = elim t.tables_type [
    | tables_for_generic ↦ by_verdict (again t) t diags (current_verdict conv t)
    | _ ↦ (t, sql_success, diags)
  ]
  after_fetch conv again t sql_success_with_info diags = (t, sql_error, diags)
  after_fetch conv again t sql_error diags = (t, sql_error, diags)

  -- The loop at the label `again`, on fuel: it passes over a row in each round.
  pub fetch_from : ℕ → Iconv → Tables F → Tables F × SqlReturn × List SqlState
  unfolding after_fetch
  fetch_from zero conv t = (t, sql_error, [])
  fetch_from (suc fuel) conv t =
      let (res, sr, diags) = fetch_row t.res in
      after_fetch conv (fetch_from fuel conv) (with_res t res) sr diags
