-- ===== src/Tables/Opened/Tests.antt =====
-- SQLTables with patterns and a list of types, on concrete rows.
use taos_connector_odbc.Prelude.{
  ℕ, ◌-◌, map, ◌≡◌, ◌<◌, Option, none, some, List, [], ◌∷◌, All, true, false, refl, arith, length,
  ◌==◌, if◌then◌else◌,
}
use taos_connector_odbc.Odbc.{Text}
use taos_connector_odbc.GetData.State.{tsdb_varchar}
use taos_connector_odbc.Fetch.Blocks.{Row, Res, fetched}
use taos_connector_odbc.Fetch.Blocks.Cursor.{remaining}
use taos_connector_odbc.Tables.Types.{is_space, parse_table_type}
use taos_connector_odbc.Tables.Types.Joined.{joined, convert_all, parse_table_type-joined, IsType}
use taos_connector_odbc.Tables.Rows.{opened, Tables, tables_for_generic, fetch_from}
use taos_connector_odbc.Tables.Rows.Picked.{Selects, fetch_from-Selects}
use taos_connector_odbc.Tables.Opened.{Answers, Names}
use taos_connector_odbc.Tables.Opened.Asked.{with_iconv}

-- "TABLE" and "VIEW"
abbrev table_text : Text
table_text = 84 ∷ 65 ∷ 66 ∷ 76 ∷ 69 ∷ []

abbrev view_text : Text
view_text = 86 ∷ 73 ∷ 69 ∷ 87 ∷ []

two_types : All IsType (table_text ∷ view_text ∷ [])
unfolding is_space
two_types = (
  (refl, refl, (refl, (refl, (refl, (refl, tt))))),
  ((refl, refl, (refl, (refl, (refl, tt)))), tt),
)

parse_table_type-joined_example :
    parse_table_type (λ t. some t) (joined (table_text ∷ view_text ∷ []))
    ≡ convert_all (λ t. some t) (table_text ∷ view_text ∷ [])
parse_table_type-joined_example =
    parse_table_type-joined (λ t. some t) table_text (view_text ∷ []) two_types

-- A conversion to UCS-4 without zeros.
no_zeros : Text → List ℕ
no_zeros [] = []
no_zeros (c ∷ cs) = (if c == 0 then 1 else c) ∷ no_zeros cs

abbrev ucs : Text → Option (List ℕ)
ucs u = some (no_zeros u)

-- A table of a database.
abbrev table_row : Text → Text → Row ℕ
table_row db name = λ i_col.
    if i_col == 0
    then some (tsdb_varchar db)
    else if i_col == 1
    then some (tsdb_varchar [])
    else if i_col == 2
    then some (tsdb_varchar name)
    else some (tsdb_varchar table_text)

abbrev two_tables : Res ℕ
two_tables = record {
  upcoming =
      fetched (table_row (100 ∷ []) (97 ∷ []) ∷ table_row (100 ∷ []) (116 ∷ 49 ∷ []) ∷ []) ∷ [];
  fields_nr = 5;
  rows_block = record { block = []; nr = 0; pos = 0 };
  eof = false;
}

abbrev answers : Answers ℕ
answers = with_iconv ucs (record {
  name_kept = λ name. true;
  ucs4 = opened ucs;
  node_memory = true;
  current_db = some (100 ∷ []);
  types_memory = true;
  types_conv = λ t. some t;
  query = λ ty. some two_tables;
})

-- The tables of the current database whose names begin with "t".
abbrev names : Names
names = record {
  catalog = none;
  schema = none;
  table = some (record { bytes = 116 ∷ 37 ∷ 0 ∷ []; name_length = none });
  table_type = some (record { bytes = table_text; name_length = some 5 });
}

-- The server's charset is another: its texts are shifted by one.
abbrev row_ucs : Text → Option (List ℕ)
row_ucs u = some (no_zeros (map (λ c. c - 1) u))

abbrev t1 : Row ℕ
t1 = table_row (100 ∷ []) (117 ∷ 50 ∷ [])

-- The tables of any catalog, behind tables_open.
abbrev any_table : Tables ℕ
any_table = record {
  res = two_tables;
  tables_type = tables_for_generic;
  catalog_pattern = none;
  schema_pattern = none;
  table_pattern = none;
  select_current_db = true;
  db = 100 ∷ [];
  table_types = table_text ∷ [];
}

two_remain : length (remaining two_tables) < 3
unfolding remaining
two_remain = omega arith

fetch_from-Selects_example :
    Selects (opened ucs) any_table (remaining two_tables) (fetch_from 3 (opened ucs) any_table)
fetch_from-Selects_example = fetch_from-Selects 3 (opened ucs) any_table refl refl two_remain
