-- ===== src/Tables/Opened/Asked.antt =====
-- src/core/tables.c: the rows that SQLTables returns, by its arguments.
use taos_connector_odbc.Prelude.{ℕ, true, Option, none, some, List, ◌≡◌}
use taos_connector_odbc.Odbc.{Text}
use taos_connector_odbc.Fetch.Blocks.{Row}
use taos_connector_odbc.Tables.Rows.{opened, Tables, row_text}
use taos_connector_odbc.Tables.Rows.Wanted.{Selected, TypeSelected, Wanted}
use taos_connector_odbc.Tables.Opened.{
  Answers, Name, Names, text_of, until_zero, succeeds, open_types,
}

-- A name as a pattern in UCS-4, of its text up to the first zero.
abbrev pub pattern_of : (Text → Option (List ℕ)) → Option Name → Option (List ℕ)
pattern_of ucs none = none
pattern_of ucs (some name) = ucs (until_zero (text_of name))

abbrev pub CatalogIs :
    (Text → Option (List ℕ)) → (Text → Option (List ℕ)) → Option Text → Option Name → Text → Type 0
CatalogIs ucs row_ucs db none cat = db ≡ some cat
CatalogIs ucs row_ucs db (some name) cat =
    Selected row_ucs (ucs (until_zero (text_of name))) (some cat)

-- The rows that the arguments ask for: TABLE_CAT is a text that the name of the catalog stands for,
-- or the current database where it is NULL; the names of the schema and the table stand for the
-- next two columns, where they are not NULL; and TABLE_TYPE is in the list of types, if there is one.
-- `ucs` converts the arguments to UCS-4, from the client's charset, and `row_ucs` the columns, from
-- the server's.
abbrev pub AskedFor :
    {F : Type 0}
    → (Text → Option (List ℕ))
    → (Text → Option (List ℕ))
    → Answers F
    → Names
    → Row F
    → Type 0
AskedFor ucs row_ucs ans n row =
    ((cat : Text) × (row_text row 0 ≡ some cat)
      × CatalogIs ucs row_ucs ans.current_db n.catalog cat)
    × Selected row_ucs (pattern_of ucs n.schema) (row_text row 1)
    × Selected row_ucs (pattern_of ucs n.table) (row_text row 2)
    × ((types : List Text) × (open_types ans n.table_type ≡ succeeds types)
        × TypeSelected types (row_text row 3))

-- The answers where iconv opens and there is memory for nodes.
abbrev pub with_iconv : {F : Type 0} → (Text → Option (List ℕ)) → Answers F → Answers F
with_iconv ucs ans = record ans { ucs4 = opened ucs; node_memory = true }
