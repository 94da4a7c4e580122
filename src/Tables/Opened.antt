-- ===== src/Tables/Opened.antt =====
-- tables_open of src/core/tables.c, with wildcomp of src/utils/utils.c. The queries and what the
-- connection and iconv answer are parameters. What a call that fails leaves in tables_t is not kept.
pub mod Asked
mod Tests
use taos_connector_odbc.Prelude.{
  ℕ, ◌==◌, if◌then◌else◌, not, Bool, true, false, ◌&&◌, Option, none, some, List, [], ◌∷◌, take,
  ◌≡◌, refl, sym, ap, ◌∙◌, ◌⊎◌, inl, inr, arith, Bool-cases, Option-cases,
}
use mathlib.Core.Path.{subst}
use taos_connector_odbc.Odbc.{Text, SqlState, hy000, hy001}
use taos_connector_odbc.Wildcard.{Node, wild_comp}
use taos_connector_odbc.Fetch.Blocks.{Res}
use taos_connector_odbc.Tables.Types.{parse_table_type}
use taos_connector_odbc.Tables.Rows.{
  Iconv, cannot_open, opened, Tables, TablesType, tables_for_generic, tables_for_catalogs,
  tables_for_schemas, tables_for_tabletypes,
}
use taos_connector_odbc.Tables.Rows.Wanted.{Compiled}

-- What the code around answers: memory and the conversion to UCS-2 of a name, iconv to UCS-4 with
-- memory for the nodes of a pattern, the current database, iconv to the server's charset with
-- memory for the table types, and tsdb_stmt_query for a kind of query.
pub record Answers (F : Type 0) : Type 0 where
  pub name_kept : Text → Bool
  pub ucs4 : Iconv
  pub node_memory : Bool
  pub current_db : Option Text
  pub types_memory : Bool
  pub types_conv : Text → Option Text
  pub query : TablesType → Option (Res F)

-- A text as an argument: the bytes at the pointer, and the length; `none` is SQL_NTS.
pub record Name : Type 0 where
  pub bytes : Text
  pub name_length : Option ℕ

-- The bytes in front of the first zero.
pub until_zero : Text → Text
until_zero [] = []
until_zero (c ∷ cs) = if c == 0 then [] else c ∷ until_zero cs

-- The text behind the length.
unfoldable pub text_of : Name → Text
unfolding until_zero
text_of n = elim n.name_length [ none ↦ until_zero n.bytes | some nr ↦ take nr n.bytes ]

-- The arguments of SQLTables; `none` is NULL.
pub record Names : Type 0 where
  pub catalog : Option Name
  pub schema : Option Name
  pub table : Option Name
  pub table_type : Option Name

-- The outcome: SQL_ERROR with a diagnostic, or SQL_SUCCESS.
pub data Outcome (A : Type 0) : Type 0 where
  fails : SqlState → Outcome A
  succeeds : A → Outcome A

infixl 10 ◌>>=◌
abbrev pub ◌>>=◌ : {A B : Type 0} → Outcome A → (A → Outcome B) → Outcome B
◌>>=◌ m next = elim m [ fails sqlstate ↦ fails sqlstate | succeeds part ↦ next part ]

-- *s, whatever the length is; 0 where the string is empty.
unfoldable pub first_byte : Name → ℕ
first_byte n = elim n.bytes [ [] ↦ 0 | c ∷ cs ↦ c ]

-- strncmp(s, "%", 1) == 0
pub is_all : Option Name → Bool
unfolding first_byte
is_all none = false
is_all (some n) = first_byte n == 37

-- !s || !*s
pub is_empty : Option Name → Bool
unfolding first_byte
is_empty none = true
is_empty (some n) = first_byte n == 0

-- Which of the queries is made.
unfoldable pub tables_type_of : Names → TablesType
unfolding is_all is_empty
tables_type_of n =
    if is_all n.catalog && (is_empty n.schema && (is_empty n.table && is_empty n.table_type))
    then tables_for_catalogs
    else if is_all n.schema && (is_empty n.catalog && (is_empty n.table && is_empty n.table_type))
    then tables_for_schemas
    else if is_all n.table_type && (is_empty n.catalog && (is_empty n.schema && is_empty n.table))
    then tables_for_tabletypes
    else tables_for_generic

-- wildcomp, which takes the text up to its first zero; `none` is a failure.
pub wildcomp : Bool → Iconv → Text → Option (List Node)
unfolding until_zero
wildcomp memory cannot_open name = none
wildcomp memory (opened conv) name = elim (conv (until_zero name)) [
  | none ↦ none
  | some ex ↦ wild_comp memory ex
]

pub or_err : {A : Type 0} → SqlState → Option A → Outcome A
or_err e none = fails e
or_err e (some a) = succeeds a

module _ {F : Type 0} where
  pub open_pattern : Answers F → Option Name → Outcome (Option (List Node))
  unfolding wildcomp or_err text_of
  open_pattern ans none = succeeds none
  open_pattern ans (some name) =
      if not (ans.name_kept (text_of name))
      then fails hy001
      else or_err hy000 (wildcomp ans.node_memory ans.ucs4 (text_of name)) >>= λ nodes.
          succeeds (some nodes)

  -- The current database, where no catalog is given.
  pub open_db : Answers F → Option Name → Outcome (Bool × Text)
  unfolding or_err
  open_db ans (some name) = succeeds (false, [])
  open_db ans none = or_err hy000 ans.current_db >>= λ db. succeeds (true, db)

  pub open_types : Answers F → Option Name → Outcome (List Text)
  unfolding or_err first_byte text_of
  open_types ans none = succeeds []
  open_types ans (some name) =
      if first_byte name == 0
      then succeeds []
      else if not ans.types_memory
      then fails hy001
      else or_err hy000 (parse_table_type ans.types_conv (text_of name))

  -- tables_t behind the query; a query for catalogs, schemas or types has no other arguments.
  pub queried : Res F → TablesType → Tables F
  queried res ty = record {
    res = res;
    tables_type = ty;
    catalog_pattern = none;
    schema_pattern = none;
    table_pattern = none;
    select_current_db = false;
    db = [];
    table_types = [];
  }

  pub open_generic : Answers F → Names → Outcome (Tables F)
  unfolding open_pattern open_db open_types queried or_err
  open_generic ans n = do
    catalog ← open_pattern ans n.catalog
    db ← open_db ans n.catalog
    schema ← open_pattern ans n.schema
    table ← open_pattern ans n.table
    type_pattern ← open_pattern ans n.table_type
    types ← open_types ans n.table_type
    res ← or_err hy000 (ans.query tables_for_generic)
    succeeds (record (queried res tables_for_generic) {
      catalog_pattern = catalog;
      schema_pattern = schema;
      table_pattern = table;
      select_current_db = db.0;
      db = db.1;
      table_types = types;
    })

  pub open_query : Answers F → TablesType → Outcome (Tables F)
  unfolding queried or_err
  open_query ans ty = or_err hy000 (ans.query ty) >>= λ res. succeeds (queried res ty)

  pub open_by_type : Answers F → Names → TablesType → Outcome (Tables F)
  unfolding open_generic open_query
  open_by_type ans n tables_for_generic = open_generic ans n
  open_by_type ans n tables_for_catalogs = open_query ans tables_for_catalogs
  open_by_type ans n tables_for_schemas = open_query ans tables_for_schemas
  open_by_type ans n tables_for_tabletypes = open_query ans tables_for_tabletypes

  unfoldable pub tables_open : Answers F → Names → Outcome (Tables F)
  unfolding open_by_type tables_type_of
  tables_open ans n = open_by_type ans n (tables_type_of n)
