-- ===== src/Attributes.antt =====
-- SQLSetStmtAttr and SQLGetStmtAttr: stmt_set_attr, stmt_get_attr and the setters of
-- src/core/stmt.c, but for SQL_ATTR_APP_ROW_DESC and SQL_ATTR_APP_PARAM_DESC, whose
-- setting Handles has.
pub mod Kept
pub mod Read
mod Tests
use taos_connector_odbc.Prelude.{
  ℕ, ◌==◌, if◌then◌else◌, Bool, true, false, not, ◌&&◌, ◌||◌, Option, none, some, List, ◌∷◌,
}
use taos_connector_odbc.Odbc.{
  SqlReturn, sql_success, sql_success_with_info, sql_error, Pointer, SqlState, hy000, s01s02,
}
use taos_connector_odbc.Desc.{DescHeader, sql_bind_by_column}

-- The attributes that stmt_set_attr names, and any other.
pub data Attr : Type 0 where
  async_enable async_stmt_event async_stmt_pcallback async_stmt_pcontext : Attr
  concurrency cursor_scrollable cursor_sensitivity cursor_type : Attr
  enable_auto_ipd fetch_bookmark_ptr imp_param_desc imp_row_desc : Attr
  keyset_size max_length max_rows metadata_id : Attr
  noscan param_bind_offset_ptr param_bind_type param_operation_ptr : Attr
  param_status_ptr params_processed_ptr paramset_size query_timeout : Attr
  retrieve_data row_array_size row_bind_offset_ptr row_bind_type : Attr
  row_number row_operation_ptr row_status_ptr rows_fetched_ptr : Attr
  simulate_cursor use_bookmarks rowset_size unknown_attr : Attr

-- The statement: the headers of its descriptors, its own attributes, what the attributes depend
-- on (`ado` is the product CUSTP_ADO; the handles are the addresses of IPD and IRD), and the diagnostics, newest first.
pub record Attrs : Type 0 where
  pub ard : DescHeader
  pub apd : DescHeader
  pub ird : DescHeader
  pub ipd : DescHeader
  pub cursor_attr : ℕ
  pub concurrency_attr : ℕ
  pub ado : Bool
  pub ipd_handle : Pointer
  pub ird_handle : Pointer
  pub prepared : Bool
  pub is_insert_stmt : Bool
  pub diags : List SqlState

abbrev pub sql_cursor_forward_only : ℕ
sql_cursor_forward_only = 0

abbrev pub sql_cursor_static : ℕ
sql_cursor_static = 3

abbrev pub sql_concur_read_only : ℕ
sql_concur_read_only = 1

abbrev pub sql_concur_lock : ℕ
sql_concur_lock = 2

abbrev pub warn : SqlState → SqlReturn → Attrs → Attrs × SqlReturn
warn e sr s = (record s { diags = e ∷ s.diags }, sr)

abbrev pub unsupported : Attrs → Attrs × SqlReturn
unsupported s = warn hy000 sql_error s

-- One value is accepted, which is in force anyway.
abbrev pub only : ℕ → ℕ → Attrs → Attrs × SqlReturn
only n v s = if v == n then (s, sql_success) else unsupported s

-- Any other value is substituted by `n`.
abbrev pub substitute : ℕ → ℕ → Attrs → Attrs × SqlReturn
substitute n v s = if v == n then (s, sql_success) else warn s01s02 sql_success_with_info s

abbrev pub set_concurrency : Bool → ℕ → Attrs → Attrs × SqlReturn
set_concurrency false v s = unsupported s
set_concurrency true v s =
    if (v == sql_concur_lock) || (v == sql_concur_read_only)
    then (record s { concurrency_attr = v }, sql_success)
    else unsupported s

abbrev pub set_cursor_type : ℕ → Attrs → Attrs × SqlReturn
set_cursor_type v s =
    if (v == sql_cursor_forward_only) || (v == sql_cursor_static)
    then (record s { cursor_attr = v }, sql_success)
    else unsupported s

abbrev pub set_param_bind_type : ℕ → Attrs → Attrs × SqlReturn
set_param_bind_type v s =
    if v == sql_bind_by_column
    then (record s { apd = record (s.apd) { desc_bind_type = v } }, sql_success)
    else unsupported s

abbrev pub set_row_bind_type : ℕ → Attrs → Attrs × SqlReturn
set_row_bind_type v s =
    if v == sql_bind_by_column
    then (record s { ard = record (s.ard) { desc_bind_type = v } }, sql_success)
    else unsupported s

abbrev pub set_row_array_size : ℕ → Attrs → Attrs × SqlReturn
set_row_array_size v s =
    if v == 0
    then warn s01s02 sql_success_with_info s
    else (record s { ard = record (s.ard) { desc_array_size = v } }, sql_success)

-- The size is kept even where a statement that is no insert refuses it.
abbrev pub set_paramset_size : ℕ → Attrs → Attrs × SqlReturn
set_paramset_size v s =
    let s' = record s { apd = record (s.apd) { desc_array_size = v } } in
    if v == 0
    then warn s01s02 sql_success_with_info s
    else if not (v == 1) && (s.prepared && not s.is_insert_stmt)
    then unsupported s'
    else (s', sql_success)

pub stmt_set_attr : Attr → ℕ → Attrs → Attrs × SqlReturn
stmt_set_attr async_enable v s = only 0 v s
stmt_set_attr async_stmt_event v s = unsupported s
stmt_set_attr async_stmt_pcallback v s = unsupported s
stmt_set_attr async_stmt_pcontext v s = unsupported s
stmt_set_attr concurrency v s = set_concurrency s.ado v s
stmt_set_attr cursor_scrollable v s = only 0 v s
stmt_set_attr cursor_sensitivity v s = only 0 v s
stmt_set_attr cursor_type v s = set_cursor_type v s
stmt_set_attr enable_auto_ipd v s = only 0 v s
stmt_set_attr fetch_bookmark_ptr v s = unsupported s
stmt_set_attr imp_param_desc v s = unsupported s
stmt_set_attr imp_row_desc v s = unsupported s
stmt_set_attr keyset_size v s = unsupported s
stmt_set_attr max_length v s = substitute 0 v s
stmt_set_attr max_rows v s = only 0 v s
stmt_set_attr metadata_id v s = only 0 v s
stmt_set_attr noscan v s = only 1 v s
stmt_set_attr param_bind_offset_ptr v s = unsupported s
stmt_set_attr param_bind_type v s = set_param_bind_type v s
stmt_set_attr param_operation_ptr v s = unsupported s
stmt_set_attr param_status_ptr v s =
    (record s { ipd = record (s.ipd) { desc_array_status_ptr = v } }, sql_success)
stmt_set_attr params_processed_ptr v s =
    (record s { ipd = record (s.ipd) { desc_rows_processed_ptr = v } }, sql_success)
stmt_set_attr paramset_size v s = set_paramset_size v s
stmt_set_attr query_timeout v s = substitute 0 v s
stmt_set_attr retrieve_data v s = substitute 1 v s
stmt_set_attr row_array_size v s = set_row_array_size v s
stmt_set_attr row_bind_offset_ptr v s =
    (record s { ard = record (s.ard) { desc_bind_offset_ptr = v } }, sql_success)
stmt_set_attr row_bind_type v s = set_row_bind_type v s
stmt_set_attr row_number v s = unsupported s
stmt_set_attr row_operation_ptr v s = unsupported s
stmt_set_attr row_status_ptr v s =
    (record s { ird = record (s.ird) { desc_array_status_ptr = v } }, sql_success)
stmt_set_attr rows_fetched_ptr v s =
    (record s { ird = record (s.ird) { desc_rows_processed_ptr = v } }, sql_success)
stmt_set_attr simulate_cursor v s = unsupported s
stmt_set_attr use_bookmarks v s = only 0 v s
stmt_set_attr rowset_size v s = set_row_array_size v s
stmt_set_attr unknown_attr v s = unsupported s

-- The value that is stored, and `none` for an attribute that is not supported.
pub read_attr : Attr → Attrs → Option ℕ
read_attr concurrency s = some s.concurrency_attr
read_attr cursor_type s = some s.cursor_attr
read_attr imp_param_desc s = some s.ipd_handle
read_attr imp_row_desc s = some s.ird_handle
read_attr query_timeout s = some 0
read_attr row_array_size s = some s.ard.desc_array_size
read_attr rowset_size s = some s.ard.desc_array_size
read_attr _ s = none

abbrev stored : Option ℕ → Attrs → Attrs × SqlReturn × Option ℕ
stored none s = (record s { diags = hy000 ∷ s.diags }, sql_error, none)
stored (some v) s = (s, sql_success, some v)

unfoldable pub stmt_get_attr : Attr → Attrs → Attrs × SqlReturn × Option ℕ
unfolding read_attr
stmt_get_attr a s = stored (read_attr a s) s
