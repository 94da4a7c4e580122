-- ===== src/Attributes/Read.antt =====
-- src/core/stmt.c: stmt_get_attr reads what stmt_set_attr set.
use taos_connector_odbc.Prelude.{
  ℕ, ◌==◌, ==_iff, Bool, true, false, ◌||◌, Option, none, some, ◌≡◌, refl, sym, Bool-cases, inl,
  inr,
}
use taos_connector_odbc.Odbc.{SqlReturn, sql_success, sql_success_with_info, sql_no_data, sql_error}
use taos_connector_odbc.Attributes.{
  Attr, Attrs, stmt_set_attr, stmt_get_attr, set_concurrency, set_row_array_size, set_cursor_type,
  substitute, async_enable, async_stmt_event, async_stmt_pcallback, async_stmt_pcontext,
  concurrency, cursor_scrollable, cursor_sensitivity, cursor_type, enable_auto_ipd,
  fetch_bookmark_ptr, imp_param_desc, imp_row_desc, keyset_size, max_length, max_rows, metadata_id,
  noscan, param_bind_offset_ptr, param_bind_type, param_operation_ptr, param_status_ptr,
  params_processed_ptr, paramset_size, query_timeout, retrieve_data, row_array_size,
  row_bind_offset_ptr, row_bind_type, row_number, row_operation_ptr, row_status_ptr,
  rows_fetched_ptr, simulate_cursor, use_bookmarks, rowset_size, unknown_attr,
}

-- An attribute that can be read has the value `v`.
abbrev pub IsReadAs : ℕ → Option ℕ → Type 0
IsReadAs v none = Unit
IsReadAs v (some w) = w ≡ v

-- The outcome of setting an attribute to `v`, where `before` and `after` are what is read.
abbrev pub ReadsBack : ℕ → SqlReturn → Option ℕ → Option ℕ → Type 0
ReadsBack v sql_success before after = IsReadAs v after
ReadsBack v _ before after = after ≡ before

unread : (v : ℕ) (sr : SqlReturn) → ReadsBack v sr none none
unread v sql_success = tt
unread v sql_success_with_info = refl
unread v sql_no_data = refl
unread v sql_error = refl

concurrency_case :
    (ado : Bool) (v : ℕ) (s : Attrs)
    → ReadsBack v
        (set_concurrency ado v s).1
        (some s.concurrency_attr)
        (some (set_concurrency ado v s).0.concurrency_attr)
concurrency_case false v s = refl
concurrency_case true v s = elim (Bool-cases ((v == 2) || (v == 1))) [
  | inl e ↦ rw e refl
  | inr e ↦ rw e refl
]

cursor_case :
    (v : ℕ) (s : Attrs)
    → ReadsBack v
        (set_cursor_type v s).1
        (some s.cursor_attr)
        (some (set_cursor_type v s).0.cursor_attr)
cursor_case v s = elim (Bool-cases ((v == 0) || (v == 3))) [ inl e ↦ rw e refl | inr e ↦ rw e refl ]

timeout_case : (v : ℕ) (s : Attrs) → ReadsBack v (substitute 0 v s).1 (some 0) (some 0)
timeout_case v s = elim (Bool-cases (v == 0)) [
  | inl e ↦ rw e (sym ((==_iff v 0).0 e))
  | inr e ↦ rw e refl
]

size_case :
    (v : ℕ) (s : Attrs)
    → ReadsBack v
        (set_row_array_size v s).1
        (some s.ard.desc_array_size)
        (some (set_row_array_size v s).0.ard.desc_array_size)
size_case v s = elim (Bool-cases (v == 0)) [ inl e ↦ rw e refl | inr e ↦ rw e refl ]

-- An attribute that SQLSetStmtAttr sets with SQL_SUCCESS is read by SQLGetStmtAttr, if that
-- supports it, as the value that was set; and when setting it fails or substitutes another value,
-- the value that is read is the one from before.
pub set_attr-get_attr :
    (a : Attr) (v : ℕ) (s : Attrs)
    → ReadsBack v
        (stmt_set_attr a v s).1
        (stmt_get_attr a s).2
        (stmt_get_attr a (stmt_set_attr a v s).0).2
unfolding stmt_set_attr stmt_get_attr
set_attr-get_attr async_enable v s = unread v (stmt_set_attr async_enable v s).1
set_attr-get_attr async_stmt_event v s = unread v (stmt_set_attr async_stmt_event v s).1
set_attr-get_attr async_stmt_pcallback v s = unread v (stmt_set_attr async_stmt_pcallback v s).1
set_attr-get_attr async_stmt_pcontext v s = unread v (stmt_set_attr async_stmt_pcontext v s).1
set_attr-get_attr concurrency v s = concurrency_case s.ado v s
set_attr-get_attr cursor_scrollable v s = unread v (stmt_set_attr cursor_scrollable v s).1
set_attr-get_attr cursor_sensitivity v s = unread v (stmt_set_attr cursor_sensitivity v s).1
set_attr-get_attr cursor_type v s = cursor_case v s
set_attr-get_attr enable_auto_ipd v s = unread v (stmt_set_attr enable_auto_ipd v s).1
set_attr-get_attr fetch_bookmark_ptr v s = unread v (stmt_set_attr fetch_bookmark_ptr v s).1
set_attr-get_attr imp_param_desc v s = refl
set_attr-get_attr imp_row_desc v s = refl
set_attr-get_attr keyset_size v s = unread v (stmt_set_attr keyset_size v s).1
set_attr-get_attr max_length v s = unread v (stmt_set_attr max_length v s).1
set_attr-get_attr max_rows v s = unread v (stmt_set_attr max_rows v s).1
set_attr-get_attr metadata_id v s = unread v (stmt_set_attr metadata_id v s).1
set_attr-get_attr noscan v s = unread v (stmt_set_attr noscan v s).1
set_attr-get_attr param_bind_offset_ptr v s = unread v (stmt_set_attr param_bind_offset_ptr v s).1
set_attr-get_attr param_bind_type v s = unread v (stmt_set_attr param_bind_type v s).1
set_attr-get_attr param_operation_ptr v s = unread v (stmt_set_attr param_operation_ptr v s).1
set_attr-get_attr param_status_ptr v s = unread v (stmt_set_attr param_status_ptr v s).1
set_attr-get_attr params_processed_ptr v s = unread v (stmt_set_attr params_processed_ptr v s).1
set_attr-get_attr paramset_size v s = unread v (stmt_set_attr paramset_size v s).1
set_attr-get_attr query_timeout v s = timeout_case v s
set_attr-get_attr retrieve_data v s = unread v (stmt_set_attr retrieve_data v s).1
set_attr-get_attr row_array_size v s = size_case v s
set_attr-get_attr row_bind_offset_ptr v s = unread v (stmt_set_attr row_bind_offset_ptr v s).1
set_attr-get_attr row_bind_type v s = unread v (stmt_set_attr row_bind_type v s).1
set_attr-get_attr row_number v s = unread v (stmt_set_attr row_number v s).1
set_attr-get_attr row_operation_ptr v s = unread v (stmt_set_attr row_operation_ptr v s).1
set_attr-get_attr row_status_ptr v s = unread v (stmt_set_attr row_status_ptr v s).1
set_attr-get_attr rows_fetched_ptr v s = unread v (stmt_set_attr rows_fetched_ptr v s).1
set_attr-get_attr simulate_cursor v s = unread v (stmt_set_attr simulate_cursor v s).1
set_attr-get_attr use_bookmarks v s = unread v (stmt_set_attr use_bookmarks v s).1
set_attr-get_attr rowset_size v s = size_case v s
set_attr-get_attr unknown_attr v s = unread v (stmt_set_attr unknown_attr v s).1
