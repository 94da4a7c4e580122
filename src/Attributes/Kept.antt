-- ===== src/Attributes/Kept.antt =====
-- src/core/stmt.c: what stmt_set_attr keeps, whatever is set.
use taos_connector_odbc.Prelude.{
  ℕ, ◌==◌, Bool, true, false, not, ◌&&◌, ◌||◌, List, ◌≡◌, Bool-cases, inl, inr,
}
use taos_connector_odbc.Odbc.{SqlState}
use taos_connector_odbc.Desc.{DescHeader, sql_bind_by_column}
use taos_connector_odbc.Attributes.{
  Attr, Attrs, stmt_set_attr, only, substitute, set_row_array_size, set_paramset_size,
  set_concurrency, set_cursor_type, set_row_bind_type, set_param_bind_type, async_enable,
  async_stmt_event, async_stmt_pcallback, async_stmt_pcontext, concurrency, cursor_scrollable,
  cursor_sensitivity, cursor_type, enable_auto_ipd, fetch_bookmark_ptr, imp_param_desc,
  imp_row_desc, keyset_size, max_length, max_rows, metadata_id, noscan, param_bind_offset_ptr,
  param_bind_type, param_operation_ptr, param_status_ptr, params_processed_ptr, paramset_size,
  query_timeout, retrieve_data, row_array_size, row_bind_offset_ptr, row_bind_type, row_number,
  row_operation_ptr, row_status_ptr, rows_fetched_ptr, simulate_cursor, use_bookmarks, rowset_size,
  unknown_attr,
}

-- What the rest of the driver relies on: binding by column, rowsets and parameter sets with a row,
-- and a cursor that is forward-only or static.
pub record IsUsable (s : Attrs) : Type 0 where
  pub rows_by_column : (s.ard.desc_bind_type == sql_bind_by_column) ≡ true
  pub params_by_column : (s.apd.desc_bind_type == sql_bind_by_column) ≡ true
  pub some_row : (s.ard.desc_array_size == 0) ≡ false
  pub some_param : (s.apd.desc_array_size == 0) ≡ false
  pub known_cursor : ((s.cursor_attr == 0) || (s.cursor_attr == 3)) ≡ true
  pub known_concurrency : ((s.concurrency_attr == 2) || (s.concurrency_attr == 1)) ≡ true

warned : (ds : List SqlState) (s : Attrs) → IsUsable s → IsUsable (record s { diags = ds })
warned ds s u = record {
  rows_by_column = u.rows_by_column;
  params_by_column = u.params_by_column;
  some_row = u.some_row;
  some_param = u.some_param;
  known_cursor = u.known_cursor;
  known_concurrency = u.known_concurrency;
}

only-IsUsable : (n v : ℕ) (s : Attrs) → IsUsable s → IsUsable (only n v s).0
only-IsUsable n v s u = elim (Bool-cases (v == n)) [ inl e ↦ rw e u | inr e ↦ rw e (warned _ s u) ]

substitute-IsUsable : (n v : ℕ) (s : Attrs) → IsUsable s → IsUsable (substitute n v s).0
substitute-IsUsable n v s u = elim (Bool-cases (v == n)) [
  | inl e ↦ rw e u
  | inr e ↦ rw e (warned _ s u)
]

implementation-IsUsable :
    (ird ipd : DescHeader) (s : Attrs) → IsUsable s → IsUsable (record s { ird = ird; ipd = ipd })
implementation-IsUsable ird ipd s u = record {
  rows_by_column = u.rows_by_column;
  params_by_column = u.params_by_column;
  some_row = u.some_row;
  some_param = u.some_param;
  known_cursor = u.known_cursor;
  known_concurrency = u.known_concurrency;
}

-- The header of the ARD.
rows-IsUsable :
    (ard : DescHeader) (s : Attrs)
    → IsUsable s
    → (ard.desc_bind_type == sql_bind_by_column) ≡ true
    → (ard.desc_array_size == 0) ≡ false
    → IsUsable (record s { ard = ard })
rows-IsUsable ard s u b n = record {
  rows_by_column = b;
  params_by_column = u.params_by_column;
  some_row = n;
  some_param = u.some_param;
  known_cursor = u.known_cursor;
  known_concurrency = u.known_concurrency;
}

-- The header of the APD.
params-IsUsable :
    (apd : DescHeader) (s : Attrs)
    → IsUsable s
    → (apd.desc_bind_type == sql_bind_by_column) ≡ true
    → (apd.desc_array_size == 0) ≡ false
    → IsUsable (record s { apd = apd })
params-IsUsable apd s u b n = record {
  rows_by_column = u.rows_by_column;
  params_by_column = b;
  some_row = u.some_row;
  some_param = n;
  known_cursor = u.known_cursor;
  known_concurrency = u.known_concurrency;
}

row_array_size-IsUsable : (v : ℕ) (s : Attrs) → IsUsable s → IsUsable (set_row_array_size v s).0
row_array_size-IsUsable v s u = elim (Bool-cases (v == 0)) [
  | inl e ↦ rw e (warned _ s u)
  | inr e ↦ rw e (rows-IsUsable (record (s.ard) { desc_array_size = v }) s u u.rows_by_column e)
]

paramset_size-IsUsable : (v : ℕ) (s : Attrs) → IsUsable s → IsUsable (set_paramset_size v s).0
paramset_size-IsUsable v s u = elim (Bool-cases (v == 0)) [
  | inl e ↦ rw e (warned _ s u)
  | inr e ↦
      let sized =
        params-IsUsable (record (s.apd) { desc_array_size = v }) s u u.params_by_column e in
      elim (Bool-cases (not (v == 1) && (s.prepared && not s.is_insert_stmt))) [
        | inl f ↦ rw (e, f) (warned _ _ sized)
        | inr f ↦ rw (e, f) sized
      ]
]

concurrency-IsUsable :
    (ado : Bool) (v : ℕ) (s : Attrs) → IsUsable s → IsUsable (set_concurrency ado v s).0
concurrency-IsUsable false v s u = warned _ s u
concurrency-IsUsable true v s u = elim (Bool-cases ((v == 2) || (v == 1))) [
  | inl e ↦ rw e (record {
    rows_by_column = u.rows_by_column;
    params_by_column = u.params_by_column;
    some_row = u.some_row;
    some_param = u.some_param;
    known_cursor = u.known_cursor;
    known_concurrency = e;
  })
  | inr e ↦ rw e (warned _ s u)
]

cursor_type-IsUsable : (v : ℕ) (s : Attrs) → IsUsable s → IsUsable (set_cursor_type v s).0
cursor_type-IsUsable v s u = elim (Bool-cases ((v == 0) || (v == 3))) [
  | inl e ↦ rw e (record {
    rows_by_column = u.rows_by_column;
    params_by_column = u.params_by_column;
    some_row = u.some_row;
    some_param = u.some_param;
    known_cursor = e;
    known_concurrency = u.known_concurrency;
  })
  | inr e ↦ rw e (warned _ s u)
]

row_bind_type-IsUsable : (v : ℕ) (s : Attrs) → IsUsable s → IsUsable (set_row_bind_type v s).0
row_bind_type-IsUsable v s u = elim (Bool-cases (v == sql_bind_by_column)) [
  | inl e ↦ rw e (rows-IsUsable (record (s.ard) { desc_bind_type = v }) s u e u.some_row)
  | inr e ↦ rw e (warned _ s u)
]

param_bind_type-IsUsable : (v : ℕ) (s : Attrs) → IsUsable s → IsUsable (set_param_bind_type v s).0
param_bind_type-IsUsable v s u = elim (Bool-cases (v == sql_bind_by_column)) [
  | inl e ↦ rw e (params-IsUsable (record (s.apd) { desc_bind_type = v }) s u e u.some_param)
  | inr e ↦ rw e (warned _ s u)
]

-- SQLSetStmtAttr with any attribute and any value, on every branch, keeps a statement usable: its
-- columns and parameters stay bound by column, no array size becomes 0, and the cursor type and
-- the concurrency stay known ones.
pub set_attr-IsUsable :
    (a : Attr) (v : ℕ) (s : Attrs) → IsUsable s → IsUsable (stmt_set_attr a v s).0
unfolding stmt_set_attr
set_attr-IsUsable async_enable v s u = only-IsUsable 0 v s u
set_attr-IsUsable async_stmt_event v s u = warned _ s u
set_attr-IsUsable async_stmt_pcallback v s u = warned _ s u
set_attr-IsUsable async_stmt_pcontext v s u = warned _ s u
set_attr-IsUsable concurrency v s u = concurrency-IsUsable s.ado v s u
set_attr-IsUsable cursor_scrollable v s u = only-IsUsable 0 v s u
set_attr-IsUsable cursor_sensitivity v s u = only-IsUsable 0 v s u
set_attr-IsUsable cursor_type v s u = cursor_type-IsUsable v s u
set_attr-IsUsable enable_auto_ipd v s u = only-IsUsable 0 v s u
set_attr-IsUsable fetch_bookmark_ptr v s u = warned _ s u
set_attr-IsUsable imp_param_desc v s u = warned _ s u
set_attr-IsUsable imp_row_desc v s u = warned _ s u
set_attr-IsUsable keyset_size v s u = warned _ s u
set_attr-IsUsable max_length v s u = substitute-IsUsable 0 v s u
set_attr-IsUsable max_rows v s u = only-IsUsable 0 v s u
set_attr-IsUsable metadata_id v s u = only-IsUsable 0 v s u
set_attr-IsUsable noscan v s u = only-IsUsable 1 v s u
set_attr-IsUsable param_bind_offset_ptr v s u = warned _ s u
set_attr-IsUsable param_bind_type v s u = param_bind_type-IsUsable v s u
set_attr-IsUsable param_operation_ptr v s u = warned _ s u
set_attr-IsUsable param_status_ptr v s u = implementation-IsUsable _ _ s u
set_attr-IsUsable params_processed_ptr v s u = implementation-IsUsable _ _ s u
set_attr-IsUsable paramset_size v s u = paramset_size-IsUsable v s u
set_attr-IsUsable query_timeout v s u = substitute-IsUsable 0 v s u
set_attr-IsUsable retrieve_data v s u = substitute-IsUsable 1 v s u
set_attr-IsUsable row_array_size v s u = row_array_size-IsUsable v s u
set_attr-IsUsable row_bind_offset_ptr v s u = rows-IsUsable _ s u u.rows_by_column u.some_row
set_attr-IsUsable row_bind_type v s u = row_bind_type-IsUsable v s u
set_attr-IsUsable row_number v s u = warned _ s u
set_attr-IsUsable row_operation_ptr v s u = warned _ s u
set_attr-IsUsable row_status_ptr v s u = implementation-IsUsable _ _ s u
set_attr-IsUsable rows_fetched_ptr v s u = implementation-IsUsable _ _ s u
set_attr-IsUsable simulate_cursor v s u = warned _ s u
set_attr-IsUsable use_bookmarks v s u = only-IsUsable 0 v s u
set_attr-IsUsable rowset_size v s u = row_array_size-IsUsable v s u
set_attr-IsUsable unknown_attr v s u = warned _ s u
