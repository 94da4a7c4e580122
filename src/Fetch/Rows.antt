-- ===== src/Fetch/Rows.antt =====
-- The fetch of a rowset in src/core/stmt.c: _get_data_ctx_reset, _stmt_get_address, _stmt_fill_col,
-- _stmt_fill_row, _stmt_fetch_rows, _stmt_fetch_x, _stmt_fetch, stmt_fetch_scroll and stmt_fetch.
pub mod Arrays
pub mod Cells
pub mod Rowset
pub mod Refines
pub mod Loop
use taos_connector_odbc.Prelude.{
  ℕ, zero, suc, ◌+◌, ◌-◌, ◌*◌, ◌%◌, ◌^◌, leb, ltb, ◌==◌, if◌then◌else◌, not, ◌||◌, Bool, true,
  false, none, List, [], ◌∷◌, ◌++◌, set, take,
}
use taos_connector_odbc.Prelude.Int.{ℤ, pos, low_bits}
use taos_connector_odbc.Odbc.{
  Text, Pointer, SqlReturn, sql_success, sql_success_with_info, sql_no_data, sql_error, SqlState,
  hy000,
}
use taos_connector_odbc.Desc.{DescRecord, DescHeader, Descriptor, sql_bind_by_column}
use taos_connector_odbc.GetData.State.{Libc, Args, Stmt, append_err}
use taos_connector_odbc.GetData.Char.{Names}
use taos_connector_odbc.GetData.Session.{Base, get_data_x}
use taos_connector_odbc.Fetch.Blocks.{Res, fetch_row, tsdb_base}

-- The values of DESC_ARRAY_STATUS_PTR.
abbrev pub sql_row_success : ℕ
sql_row_success = 0

abbrev pub sql_row_norow : ℕ
sql_row_norow = 3

abbrev pub sql_row_error : ℕ
sql_row_error = 5

abbrev pub sql_row_success_with_info : ℕ
sql_row_success_with_info = 6

-- The orientations of SQLFetchScroll: SQL_FETCH_NEXT, and any other.
pub data Orientation : Type 0 where
  fetch_next : Orientation
  fetch_other : ℕ → Orientation

-- The statement, its result, and the memory that the headers of the descriptors point to: the
-- array at DESC_ARRAY_STATUS_PTR and the number at DESC_ROWS_PROCESSED_PTR.
pub record Fetching (F : Type 0) : Type 0 where
  pub stmt : Stmt F
  pub res : Res F
  pub array_status : List ℕ
  pub rows_processed : ℕ

-- Arithmetic on addresses wraps around at 2 ^ 64. `memory` is what the application keeps at an
-- address; only DESC_BIND_OFFSET_PTR is read.
abbrev pub stmt_get_address : (Pointer → ℤ) → DescHeader → Pointer → ℤ → ℕ → Pointer
stmt_get_address memory header ptr octet_length i_row =
    let offset =
      if header.desc_bind_offset_ptr == 0
      then 0
      else low_bits 64 (memory header.desc_bind_offset_ptr) in
    if ptr == 0 then 0 else (ptr + offset + low_bits 64 octet_length * i_row) % 2 ^ 64

abbrev pub sizeof_sqllen : ℤ
sizeof_sqllen = pos 8

-- The status of a row, from what _stmt_fill_row returns.
unfoldable pub status_of : SqlReturn → ℕ
status_of sql_success = sql_row_success
status_of sql_success_with_info = sql_row_success_with_info
status_of _ = sql_row_error

module _ {F : Type 0} where
  abbrev pub get_data_ctx_reset : Stmt F → Stmt F
  get_data_ctx_reset s = record s { ctx = record (s.ctx) { pos = none; col_or_param_num = 0 } }

  -- An error with its diagnostic.
  abbrev failed_with : SqlState → Fetching F → Fetching F × SqlReturn
  failed_with e f = (record f { stmt = append_err e f.stmt }, sql_error)

  -- `if (DESC_ARRAY_STATUS_PTR) DESC_ARRAY_STATUS_PTR[i_row] = status`
  pub put_status : DescHeader → ℕ → ℕ → Fetching F → Fetching F
  put_status ird i_row status f =
      if ird.desc_array_status_ptr == 0
      then f
      else record f { array_status = set f.array_status i_row status }

  -- The loop over the rows from `i` on that were not fetched, `n` of them.
  pub put_norow : DescHeader → ℕ → ℕ → Fetching F → Fetching F
  unfolding put_status
  put_norow ird i zero f = f
  put_norow ird i (suc n) f = put_norow ird (suc i) n (put_status ird i sql_row_norow f)

  pub put_rows_processed : DescHeader → ℕ → Fetching F → Fetching F
  put_rows_processed ird n f =
      if ird.desc_rows_processed_ptr == 0 then f else record f { rows_processed = n }

module _ (L : Libc) (names : Names) (true_text : Text) (false_text : Text) (memory : Pointer → ℤ)
    (ard : Descriptor) (ird : DescHeader) where
  pub fill_col : Base L.Float → ℕ → ℕ → DescRecord → Stmt L.Float → Stmt L.Float × SqlReturn
  unfolding get_data_x
  fill_col base i_row i_col r s =
      if leb ard.header.desc_count i_col || (r.desc_data_ptr == 0)
      then (s, sql_success)
      else get_data_x L names true_text false_text base s (record {
        col_or_param_num = suc i_col;
        target_type = r.desc_concise_type;
        target_value_ptr =
            stmt_get_address memory ard.header r.desc_data_ptr r.desc_octet_length i_row;
        buffer_length = r.desc_octet_length;
        str_len_ptr =
            stmt_get_address memory ard.header r.desc_octet_length_ptr sizeof_sqllen i_row;
        ind_ptr = stmt_get_address memory ard.header r.desc_indicator_ptr sizeof_sqllen i_row;
      })

  -- The loop of _stmt_fill_row over the records from `i_col` on.
  pub fill_cols :
      Base L.Float → ℕ → Bool → ℕ → List DescRecord → Stmt L.Float → Stmt L.Float × SqlReturn
  unfolding fill_col
  fill_cols base i_row with_info i_col [] s =
      (s, if with_info then sql_success_with_info else sql_success)
  fill_cols base i_row with_info i_col (r ∷ rs) s =
      let skip = leb ard.header.desc_count i_col || (not r.bound || (r.desc_data_ptr == 0)) in
      let (s', sr) = fill_col base i_row i_col r s in
      elim skip [
        | true ↦ fill_cols base i_row with_info (suc i_col) rs s
        | false ↦ elim sr [
          | sql_success ↦ fill_cols base i_row with_info (suc i_col) rs (get_data_ctx_reset s')
          | sql_success_with_info ↦ fill_cols base i_row true (suc i_col) rs (get_data_ctx_reset s')
          | sql_no_data ↦ (get_data_ctx_reset s', sql_error)
          | sql_error ↦ (get_data_ctx_reset s', sql_error)
        ]
      ]

  -- The descriptor has `cap` records.
  pub fill_row : Base L.Float → ℕ → Stmt L.Float → Stmt L.Float × SqlReturn
  unfolding fill_cols
  fill_row base i_row s = fill_cols base i_row false 0 (take ard.cap ard.records) s

  -- The body of the loop after a row was fetched: fill it, and store its status.
  pub take_row : ℕ → Fetching L.Float → Fetching L.Float
  unfolding fill_row put_status
  take_row i_row f =
      let (s, sr) = fill_row (tsdb_base f.res) i_row f.stmt in
      put_status ird i_row (status_of sr) (record f { stmt = s })

  -- base->fetch_row, with its diagnostics.
  pub fetch_next_row : Fetching L.Float → Fetching L.Float × SqlReturn
  unfolding fetch_row
  fetch_next_row f =
      let (res, sr, diags) = fetch_row f.res in
      (record f { res = res; stmt = record (f.stmt) { diags = diags ++ f.stmt.diags } }, sr)

  -- `n` more rows, from row `i_row` on; also the number of rows fetched.
  pub fetch_rows : ℕ → ℕ → Fetching L.Float → Fetching L.Float × SqlReturn × ℕ
  unfolding fetch_next_row take_row
  fetch_rows zero i_row f = (f, sql_success, i_row)
  fetch_rows (suc n) i_row f =
      let (f', sr) = fetch_next_row f in
      elim sr [
        | sql_success ↦ fetch_rows n (suc i_row) (take_row i_row f')
        | sql_no_data ↦ (f', if i_row == 0 then sql_no_data else sql_success, i_row)
        | sql_success_with_info ↦ (f', sql_error, i_row)
        | sql_error ↦ (f', sql_error, i_row)
      ]

  -- DESC_ARRAY_SIZE, at least 1.
  abbrev pub rowset_size : ℕ
  rowset_size = if ard.header.desc_array_size == 0 then 1 else ard.header.desc_array_size

  pub fetch_x : Fetching L.Float → Fetching L.Float × SqlReturn
  unfolding fetch_rows put_norow put_rows_processed
  fetch_x f =
      let (f', sr, nr_rows) =
        fetch_rows rowset_size 0 (record f { stmt = get_data_ctx_reset f.stmt }) in
      (put_norow ird nr_rows (rowset_size - nr_rows) (put_rows_processed ird nr_rows f'), sr)

  stmt_fetch_rowset : Fetching L.Float → Fetching L.Float × SqlReturn
  unfolding fetch_x
  stmt_fetch_rowset f =
      if not (ard.header.desc_bind_type == sql_bind_by_column)
      then failed_with hy000 (record f { stmt = get_data_ctx_reset f.stmt })
      else fetch_x (record f { stmt = get_data_ctx_reset f.stmt })

  pub stmt_fetch_scroll : Orientation → Fetching L.Float → Fetching L.Float × SqlReturn
  unfolding stmt_fetch_rowset
  stmt_fetch_scroll fetch_next f = stmt_fetch_rowset (record f { stmt = get_data_ctx_reset f.stmt })
  stmt_fetch_scroll (fetch_other n) f =
      failed_with hy000 (record f { stmt = get_data_ctx_reset f.stmt })

  pub stmt_fetch : Fetching L.Float → Fetching L.Float × SqlReturn
  unfolding stmt_fetch_scroll
  stmt_fetch f = stmt_fetch_scroll fetch_next f
