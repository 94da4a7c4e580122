-- ===== src/GetData/Session.antt =====
-- A call of SQLGetData on the current row: _stmt_get_data_prepare_ctx, _stmt_get_data_x and
-- _stmt_get_data_impl of src/core/stmt.c. The columns come from the statement's implementation
-- (stmt_base_t), by `get_data` and `get_col_count`.
pub mod Binary
use taos_connector_odbc.Prelude.{
  ℕ, zero, suc, ◌+◌, ltb, if◌then◌else◌, ◌==◌, not, Bool, Option, none, some, List, [], ◌∷◌,
}
use taos_connector_odbc.Prelude.Int.{ℤ, pos}
use taos_connector_odbc.Odbc.{
  Text, CType, Pointer, SqlReturn, sql_success, sql_error, hy000, hy109, s07009, type_code,
}
use taos_connector_odbc.GetData.State.{
  Libc, TsdbData, tsdb_null, tsdb_bool, tsdb_utinyint, tsdb_usmallint, tsdb_uint, tsdb_ubigint,
  tsdb_tinyint, tsdb_smallint, tsdb_int, tsdb_bigint, tsdb_float, tsdb_double, tsdb_varchar,
  tsdb_json, tsdb_nchar, tsdb_timestamp, tsdb_varbinary, tsdb_geometry, tsdb_other, Args, Stmt, Ctx,
  fail,
}
use taos_connector_odbc.GetData.Fixed.{Stamp, stamp, no_time, aborts, timestamp_to_tm_local}
use taos_connector_odbc.GetData.Char.{Names}
use taos_connector_odbc.GetData.Copy.{target_is_text, get_data_copy}

-- stmt->base: a column of the current row, or the failure of reading it, and the columns' number.
pub record Base (F : Type 0) : Type 0 where
  pub get_data : ℕ → Option (TsdbData F)
  pub get_col_count : Option ℕ

-- What a target of variable size is made of. On `no_time` the source goes on with the length -1,
-- and on `aborts` it stops; the model stops on both.
pub data Pending : Type 0 where
  pending : List ℕ → Pending
  unknown stops : Pending

module _ (L : Libc) (names : Names) (true_text : Text) (false_text : Text) where
  stamp_text : Stamp → Pending
  stamp_text (stamp tm w fraction) = pending (L.print_stamp tm w fraction)
  stamp_text no_time = stops
  stamp_text aborts = stops

  unfoldable pub pending_of : TsdbData L.Float → Pending
  unfolding stamp_text timestamp_to_tm_local
  pending_of tsdb_null = pending []
  pending_of (tsdb_bool b) = pending (if b == 0 then false_text else true_text)
  pending_of (tsdb_tinyint v) = pending (L.print_int v)
  pending_of (tsdb_utinyint v) = pending (L.print_int (pos v))
  pending_of (tsdb_smallint v) = pending (L.print_int v)
  pending_of (tsdb_usmallint v) = pending (L.print_int (pos v))
  pending_of (tsdb_int v) = pending (L.print_int v)
  pending_of (tsdb_uint v) = pending (L.print_int (pos v))
  pending_of (tsdb_bigint v) = pending (L.print_int v)
  pending_of (tsdb_ubigint v) = pending (L.print_int (pos v))
  pending_of (tsdb_float v) = pending (L.print_float v)
  pending_of (tsdb_double v) = pending (L.print_float v)
  pending_of (tsdb_varchar text) = pending text
  pending_of (tsdb_timestamp v precision) = stamp_text (timestamp_to_tm_local L v precision)
  pending_of (tsdb_nchar encoder text) = pending text
  pending_of (tsdb_json text) = pending text
  pending_of (tsdb_varbinary bs) = pending bs
  pending_of (tsdb_geometry bs) = pending bs
  pending_of tsdb_other = unknown

  -- ctx->pos and ctx->nr; the residual stays as it was.
  set_pending : Pending → Stmt L.Float → Stmt L.Float × SqlReturn
  set_pending (pending bs) s = (record s { ctx = record (s.ctx) { pos = some bs } }, sql_success)
  set_pending unknown s = fail hy000 s
  set_pending stops s = (s, sql_error)

  -- After base->get_data.
  prepare_column : CType → Option (TsdbData L.Float) → Stmt L.Float → Stmt L.Float × SqlReturn
  unfolding set_pending pending_of target_is_text
  prepare_column t none s = fail hy000 s
  prepare_column t (some tsdb_null) s =
      (record s { ctx = record (s.ctx) { tsdb = tsdb_null } }, sql_success)
  prepare_column t (some d) s =
      let s' = record s { ctx = record (s.ctx) { tsdb = d } } in
      if target_is_text t then set_pending (pending_of d) s' else (s', sql_success)

  unfoldable pub prepare_ctx : Base L.Float → Stmt L.Float → Args → Stmt L.Float × SqlReturn
  unfolding prepare_column
  prepare_ctx base s a = prepare_column a.target_type (base.get_data a.col_or_param_num) s

  -- The column and the type of a series of calls.
  start_column : Stmt L.Float → Args → Stmt L.Float
  start_column s a = record s {
    ctx = record (s.ctx) { col_or_param_num = a.col_or_param_num; target_type = a.target_type };
  }

  copy_if_same_type : Stmt L.Float → Args → Stmt L.Float × SqlReturn
  unfolding get_data_copy type_code
  copy_if_same_type s a =
      if not (type_code s.ctx.target_type == type_code a.target_type)
      then fail hy000 s
      else get_data_copy L names s a

  copy_if_prepared : Stmt L.Float × SqlReturn → Args → Stmt L.Float × SqlReturn
  unfolding copy_if_same_type
  copy_if_prepared (s, sql_success) a = copy_if_same_type s a
  copy_if_prepared (s, _) a = (s, sql_error)

  unfoldable pub get_data_x : Base L.Float → Stmt L.Float → Args → Stmt L.Float × SqlReturn
  unfolding start_column prepare_ctx copy_if_prepared copy_if_same_type
  get_data_x base s a =
      if not (s.ctx.col_or_param_num == a.col_or_param_num)
      then copy_if_prepared (prepare_ctx base (start_column s a) a) a
      else copy_if_same_type s a

  -- With the number of columns.
  get_data_counted : Option ℕ → Base L.Float → ℕ → Stmt L.Float → Args → Stmt L.Float × SqlReturn
  unfolding get_data_x
  get_data_counted none base row_array_size s a = (s, sql_error)
  get_data_counted (some count) base row_array_size s a =
      if ltb count a.col_or_param_num
      then fail s07009 s
      else if ltb 1 row_array_size
      then fail hy109 s
      else get_data_x base s a

  -- SQLGetData: one pointer for the length and the indicator.
  unfoldable pub get_data_impl :
      Base L.Float → ℕ → Stmt L.Float → ℕ → CType → Pointer → ℤ → Pointer → Stmt L.Float × SqlReturn
  unfolding get_data_counted
  get_data_impl base row_array_size s num t value_ptr buffer_length str_len_or_ind_ptr =
      if num == 0
      then fail hy000 s
      else get_data_counted base.get_col_count base row_array_size s (record {
        col_or_param_num = num;
        target_type = t;
        target_value_ptr = value_ptr;
        buffer_length = buffer_length;
        str_len_ptr = str_len_or_ind_ptr;
        ind_ptr = str_len_or_ind_ptr;
      })
