-- ===== src/GetData/Copy.antt =====
-- The choice by types: _stmt_get_data_copy_int64, _uint64, _double, _timestamp, _varbinary and
-- _geometry, _stmt_get_data_copy, _stmt_get_data_prepare_ctx, _stmt_get_data_x and
-- _stmt_get_data_impl of src/core/stmt.c.
pub mod Narrowing
use taos_connector_odbc.Prelude.{
  ℕ, zero, suc, ltb, leb, if◌then◌else◌, ◌==◌, not, Bool, true, false, Option, none, some, List, [],
  ◌∷◌, take,
}
use taos_connector_odbc.Prelude.Int.{ℤ, pos}
use taos_connector_odbc.Odbc.{
  Text, printed, CType, sql_c_char, sql_c_wchar, sql_c_binary, sql_c_type_timestamp, Pointer,
  SqlReturn, sql_success, sql_error, hy000, hy109, s07009, s22002,
}
use taos_connector_odbc.GetData.State.{
  Libc, TsdbData, tsdb_null, tsdb_bool, tsdb_utinyint, tsdb_usmallint, tsdb_uint, tsdb_ubigint,
  tsdb_tinyint, tsdb_smallint, tsdb_int, tsdb_bigint, tsdb_float, tsdb_double, tsdb_varchar,
  tsdb_json, tsdb_nchar, tsdb_timestamp, tsdb_varbinary, tsdb_geometry, tsdb_other, Args, Stmt,
  Value, put_value, put_length, fail, sql_null_data,
}
use taos_connector_odbc.GetData.Fixed.{
  integer_bits, timestamp_bits, double_bits, copy_to_timestamp, Stamp, stamp, no_time, aborts,
  timestamp_to_tm_local,
}
use taos_connector_odbc.GetData.Char.{Names, copy_buf_to_char, copy_buf_to_wchar}
use taos_connector_odbc.GetData.Binary.{
  set_pos, copy_buf_to_binary, copy_varbinary_to_binary, copy_geometry_to_binary,
}
use taos_connector_odbc.GetData.Varchar.{copy_varchar}

-- Is the target of variable size?
unfoldable pub target_is_text : CType → Bool
target_is_text sql_c_char = true
target_is_text sql_c_wchar = true
target_is_text sql_c_binary = true
target_is_text _ = false

module _ (L : Libc) (names : Names) where
  -- The targets that every number has besides those of a fixed size.
  copy_text : CType → Stmt L.Float → Args → Stmt L.Float × SqlReturn
  copy_text sql_c_char s a = copy_buf_to_char L names s a
  copy_text sql_c_wchar s a = copy_buf_to_wchar L names s a
  copy_text sql_c_binary s a = copy_buf_to_binary s a
  copy_text _ s a = fail hy000 s

  -- The same, and SQL_C_TYPE_TIMESTAMP.
  copy_stamp_or_text : CType → ℤ → ℕ → Stmt L.Float → Args → Stmt L.Float × SqlReturn
  unfolding copy_text
  copy_stamp_or_text sql_c_type_timestamp v precision s a = copy_to_timestamp L v precision s a
  copy_stamp_or_text t v precision s a = copy_text t s a

  unfoldable pub copy_int64 : ℤ → Stmt L.Float → Args → Stmt L.Float × SqlReturn
  unfolding integer_bits copy_stamp_or_text
  copy_int64 v s a = elim (integer_bits a.target_type v) [
    | some x ↦ (put_value a.target_value_ptr x s, sql_success)
    | none ↦ copy_stamp_or_text a.target_type v 0 s a
  ]

  unfoldable pub copy_uint64 : ℕ → Stmt L.Float → Args → Stmt L.Float × SqlReturn
  unfolding integer_bits copy_text
  copy_uint64 v s a = elim (integer_bits a.target_type (pos v)) [
    | some x ↦ (put_value a.target_value_ptr x s, sql_success)
    | none ↦ copy_text a.target_type s a
  ]

  unfoldable pub copy_double : L.Float → Stmt L.Float → Args → Stmt L.Float × SqlReturn
  unfolding double_bits copy_text
  copy_double v s a = elim (double_bits L a.target_type v) [
    | some x ↦ (put_value a.target_value_ptr x s, sql_success)
    | none ↦ copy_text a.target_type s a
  ]

  unfoldable pub copy_timestamp : ℤ → ℕ → Stmt L.Float → Args → Stmt L.Float × SqlReturn
  unfolding timestamp_bits copy_stamp_or_text
  copy_timestamp v precision s a = elim (timestamp_bits a.target_type v) [
    | some x ↦ (put_value a.target_value_ptr x s, sql_success)
    | none ↦ copy_stamp_or_text a.target_type v precision s a
  ]

  copy_varbinary : CType → Stmt L.Float → Args → Stmt L.Float × SqlReturn
  copy_varbinary sql_c_binary s a = copy_varbinary_to_binary s a
  copy_varbinary _ s a = fail hy000 s

  copy_geometry : CType → Stmt L.Float → Args → Stmt L.Float × SqlReturn
  copy_geometry sql_c_binary s a = copy_geometry_to_binary s a
  copy_geometry _ s a = fail hy000 s

  -- By the type of the column; `tsdb_null` is is_null.
  unfoldable pub copy_data : TsdbData L.Float → Stmt L.Float → Args → Stmt L.Float × SqlReturn
  unfolding copy_int64 copy_uint64 copy_double copy_timestamp copy_varbinary copy_geometry
      put_length
  copy_data tsdb_null s a =
      if a.ind_ptr == 0 then fail s22002 s else (put_length a.ind_ptr sql_null_data s, sql_success)
  copy_data (tsdb_bool b) s a = copy_uint64 b s a
  copy_data (tsdb_tinyint v) s a = copy_int64 v s a
  copy_data (tsdb_utinyint v) s a = copy_uint64 v s a
  copy_data (tsdb_smallint v) s a = copy_int64 v s a
  copy_data (tsdb_usmallint v) s a = copy_uint64 v s a
  copy_data (tsdb_int v) s a = copy_int64 v s a
  copy_data (tsdb_uint v) s a = copy_uint64 v s a
  copy_data (tsdb_bigint v) s a = copy_int64 v s a
  copy_data (tsdb_ubigint v) s a = copy_uint64 v s a
  copy_data (tsdb_float v) s a = copy_double v s a
  copy_data (tsdb_double v) s a = copy_double v s a
  copy_data (tsdb_varchar text) s a = copy_varchar L names text s a
  copy_data (tsdb_timestamp v precision) s a = copy_timestamp v precision s a
  copy_data (tsdb_nchar encoder text) s a = copy_varchar L names text s a
  copy_data (tsdb_json text) s a = copy_varchar L names text s a
  copy_data (tsdb_varbinary bs) s a = copy_varbinary a.target_type s a
  copy_data (tsdb_geometry bs) s a = copy_geometry a.target_type s a
  copy_data tsdb_other s a = fail hy000 s

  unfoldable pub get_data_copy : Stmt L.Float → Args → Stmt L.Float × SqlReturn
  unfolding copy_data
  get_data_copy s a = copy_data s.ctx.tsdb s a
