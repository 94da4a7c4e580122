-- ===== src/GetData/Fixed.antt =====
-- Numbers into targets of a fixed size: the assignments in _stmt_get_data_copy_int64, _uint64,
-- _double and _timestamp of src/core/stmt.c, and the timestamps of src/core/tsdb.c.
use taos_connector_odbc.Prelude.{
  ℕ, zero, suc, ◌*◌, ◌/◌, ◌%◌, ◌^◌, if◌then◌else◌, ◌==◌, Option, none, some,
}
use taos_connector_odbc.Prelude.Int.{ℤ, pos, negsuc, is_zero, low_bits}
use taos_connector_odbc.Odbc.{
  CType, sql_c_bit, sql_c_tinyint, sql_c_stinyint, sql_c_utinyint, sql_c_short, sql_c_sshort,
  sql_c_ushort, sql_c_long, sql_c_slong, sql_c_ulong, sql_c_sbigint, sql_c_ubigint, sql_c_float,
  sql_c_double, SqlReturn, sql_success, sql_error, hy000,
}
use taos_connector_odbc.GetData.State.{
  Libc, Tm, Value, bits, float_value, double_value, timestamp_value, Args, Stmt, put_value, fail,
}

abbrev pub truth : ℤ → ℕ
truth v = if is_zero v then 0 else 1

-- The integer that a type of a fixed size stores for an int64_t or a uint64_t.
unfoldable pub integer_bits : {F : Type 0} → CType → ℤ → Option (Value F)
integer_bits sql_c_bit v = some (bits 8 (truth v))
integer_bits sql_c_tinyint v = some (bits 8 (low_bits 8 v))
integer_bits sql_c_stinyint v = some (bits 8 (low_bits 8 v))
integer_bits sql_c_utinyint v = some (bits 8 (low_bits 8 v))
integer_bits sql_c_short v = some (bits 16 (low_bits 16 v))
integer_bits sql_c_sshort v = some (bits 16 (low_bits 16 v))
integer_bits sql_c_ushort v = some (bits 16 (low_bits 16 v))
integer_bits sql_c_long v = some (bits 32 (low_bits 32 v))
integer_bits sql_c_slong v = some (bits 32 (low_bits 32 v))
integer_bits sql_c_ulong v = some (bits 32 (low_bits 32 v))
integer_bits sql_c_sbigint v = some (bits 64 (low_bits 64 v))
integer_bits sql_c_ubigint v = some (bits 64 (low_bits 64 v))
integer_bits _ v = none

-- The types that _stmt_get_data_copy_timestamp and _double do not know.
unfoldable pub timestamp_bits : {F : Type 0} → CType → ℤ → Option (Value F)
unfolding integer_bits
timestamp_bits sql_c_tinyint v = none
timestamp_bits sql_c_long v = none
timestamp_bits t v = integer_bits t v

-- How a timestamp reads as local time: a failure of localtime_r, or an assertion that ends the
-- process, on a fraction before 1970 or a precision other than 0, 1 and 2.
pub data Stamp : Type 0 where
  stamp : Tm → ℕ → ℕ → Stamp
  no_time aborts : Stamp

split_stamp : Option Tm → ℕ → ℕ → Stamp
split_stamp none w fraction = no_time
split_stamp (some tm) w fraction = stamp tm w fraction

-- -(n / d), as C divides.
negated : ℕ → ℤ
negated zero = pos 0
negated (suc n) = negsuc n

module _ (L : Libc) where
  -- Units of 10 ^ -w seconds.
  units_to_tm : ℕ → ℤ → Stamp
  unfolding split_stamp negated
  units_to_tm w (pos n) = split_stamp (L.localtime (pos (n / 10 ^ w))) w (n % 10 ^ w)
  units_to_tm w (negsuc n) =
      if suc n % 10 ^ w == 0
      then split_stamp (L.localtime (negated (suc n / 10 ^ w))) w 0
      else aborts

  unfoldable pub timestamp_to_tm_local : ℤ → ℕ → Stamp
  unfolding units_to_tm
  timestamp_to_tm_local val zero = units_to_tm 3 val
  timestamp_to_tm_local val (suc zero) = units_to_tm 6 val
  timestamp_to_tm_local val (suc (suc zero)) = units_to_tm 9 val
  timestamp_to_tm_local val _ = aborts

  -- The fraction in nanoseconds.
  billionths : ℕ → ℕ → ℕ
  billionths zero fraction = fraction * 1000000
  billionths (suc zero) fraction = fraction * 1000
  billionths _ fraction = fraction

  -- SQL_C_TYPE_TIMESTAMP. Where the process aborts the model stops without a diagnostic.
  store_stamp : ℕ → Stamp → Stmt L.Float → Args → Stmt L.Float × SqlReturn
  unfolding billionths
  store_stamp precision (stamp tm w fraction) s a = (
    put_value a.target_value_ptr (timestamp_value tm (billionths precision fraction)) s,
    sql_success,
  )
  store_stamp precision no_time s a = fail hy000 s
  store_stamp precision aborts s a = (s, sql_error)

  unfoldable pub copy_to_timestamp : ℤ → ℕ → Stmt L.Float → Args → Stmt L.Float × SqlReturn
  unfolding store_stamp timestamp_to_tm_local
  copy_to_timestamp val precision s a =
      store_stamp precision (timestamp_to_tm_local val precision) s a

  -- A double as a type of a fixed size.
  unfoldable pub double_bits : CType → L.Float → Option (Value L.Float)
  double_bits sql_c_bit v = some (bits 8 (if L.float_bits 8 v == 0 then 0 else 1))
  double_bits sql_c_stinyint v = some (bits 8 (L.float_bits 8 v))
  double_bits sql_c_utinyint v = some (bits 8 (L.float_bits 8 v))
  double_bits sql_c_sshort v = some (bits 16 (L.float_bits 16 v))
  double_bits sql_c_ushort v = some (bits 16 (L.float_bits 16 v))
  double_bits sql_c_slong v = some (bits 32 (L.float_bits 32 v))
  double_bits sql_c_ulong v = some (bits 32 (L.float_bits 32 v))
  double_bits sql_c_sbigint v = some (bits 64 (L.float_bits 64 v))
  double_bits sql_c_ubigint v = some (bits 64 (L.float_bits 64 v))
  double_bits sql_c_float v = some (float_value (L.narrow v))
  double_bits sql_c_double v = some (double_value v)
  double_bits _ v = none
