-- ===== src/Params/Numbers.antt =====
-- 64-bit integers into narrower columns: _stmt_param_check_sqlc_sbigint_sql_* and
-- _stmt_param_conv_sql_*_to_tsdb_* of src/core/stmt.c.
use taos_connector_odbc.Prelude.{ℕ, if◌then◌else◌, not}
use taos_connector_odbc.Prelude.Int.{ℤ, pos, low_bits, as_signed, fits_signed}
use taos_connector_odbc.Odbc.{SqlReturn, sql_success, s22003}
use taos_connector_odbc.Params.State.{
  ParamState, fail, store, put_member, member, SqlType, sql_integer, sql_smallint, sql_tinyint,
}
use taos_connector_odbc.Params.Text.{truth}

unfoldable pub check_sbigint : ℕ → SqlType → ParamState → ParamState × SqlReturn
check_sbigint w t p =
    if not (fits_signed w p.sqlc_i64)
    then fail s22003 p
    else (record p { sql_type = t; number = put_member w p.sqlc_i64 p.number }, sql_success)

unfoldable pub check_sbigint_integer : ParamState → ParamState × SqlReturn
unfolding check_sbigint
check_sbigint_integer = check_sbigint 32 sql_integer

unfoldable pub check_sbigint_smallint : ParamState → ParamState × SqlReturn
unfolding check_sbigint
check_sbigint_smallint = check_sbigint 16 sql_smallint

unfoldable pub check_sbigint_tinyint : ParamState → ParamState × SqlReturn
unfolding check_sbigint
check_sbigint_tinyint = check_sbigint 8 sql_tinyint

-- The member of `w` bits as an int64_t.
unfoldable pub read_number : ℕ → ParamState → ℤ
read_number w p = if p.unsigned then pos (member w p.number) else as_signed w (member w p.number)

unfoldable pub conv_number : ℕ → (ℤ → ℕ) → ParamState → ParamState × SqlReturn
unfolding read_number
conv_number w cast p =
    let v = read_number w p in if not (fits_signed w v) then fail s22003 p else store (cast v) p

unfoldable pub conv_integer_int : ParamState → ParamState × SqlReturn
unfolding conv_number
conv_integer_int = conv_number 32 (low_bits 32)

unfoldable pub conv_smallint_smallint : ParamState → ParamState × SqlReturn
unfolding conv_number
conv_smallint_smallint = conv_number 16 (low_bits 16)

unfoldable pub conv_tinyint_tinyint : ParamState → ParamState × SqlReturn
unfolding conv_number
conv_tinyint_tinyint = conv_number 8 (low_bits 8)

unfoldable pub conv_tinyint_bool : ParamState → ParamState × SqlReturn
unfolding conv_number
conv_tinyint_bool = conv_number 8 truth
