-- ===== src/Params/Row.antt =====
-- One parameter of one row: _stmt_param_check, _stmt_param_conv, _stmt_conv_param_data and
-- _stmt_param_check_and_conv of src/core/stmt.c.

pub mod Sbigint
pub mod Nulls
use taos_connector_odbc.Prelude.{if◌then◌else◌, Bool, true, false, Option, none, some, set, List}
use taos_connector_odbc.Odbc.{
  SqlReturn, sql_success, sql_success_with_info, sql_no_data, sql_error, hy000, s22002,
}
use taos_connector_odbc.Params.State.{ParamState, fail, index}

-- A function of param_bind_meta_t: none, the one that does nothing, or another.
pub data Step : Type 0 where
  missing dummy : Step
  run : (ParamState → ParamState × SqlReturn) → Step

-- param_bind_meta_t; its absence is two missing functions.
pub record Meta : Type 0 where
  pub check : Step
  pub conv : Step

unfoldable pub param_check : Step → ParamState → ParamState × SqlReturn
param_check missing p = fail hy000 p
param_check dummy p = (p, sql_success)
param_check (run f) p = if p.sqlc_is_null then (p, sql_success) else f p

unfoldable pub param_conv : Step → ParamState → ParamState × SqlReturn
param_conv missing p = fail hy000 p
param_conv dummy p = (p, sql_success)
param_conv (run f) p = f p

-- is_null[i_row - i_batch_offset] = b, where the column has this array.
put_null : Bool → Option (List Bool) → ParamState → ParamState
put_null b none p = p
put_null b (some flags) p = record p { is_null = some (set flags (index p) b) }

null_data : Option (List Bool) → ParamState → ParamState × SqlReturn
unfolding put_null
null_data none p = fail s22002 p
null_data (some flags) p = (put_null true (some flags) p, sql_success)

unfoldable pub conv_param_data : Step → ParamState → ParamState × SqlReturn
unfolding null_data put_null param_conv
conv_param_data conv p =
    if p.sqlc_is_null then null_data p.is_null p else param_conv conv (put_null false p.is_null p)

-- with_info
with_info : ParamState × SqlReturn → ParamState × SqlReturn
with_info (p, sql_success) = (p, sql_success_with_info)
with_info out = out

-- After the check.
conv_if_checked : Step → ParamState × SqlReturn → ParamState × SqlReturn
unfolding conv_param_data with_info
conv_if_checked conv (p, sql_success) =
    if p.is_subtbl then (p, sql_success) else conv_param_data conv p
conv_if_checked conv (p, sql_success_with_info) =
    if p.is_subtbl then (p, sql_success_with_info) else with_info (conv_param_data conv p)
conv_if_checked conv out = out

unfoldable pub check_and_conv : Meta → ParamState → ParamState × SqlReturn
unfolding param_check conv_if_checked
check_and_conv meta p = conv_if_checked meta.conv (param_check meta.check p)
