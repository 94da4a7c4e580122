-- ===== src/Params/State.antt =====
-- The state of one parameter in one row: param_state_t, sqlc_data_t and sql_data_t of
-- src/core/internal.h, and the TAOS_STMT2_BIND of its column.
use taos_connector_odbc.Prelude.{ℕ, ◌+◌, ◌-◌, ◌*◌, ◌/◌, ◌%◌, ◌^◌, Bool, Option, List, ◌∷◌, set}
use taos_connector_odbc.Prelude.Int.{ℤ, low_bits}
use taos_connector_odbc.Odbc.{Text, SqlReturn, sql_success, sql_error, SqlState}

-- The SQL_* codes of the parameters modelled, and any other.
pub data SqlType : Type 0 where
  sql_bigint sql_integer sql_smallint sql_tinyint sql_bit : SqlType
  sql_other : ℕ → SqlType

-- `number` has the 64 low bits of the union of sql_data_t, whose members overlap from the lowest
-- byte on, and `str` is its string; `buffer` has the elements of the column as bit patterns.
pub record ParamState : Type 0 where
  pub i_row : ℕ
  pub i_batch_offset : ℕ
  pub is_subtbl : Bool
  pub sqlc_is_null : Bool
  pub sqlc_i64 : ℤ
  pub sqlc_str : Text
  pub sql_type : SqlType
  pub number : ℕ
  pub unsigned : Bool
  pub str : Text
  pub buffer : List ℕ
  pub is_null : Option (List Bool)
  -- errno == ERANGE
  pub errno_range : Bool
  pub diags : List SqlState

-- i_row - i_batch_offset; a batch starts at or before its rows.
abbrev pub index : ParamState → ℕ
index p = p.i_row - p.i_batch_offset

-- stmt_append_err_format, then SQL_ERROR.
abbrev pub fail : SqlState → ParamState → ParamState × SqlReturn
fail e p = (record p { diags = e ∷ p.diags }, sql_error)

-- v[i_row - i_batch_offset] = n
abbrev pub store : ℕ → ParamState → ParamState × SqlReturn
store n p = (record p { buffer = set p.buffer (index p) n }, sql_success)

-- Writing the member of `w` bits of the union.
abbrev pub put_member : ℕ → ℤ → ℕ → ℕ
put_member w v old = low_bits w v + old / 2 ^ w * 2 ^ w

-- Reading it, unsigned.
abbrev pub member : ℕ → ℕ → ℕ
member w n = n % 2 ^ w
