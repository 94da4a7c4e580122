-- ===== src/Params/Batches/Rows.antt =====
-- A column of an array of parameters: _stmt_param_get for SQL_C_SBIGINT,
-- _stmt_param_adjust_tsdb_fixed, _stmt_param_tsdb_array_adjust and _stmt_prepare_col_data of
-- src/core/stmt.c, for a column of a fixed size.
pub mod Converted
pub mod Settled
pub mod Narrowed
use taos_connector_odbc.Prelude.{
  ℕ, zero, suc, ◌+◌, ◌-◌, if◌then◌else◌, not, Bool, true, false, Option, none, some, List, [], ◌∷◌,
  ◌++◌, set, replicate, length,
}
use taos_connector_odbc.Prelude.Int.{ℤ}
use taos_connector_odbc.Odbc.{
  SqlReturn, sql_success, sql_success_with_info, sql_no_data, sql_error, hy000,
}
use taos_connector_odbc.Params.State.{ParamState}
use taos_connector_odbc.Params.Row.{Meta, check_and_conv}

-- The elements of DESC_ARRAY_STATUS_PTR.
pub data ParamStatus : Type 0 where
  sql_param_untouched sql_param_unused sql_param_error : ParamStatus
  sql_param_success sql_param_success_with_info : ParamStatus

-- What TAOS_STMT2_BIND has of a column: the arrays `is_null` and `buffer`.
pub record Bind : Type 0 where
  pub flags : List Bool
  pub elements : List ℕ

-- A parameter that is a column: _stmt_param_get by its APD record, and its param_bind_meta_t.
pub record Column : Type 0 where
  pub get : ParamState → ParamState × SqlReturn
  pub meta : Meta

-- _stmt_param_get for SQL_C_SBIGINT: whether the row's indicator is SQL_NULL_DATA, where there are
-- indicators, and the array of numbers.
pub param_get_sbigint : (ℕ → Bool) → (ℕ → ℤ) → ParamState → ParamState × SqlReturn
param_get_sbigint null_data numbers p =
    if null_data p.i_row
    then (record p { sqlc_is_null = true }, sql_success)
    else (record p { sqlc_is_null = false; sqlc_i64 = numbers p.i_row }, sql_success)

-- mem_keep; the bytes that it adds are not determined, and 0 here.
unfoldable pub keep {ℓ} : {A : Type ℓ} → A → ℕ → List A → List A
keep a n xs = xs ++ replicate (n - length xs) a

-- The arrays of the column for a batch of `nr` rows.
unfoldable pub array_adjust : ℕ → Bind → Bind
unfolding keep
array_adjust nr b = record { flags = keep false nr b.flags; elements = keep 0 nr b.elements }

-- tsdb_bind = binds + i_param
abbrev pub load : Bind → ParamState → ParamState
load b p = record p { is_subtbl = false; buffer = b.elements; is_null = some b.flags }

abbrev pub or_empty : Option (List Bool) → List Bool
or_empty none = []
or_empty (some flags) = flags

-- The arrays that a column's loop leaves.
abbrev pub unload : ParamState → Bind
unload p = record { flags = or_empty p.is_null; elements = p.buffer }

-- The part of param_state_t that the loop over the rows uses, and the array of statuses.
pub record Rows : Type 0 where
  pub p : ParamState
  pub row_with_info : Bool
  pub row_err : Bool
  pub statuses : Option (List ParamStatus)

pub put_status : ℕ → ParamStatus → Rows → Rows
put_status i_row st s = elim s.statuses [
  | none ↦ s
  | some sts ↦ record s { statuses = some (set sts i_row st) }
]

-- Whether a row goes on; the default case appends a diagnostic.
abbrev pub passes : Bool → SqlReturn → Bool
passes strict sql_success = true
passes strict sql_success_with_info = not strict
passes strict sql_no_data = false
passes strict sql_error = false

pub with_info : SqlReturn → Bool → Bool
with_info sql_success_with_info old = true
with_info _ old = old

pub diagnosed : SqlReturn → ParamState → ParamState
diagnosed sql_no_data p = record p { diags = hy000 ∷ p.diags }
diagnosed _ p = p

pub get_then : Meta → ParamState × SqlReturn → ParamState × SqlReturn
get_then m (p, sql_success) = check_and_conv m p
get_then m (p, _) = (p, sql_error)

-- One parameter in one row.
unfoldable pub cell : Column → ParamState → ParamState × SqlReturn
unfolding get_then
cell col p = get_then col.meta (col.get p)

abbrev pub at_row : ℕ → ParamState → ParamState
at_row i_row p = record p { i_row = i_row }

-- The row behind the switch on its return code: the next state, and whether the loop goes on.
pub settle : Bool → ℕ → Rows → ParamState × SqlReturn → Rows × Bool
unfolding put_status with_info diagnosed
settle strict i_row s (p, sr) =
    let info = with_info sr s.row_with_info in
    if passes strict sr
    then (
      put_status i_row (if info then sql_param_success_with_info else sql_param_success)
          (record s { p = p; row_with_info = info }),
      true,
    )
    else (put_status i_row sql_param_error (record s { p = diagnosed sr p; row_err = true }), false)

unfoldable pub one_row : Bool → Column → ℕ → Rows → Rows × Bool
unfolding settle put_status cell
one_row strict col i_row s =
    settle strict i_row (put_status i_row sql_param_unused s) (cell col (at_row i_row s.p))

-- The loop of _stmt_prepare_col_data on `todo` rows behind the first `i`; the number of rows done.
unfoldable pub col_rows : Bool → Column → ℕ → ℕ → Rows → Rows × ℕ
col_rows strict col zero i s = (s, i)
col_rows strict col (suc todo) i s =
    let (s', more) = one_row strict col (s.p.i_batch_offset + i) s in
    let rest = col_rows strict col todo (suc i) s' in if more then rest else (s', i)
