-- ===== src/Params/Row/Nulls.antt =====
-- src/core/stmt.c: parameters that are null.
use taos_connector_odbc.Prelude.{
  suc, Bool, true, false, Option, none, some, List, set, length, ◌≡◌, ◌≢◌, refl, sym,
}
use mathlib.Core.Path.{subst}
use taos_connector_odbc.Odbc.{SqlReturn, sql_success, sql_error}
use taos_connector_odbc.Params.State.{ParamState, index}
use taos_connector_odbc.Params.Row.{
  Step, missing, dummy, run, param_check, put_null, null_data, conv_param_data, conv_if_checked,
  check_and_conv,
}

-- The outcome for a column with or without an array of flags: the row's flag is set, or one
-- diagnostic is appended; the elements stay.
pub Null : ParamState → Option (List Bool) → ParamState × SqlReturn → Type 0
Null p none out =
    (out.1 ≡ sql_error) × (out.0.buffer ≡ p.buffer) × (length out.0.diags ≡ suc (length p.diags))
Null p (some flags) out =
    (out.1 ≡ sql_success)
    × (out.0.buffer ≡ p.buffer)
    × (out.0.is_null ≡ some (set flags (index p) true))
    × (out.0.diags ≡ p.diags)

null_row : ParamState → ParamState
null_row p = record p { is_subtbl = false; sqlc_is_null = true }

null_data-Null : (o : Option (List Bool)) (p : ParamState) → Null p o (null_data o p)
unfolding Null null_data put_null
null_data-Null none p = (refl, refl, refl)
null_data-Null (some flags) p = (refl, refl, refl, refl)

null_row-Null :
    (check conv : Step) (p : ParamState)
    → check ≢ missing
    → Null
        (null_row p)
        p.is_null
        (check_and_conv (record { check = check; conv = conv }) (null_row p))
unfolding null_row check_and_conv param_check conv_if_checked conv_param_data
null_row-Null missing conv p known = absurd (known refl)
null_row-Null dummy conv p known = null_data-Null p.is_null (null_row p)
null_row-Null (run f) conv p known = null_data-Null p.is_null (null_row p)

-- A null parameter of a column, whatever its checker and its converter, if it has a checker:
-- neither is called; the row's flag is set where the column has flags, and otherwise the row fails
-- with one diagnostic. The elements of the column stay as they are.
pub check_and_conv-Null :
    (check conv : Step) (p : ParamState)
    → check ≢ missing
    → p.is_subtbl ≡ false
    → p.sqlc_is_null ≡ true
    → Null p p.is_null (check_and_conv (record { check = check; conv = conv }) p)
unfolding null_row
check_and_conv-Null check conv p known table null =
    subst (λ q. Null q q.is_null (check_and_conv (record { check = check; conv = conv }) q))
      (sym same) (null_row-Null check conv p known)
  where
    same : p ≡ null_row p
    same = λ i. record p { is_subtbl = table i; sqlc_is_null = null i }
