-- ===== src/Params/Batches/Tests.antt =====
-- An array of four parameters for an INT column, of which the third is out of range, on concrete
-- answers of the client.
use taos_connector_odbc.Prelude.{
  ℕ, ◌+◌, ◌==◌, arith, if◌then◌else◌, Bool, true, false, none, some, [], ◌∷◌, inr, ◌≡◌, refl,
}
use taos_connector_odbc.Prelude.Int.{ℤ, pos, low_bits}
use taos_connector_odbc.Odbc.{sql_success_with_info}
use taos_connector_odbc.Params.State.{sql_integer, sql_other}
use taos_connector_odbc.Params.Numbers.{check_sbigint, conv_number}
use taos_connector_odbc.Params.Row.{check_and_conv}
use taos_connector_odbc.Params.Row.Sbigint.{pair_of}
use taos_connector_odbc.HashTable.{text_eq}
use taos_connector_odbc.Params.Batches.Rows.{one_row}
use taos_connector_odbc.Params.Batches.Rows.Narrowed.{
  bigint_column, bigint_value, bigint_column-Converts,
}
use taos_connector_odbc.Params.Batches.Columns.{Exec, Answers}
use taos_connector_odbc.Params.Batches.Columns.Ready.{Valued}
use taos_connector_odbc.Params.Batches.Columns.Joined.{columns}
use taos_connector_odbc.Params.Batches.Loop.{execute_with_param_state}
use taos_connector_odbc.Params.Batches.Loop.Begun.{Served, Executed}
use taos_connector_odbc.Params.Batches.Loop.Executed.{
  by_column_set, execute_with_param_state-Executed,
}

abbrev four_numbers : ℕ → ℤ
four_numbers i = if i == 2 then pos 4294967296 else pos (i + 7)

abbrev first_null : ℕ → Bool
first_null i = i == 0

abbrev int_column : Valued
int_column = record {
  column = bigint_column 32 sql_integer (low_bits 32) first_null four_numbers;
  value = bigint_value 32 (low_bits 32) first_null four_numbers;
}

-- Every row goes to the table "t".
abbrev willing : Answers
willing = record {
  memory = λ n. true;
  init = λ c. true;
  names = some (λ i. some (116 ∷ []));
  rebind = λ t. true;
  bind_param = λ b. true;
  execute = λ b. true;
}

willing-Served : Served willing false (int_column ∷ [])
willing-Served = record {
  memory = λ n. refl;
  supported =
      (refl, bigint_column-Converts 31 sql_integer (low_bits 32) first_null four_numbers, tt);
  named = λ i. (116 ∷ [], refl, refl);
  bound = λ b. refl;
  executed = λ b. refl;
}

abbrev no_rows_yet : Exec
no_rows_yet = record {
  rows = record {
    p = record {
      i_row = 0;
      i_batch_offset = 0;
      is_subtbl = false;
      sqlc_is_null = false;
      sqlc_i64 = pos 0;
      sqlc_str = [];
      sql_type = sql_other 0;
      number = 0;
      unsigned = false;
      str = [];
      buffer = [];
      is_null = none;
      errno_range = false;
      diags = [];
    };
    row_with_info = false;
    row_err = false;
    statuses = none;
  };
  nr_batch_size = 0;
  subtbl = none;
  binds = [];
  processed = 0;
  sent = [];
}

execute_with_param_state-Executed_example :
    (last : ℕ) × Executed willing (int_column ∷ []) 4 last (
      execute_with_param_state willing true false
        (by_column_set 4 false)
        (columns (int_column ∷ []))
        no_rows_yet)
execute_with_param_state-Executed_example =
    execute_with_param_state-Executed willing false (int_column ∷ []) 4 false no_rows_yet
      willing-Served (omega arith) refl (inr refl)

-- The first two rows are executed.
two_rows :
    (execute_with_param_state willing true false
      (by_column_set 4 false)
      (columns (int_column ∷ []))
      no_rows_yet).1
    ≡ sql_success_with_info
unfolding execute_with_param_state one_row bigint_column text_eq check_and_conv pair_of
    check_sbigint conv_number
two_rows = refl
