-- ===== src/Desc/Tests.antt =====
-- Runs of src/core/desc.c on small inputs.
use taos_connector_odbc.Prelude.{true, arith}
use taos_connector_odbc.Prelude.Int.{pos}
use taos_connector_odbc.Odbc.{sql_c_long}
use taos_connector_odbc.Desc.{
  BindCol, descriptor_init, descriptor_bind_col, descriptor_reclaim_buffers, unbind_cols,
}
use taos_connector_odbc.Desc.Bindings.Calls.{spec, answer, Answers, bind_col-Answers}
use taos_connector_odbc.Desc.Bindings.Clearing.{
  Cleared, init-Cleared, reclaim_buffers-Cleared, unbind_cols-Cleared,
}

abbrev third_as_long : BindCol
third_as_long = record {
  column_number = 3;
  target_type = sql_c_long;
  target_value_ptr = 4096;
  buffer_length = pos 4;
  str_len_or_ind_ptr = 8192;
}

bind_col-Answers_example :
    Answers descriptor_init 3
      (spec true descriptor_init third_as_long)
      (answer true descriptor_init third_as_long)
      (descriptor_bind_col true descriptor_init third_as_long)
bind_col-Answers_example =
    bind_col-Answers true descriptor_init third_as_long init-Cleared.valid (omega arith)

-- The descriptor after that call.
abbrev bound_call :
    Answers descriptor_init 3
      (spec true descriptor_init third_as_long)
      (answer true descriptor_init third_as_long)
      (descriptor_bind_col true descriptor_init third_as_long)
bound_call = bind_col-Answers true descriptor_init third_as_long init-Cleared.valid (omega arith)

reclaim_buffers-Cleared_example : Cleared (descriptor_reclaim_buffers bound_call.result.descriptor)
reclaim_buffers-Cleared_example =
    reclaim_buffers-Cleared bound_call.result.descriptor bound_call.updated.valid

unbind_cols-Cleared_example : Cleared (unbind_cols bound_call.result.descriptor)
unbind_cols-Cleared_example =
    unbind_cols-Cleared bound_call.result.descriptor bound_call.updated.valid
