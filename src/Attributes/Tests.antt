-- ===== src/Attributes/Tests.antt =====
-- A concrete statement for the theorems on attributes (src/core/stmt.c).
use taos_connector_odbc.Prelude.{false, true, [], refl}
use taos_connector_odbc.Desc.{DescHeader}
use taos_connector_odbc.Attributes.{Attrs, row_array_size, stmt_set_attr, stmt_get_attr}
use taos_connector_odbc.Attributes.Kept.{IsUsable, set_attr-IsUsable}
use taos_connector_odbc.Attributes.Read.{ReadsBack, set_attr-get_attr}

abbrev header : DescHeader
header = record {
  desc_array_size = 1;
  desc_array_status_ptr = 0;
  desc_bind_offset_ptr = 0;
  desc_bind_type = 0;
  desc_rows_processed_ptr = 0;
  desc_count = 0;
}

abbrev created : Attrs
created = record {
  ard = header;
  apd = header;
  ird = header;
  ipd = header;
  cursor_attr = 0;
  concurrency_attr = 1;
  ado = false;
  ipd_handle = 4096;
  ird_handle = 8192;
  prepared = true;
  is_insert_stmt = false;
  diags = [];
}

created-IsUsable : IsUsable created
created-IsUsable = record {
  rows_by_column = refl;
  params_by_column = refl;
  some_row = refl;
  some_param = refl;
  known_cursor = refl;
  known_concurrency = refl;
}

set_attr-IsUsable_example : IsUsable (stmt_set_attr row_array_size 100 created).0
set_attr-IsUsable_example = set_attr-IsUsable row_array_size 100 created created-IsUsable

set_attr-get_attr_example :
    ReadsBack 100
      (stmt_set_attr row_array_size 100 created).1
      (stmt_get_attr row_array_size created).2
      (stmt_get_attr row_array_size (stmt_set_attr row_array_size 100 created).0).2
set_attr-get_attr_example = set_attr-get_attr row_array_size 100 created
