-- ===== src/Fetch/Tests.antt =====
-- Concrete calls for the theorems on SQLFetch (src/core/stmt.c, src/core/tsdb.c).
use taos_connector_odbc.Prelude.{ℕ, true, false, none, some, [], ◌∷◌, refl, ◌≡◌, arith}
use taos_connector_odbc.Prelude.Int.{pos}
use taos_connector_odbc.Odbc.{sql_c_slong}
use taos_connector_odbc.Desc.{DescHeader, Descriptor, zeroed}
use taos_connector_odbc.GetData.State.{tsdb_int, tsdb_null}
use taos_connector_odbc.GetData.Tests.{toy, toy_names}
use taos_connector_odbc.Fetch.Blocks.{Row, Res, failed, fetched, fetch_row}
use taos_connector_odbc.Fetch.Blocks.Cursor.{Reads, remaining, fetch_row-Reads}
use taos_connector_odbc.Fetch.Rows.{Fetching, stmt_fetch}
use taos_connector_odbc.Fetch.Rows.Loop.{Sets, fetch_all, fetch_all-rows}
use taos_connector_odbc.Fetch.Rows.Refines.{Rowset, stmt_fetch-Rowset}

abbrev row : ℕ → Row ℕ
row n = λ i_col. some (tsdb_int (pos n))

-- Two blocks, with a failure of the client behind them.
abbrev result : Res ℕ
result = record {
  upcoming = fetched (row 7 ∷ []) ∷ fetched (row 8 ∷ []) ∷ failed ∷ [];
  fields_nr = 1;
  rows_block = record { block = []; nr = 0; pos = 0 };
  eof = false;
}

-- Column 1 is bound to an array of 32-bit integers at 4096, in rowsets of three rows.
abbrev ard : Descriptor
ard = record {
  header = record {
    desc_array_size = 3;
    desc_array_status_ptr = 0;
    desc_bind_offset_ptr = 0;
    desc_bind_type = 0;
    desc_rows_processed_ptr = 0;
    desc_count = 1;
  };
  records =
      record zeroed {
        desc_concise_type = sql_c_slong;
        desc_octet_length = pos 4;
        desc_data_ptr = 4096;
        bound = true;
      }
      ∷ [];
  cap = 1;
}

abbrev ird : DescHeader
ird = record (ard.header) { desc_array_status_ptr = 512; desc_rows_processed_ptr = 768 }

abbrev before : Fetching ℕ
before = record {
  stmt = record {
    ctx = record {
      col_or_param_num = 1;
      target_type = sql_c_slong;
      tsdb = tsdb_null;
      residual = [];
      curr = 0;
      pos = none;
    };
    no_total = false;
    charsets = record { sqlc_charset = []; tsdb_charset = []; charset_for_col_bind = none };
    writes = [];
    diags = [];
  };
  res = result;
  array_status = 9 ∷ 9 ∷ 9 ∷ [];
  rows_processed = 0;
}

fetch_row-Reads_example : Reads (remaining result) (fetch_row result)
fetch_row-Reads_example = fetch_row-Reads result refl

stmt_fetch-Rowset_example :
    Rowset toy toy_names [] []
      (λ p. pos 0)
      ard
      ird
      (remaining result)
      before
      (stmt_fetch toy toy_names [] [] (λ p. pos 0) ard ird before).0
      (stmt_fetch toy toy_names [] [] (λ p. pos 0) ard ird before).1
stmt_fetch-Rowset_example =
    stmt_fetch-Rowset toy toy_names [] [] (λ p. pos 0) ard ird before refl refl refl

abbrev two_rows : Fetching ℕ
two_rows = record before {
  res = record result { upcoming = fetched (row 7 ∷ []) ∷ fetched (row 8 ∷ []) ∷ [] };
}

fetch_all-rows_example :
    (f' : Fetching ℕ) × (fetch_all toy toy_names [] [] (λ p. pos 0) ard ird 3 two_rows
      ≡ some (2, f'))
    × (remaining f'.res ≡ [])
    × Sets toy toy_names [] [] (λ p. pos 0) ard ird 3 (row 7 ∷ row 8 ∷ []) two_rows f'
unfolding remaining
fetch_all-rows_example =
    fetch_all-rows toy toy_names [] [] (λ p. pos 0) ard ird 3 (row 7 ∷ row 8 ∷ []) two_rows refl
      refl refl refl refl (omega arith)
