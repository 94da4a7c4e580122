-- ===== src/Params/Batches/Loop.antt =====
-- The loop over the batches of _stmt_execute_with_param_state of src/core/stmt.c.
pub mod Begun
pub mod Executed
use taos_connector_odbc.Prelude.{
  ℕ, zero, suc, ◌+◌, ◌-◌, ◌%◌, ltb, min, ◌==◌, leb, if◌then◌else◌, not, Bool, false, ◌&&◌, none,
  List, [], ◌∷◌, ◌++◌, set,
}
use taos_connector_odbc.Odbc.{SqlReturn, sql_success, sql_success_with_info, sql_error, hy000}
use taos_connector_odbc.Params.State.{fail}
use taos_connector_odbc.Params.Batches.Rows.{Column}
use taos_connector_odbc.Params.Batches.Columns.{
  Batch, Exec, Answers, Prepared, ready, left, next, prepare_subtbl, prepare_cols, out_of_memory,
}

abbrev pub int16_max : ℕ
int16_max = 32767

-- The batch's size from the number of rows left: (int)(nr_paramset_size - i_row), of 32 bits, and no
-- more than INT16_MAX. A negative number is kept as what size_t makes of it; sums do not wrap around
-- here, so a call with 2 ^ 31 rows or more is followed to its first batch only.
unfoldable pub batch_size : ℕ → ℕ
batch_size rows =
    let low = rows % 4294967296 in
    if ltb low 2147483648 then min low int16_max else low + 18446744069414584320

-- The state at the head of the loop over the batches, of a set of `n` rows.
pub start_batch : ℕ → ℕ → Exec → Exec
unfolding batch_size
start_batch n i_row e = record e {
  rows = record (e.rows) {
    p = record (e.rows.p) { i_batch_offset = i_row };
    row_with_info = false;
    row_err = false;
  };
  nr_batch_size = batch_size (n - i_row);
  subtbl = none;
  binds = [];
}

pub prepare_batch : Answers → Bool → List Column → ℕ → ℕ → Exec → Prepared
unfolding prepare_subtbl prepare_cols start_batch next
prepare_batch ans strict cols n i_row e =
    next (prepare_subtbl ans (start_batch n i_row e)) (prepare_cols ans strict cols e.binds)

-- The batch as it is bound.
pub bound_batch : Exec → Batch
bound_batch e = record {
  offset = e.rows.p.i_batch_offset;
  num = e.nr_batch_size;
  subtbl = e.subtbl;
  binds = e.binds;
}

pub count_processed : Exec → Exec
count_processed e = record e { processed = e.processed + e.nr_batch_size }

-- taos_stmt2_bind_param, then execute; `again` is the next turn of the loop, from a row on.
pub send_batch : Answers → (ℕ → Exec → Exec × SqlReturn) → Exec → Exec × SqlReturn
unfolding bound_batch
send_batch ans again e =
    let b = bound_batch e in
    if not (ans.bind_param b)
    then (record e { rows = record (e.rows) { p = (fail hy000 e.rows.p).0 } }, sql_error)
    else if not (ans.execute b)
    then (e, sql_error)
    else let e' = record e { sent = e.sent ++ (b ∷ []) } in
      if e.rows.row_err
      then (e', sql_success_with_info)
      else again (e.rows.p.i_batch_offset + e.nr_batch_size) e'

pub after_batch : Answers → (ℕ → Exec → Exec × SqlReturn) → Prepared → Exec × SqlReturn
unfolding send_batch count_processed
after_batch ans again (left e sr) = (e, sr)
after_batch ans again (ready e) = send_batch ans again (count_processed e)

-- The loop over the batches, on fuel: each batch has a row, so one round more than there are rows
-- is enough.
pub batches : ℕ → Answers → Bool → List Column → ℕ → ℕ → Exec → Exec × SqlReturn
unfolding prepare_batch after_batch
batches zero ans strict cols n i_row e = (e, sql_error)
batches (suc fuel) ans strict cols n i_row e =
    if leb n i_row
    then (e, sql_success)
    else after_batch ans (batches fuel ans strict cols n) (prepare_batch ans strict cols n i_row e)

-- The fields of the APD and of the statement that the call starts with: DESC_ARRAY_SIZE, whether
-- DESC_BIND_TYPE is SQL_PARAM_BIND_BY_COLUMN, and prepared && !is_insert_stmt.
pub record Paramset : Type 0 where
  pub size : ℕ
  pub by_column : Bool
  pub not_insert : Bool

pub refused : Exec → Exec × SqlReturn
refused e = (record e { rows = record (e.rows) { p = (fail hy000 e.rows.p).0 } }, sql_error)

-- `calloc_ok` is the outcome of calloc for the binds of the client.
unfoldable pub execute_with_param_state :
    Answers → Bool → Bool → Paramset → List Column → Exec → Exec × SqlReturn
unfolding batches out_of_memory refused
execute_with_param_state ans calloc_ok strict paramset cols e =
    let e0 = record e { processed = 0; sent = [] } in
    if not paramset.by_column
    then refused e0
    else if not (paramset.size == 1) && paramset.not_insert
    then refused e0
    else if not calloc_ok
    then (out_of_memory e0, sql_error)
    else batches (suc paramset.size) ans strict cols paramset.size 0 e0
