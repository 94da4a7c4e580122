-- ===== src/Fetch/Blocks.antt =====
-- _tsdb_rows_block_reset, _tsdb_stmt_fetch_rows_block, _fetch_row and _get_data of src/core/tsdb.c,
-- over tsdb_res_t of src/core/internal.h.
pub mod Cursor
use taos_connector_odbc.Prelude.{
  ℕ, zero, suc, ◌+◌, ◌-◌, ◌≤◌, ltb, leb, if◌then◌else◌, Bool, true, false, Option, none, some, List,
  [], ◌∷◌, ◌++◌, map, length, drop, get_elem?, ◌≡◌, refl, sym, ap, ◌∙◌, arith, Bool-cases, inl, inr,
}
use taos_connector_odbc.Odbc.{SqlReturn, sql_success, sql_no_data, sql_error, SqlState, hy000}
use taos_connector_odbc.GetData.State.{TsdbData}
use taos_connector_odbc.GetData.Session.{Base}

-- A row of a block: what helper_get_tsdb_from_raw_block reads of each column, counted from 0.
abbrev pub Row : Type 0 → Type 0
Row F = ℕ → Option (TsdbData F)

-- An answer of taos_fetch_raw_block.
pub data Answer (F : Type 0) : Type 0 where
  failed : Answer F
  fetched : List (Row F) → Answer F

-- tsdb_rows_block_t
pub record RowsBlock (F : Type 0) : Type 0 where
  pub block : List (Row F)
  pub nr : ℕ
  pub pos : ℕ

-- tsdb_res_t; `upcoming` are the answers that the client is going to give, and a block without
-- rows from then on.
pub record Res (F : Type 0) : Type 0 where
  pub upcoming : List (Answer F)
  pub fields_nr : ℕ
  pub rows_block : RowsBlock F
  pub eof : Bool

module _ {F : Type 0} where
  abbrev pub rows_block_reset : Res F → Res F
  rows_block_reset res = record res { rows_block = record { block = []; nr = 0; pos = 0 } }

  -- taos_fetch_raw_block
  abbrev next_answer : List (Answer F) → Answer F × List (Answer F)
  next_answer [] = (fetched [], [])
  next_answer (a ∷ later) = (a, later)

  store_block : Answer F × List (Answer F) → Res F → Res F × SqlReturn × List SqlState
  store_block (failed, later) res = (record res { upcoming = later }, sql_error, hy000 ∷ [])
  store_block (fetched [], later) res = (record res { upcoming = later }, sql_no_data, [])
  store_block (fetched (r ∷ rs), later) res = (
    record res {
      upcoming = later;
      rows_block = record { block = r ∷ rs; nr = length (r ∷ rs); pos = 0 };
    },
    sql_success,
    [],
  )

  fetch_rows_block : Res F → Res F × SqlReturn × List SqlState
  unfolding store_block
  fetch_rows_block res = store_block (next_answer res.upcoming) (rows_block_reset res)

  advance : Res F → Res F
  advance res = record res { rows_block = record (res.rows_block) { pos = suc res.rows_block.pos } }

  -- What follows a block: `again` is the way back to the label.
  after_block :
      (Res F → Res F × SqlReturn × List SqlState)
      → Res F × SqlReturn × List SqlState
      → Res F × SqlReturn × List SqlState
  after_block again (res, sql_success, diags) = again res
  after_block again (res, sql_no_data, diags) = (record res { eof = true }, sql_no_data, diags)
  after_block again (res, _, diags) = (res, sql_error, diags)

  -- The loop at the label `again`, on fuel: a block that is stored has a row, so two rounds are
  -- enough.
  again : ℕ → Res F → Res F × SqlReturn × List SqlState
  unfolding fetch_rows_block advance after_block
  again zero res = (res, sql_error, [])
  again (suc fuel) res =
      if leb res.rows_block.nr res.rows_block.pos
      then after_block (again fuel) (fetch_rows_block res)
      else (advance res, sql_success, [])

  unfoldable pub fetch_row : Res F → Res F × SqlReturn × List SqlState
  unfolding again
  fetch_row res = if res.eof then (res, sql_no_data, []) else again 2 res

  read_col : Option (Row F) → ℕ → Option (TsdbData F)
  read_col none i_col = none
  read_col (some row) i_col = row i_col

  -- The row that the columns are read from; `pos` counts from 1.
  pub current : Res F → Option (Row F)
  current res = get_elem? res.rows_block.block (res.rows_block.pos - 1)

  -- stmt->base for SQLGetData.
  unfoldable pub tsdb_base : Res F → Base F
  unfolding read_col current
  tsdb_base res = record {
    get_data = λ num. read_col (current res) (num - 1);
    get_col_count = some res.fields_nr;
  }
