-- ===== src/Params/Batches/Columns.antt =====
-- The parameters of a batch of rows: _stmt_prepare_col_subtbl, _stmt_prepare_col and the loop over
-- the columns of _stmt_execute_with_param_state of src/core/stmt.c.
pub mod Ready
pub mod Joined
pub mod Named
use taos_connector_odbc.Prelude.{
  ℕ, zero, suc, ◌+◌, ◌==◌, if◌then◌else◌, not, Bool, ◌&&◌, Option, none, some, List, [], ◌∷◌, ◌++◌,
}
use taos_connector_odbc.Odbc.{Text, SqlReturn, sql_success, sql_error, hy001}
use taos_connector_odbc.HashTable.{text_eq}
use taos_connector_odbc.Params.State.{fail}
use taos_connector_odbc.Params.Batches.Rows.{
  Bind, Column, Rows, array_adjust, load, unload, col_rows,
}

-- A batch that was bound by taos_stmt2_bind_param and executed: from row `offset` on, `num` rows.
pub record Batch : Type 0 where
  pub offset : ℕ
  pub num : ℕ
  pub subtbl : Option Text
  pub binds : List Bind

-- The state of _stmt_execute_with_param_state; `sent` has the batches, oldest first.
pub record Exec : Type 0 where
  pub rows : Rows
  pub nr_batch_size : ℕ
  pub subtbl : Option Text
  pub binds : List Bind
  pub processed : ℕ
  pub sent : List Batch

-- What the code around the loops answers: memory for a column's arrays, the types of a column in
-- the first batch (_stmt_param_guess, _stmt_param_tsdb_init), the row's name of a sub table where
-- the statement needs one, and the calls of the client, on a batch.
pub record Answers : Type 0 where
  pub memory : ℕ → Bool
  pub init : Column → Bool
  pub names : Option (ℕ → Option Text)
  pub rebind : Text → Bool
  pub bind_param : Batch → Bool
  pub execute : Batch → Bool

-- The loop of _stmt_prepare_col_subtbl behind the batch's first row: the number of rows that name
-- the table `t`, or none where a row has no name.
pub same_names : (ℕ → Option Text) → Text → ℕ → ℕ → ℕ → Option ℕ
same_names names t zero offset i = some i
same_names names t (suc todo) offset i =
    let rest = same_names names t todo offset (suc i) in
    elim (names (offset + i)) [ none ↦ none | some u ↦ if text_eq t u then rest else some i ]

-- `none` is SQL_ERROR.
pub prepare_col_subtbl : (Text → Bool) → (ℕ → Option Text) → ℕ → ℕ → Option (Text × ℕ)
unfolding same_names
prepare_col_subtbl rebind names offset zero = some ([], 0)
prepare_col_subtbl rebind names offset (suc more) = elim (names offset) [
  | none ↦ none
  | some t ↦
      if not (rebind t)
      then none
      else elim (same_names names t more offset 1) [ none ↦ none | some n ↦ some (t, n) ]
]

-- The parameters that are columns, each prepared and then converted for the rows that the ones
-- before it left. `left` is an early way out of the loop over the batches.
pub data Prepared : Type 0 where
  ready : Exec → Prepared
  left : Exec → SqlReturn → Prepared

-- A column's arrays and its loop over the rows; the number of rows done is the batch's size.
pub convert_col : Bool → Column → Bind → Exec → Exec
unfolding col_rows array_adjust
convert_col strict col b e =
    let b' = array_adjust e.nr_batch_size b in
    let (rows, done) =
      col_rows strict col e.nr_batch_size 0 (record (e.rows) { p = load b' e.rows.p }) in
    record e { rows = rows; nr_batch_size = done; binds = e.binds ++ (unload rows.p ∷ []) }

-- The number of rows of a batch is 0: an error only in the first batch.
pub stop_empty : Exec → Prepared
stop_empty e =
    if e.nr_batch_size == 0
    then left e (if e.rows.p.i_batch_offset == 0 then sql_error else sql_success)
    else ready e

unfoldable pub out_of_memory : Exec → Exec
out_of_memory e = record e { rows = record (e.rows) { p = (fail hy001 e.rows.p).0 } }

-- _stmt_prepare_col of a column, then _stmt_prepare_col_data.
pub prepare_col : Answers → Bool → Column → Bind → Exec → Prepared
unfolding convert_col stop_empty out_of_memory
prepare_col ans strict col b e =
    if e.rows.p.i_batch_offset == 0 && not (ans.init col)
    then left e sql_error
    else if not (ans.memory e.nr_batch_size)
    then left (out_of_memory e) sql_error
    else stop_empty (convert_col strict col b e)

unfoldable pub next : Prepared → (Exec → Prepared) → Prepared
next (ready e) f = f e
next (left e sr) f = left e sr

abbrev pub no_bind : Bind
no_bind = record { flags = []; elements = [] }

-- The loop over the columns; the list of binds has their arrays from the batch before.
unfoldable pub prepare_cols : Answers → Bool → List Column → List Bind → Exec → Prepared
unfolding prepare_col next
prepare_cols ans strict [] bs e = ready e
prepare_cols ans strict (c ∷ cs) [] e =
    next (prepare_col ans strict c no_bind e) (prepare_cols ans strict cs [])
prepare_cols ans strict (c ∷ cs) (b ∷ bs) e =
    next (prepare_col ans strict c b e) (prepare_cols ans strict cs bs)

-- The parameter that names the sub table, if the statement has one. What its failures append as
-- diagnostics is not kept.
unfoldable pub prepare_subtbl : Answers → Exec → Prepared
unfolding prepare_col_subtbl stop_empty
prepare_subtbl ans e = elim ans.names [
  | none ↦ ready e
  | some names ↦
      elim (prepare_col_subtbl ans.rebind names e.rows.p.i_batch_offset e.nr_batch_size) [
        | none ↦ left e sql_error
        | some (t, n) ↦ stop_empty (record e { subtbl = some t; nr_batch_size = n })
      ]
]
