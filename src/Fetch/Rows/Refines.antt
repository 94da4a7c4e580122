-- ===== src/Fetch/Rows/Refines.antt =====
-- src/core/stmt.c: SQLFetch against its description by the rows that remain.
use taos_connector_odbc.Prelude.{
  ℕ, ◌+◌, ◌-◌, ◌≤◌, ◌==◌, true, Option, List, ◌++◌, length, replicate, ◌≡◌, refl, sym, ap, ◌∙◌,
  arith, length-append, length-replicate,
}
use taos_connector_odbc.Prelude.Int.{ℤ}
use mathlib.Core.Path.{subst}
use taos_connector_odbc.Odbc.{Text, Pointer, SqlReturn}
use taos_connector_odbc.Desc.{DescHeader, Descriptor, sql_bind_by_column}
use taos_connector_odbc.GetData.State.{Libc, Stmt}
use taos_connector_odbc.GetData.Char.{Names}
use taos_connector_odbc.Fetch.Blocks.{Row}
use taos_connector_odbc.Fetch.Blocks.Cursor.{IsValid, remaining}
use taos_connector_odbc.Fetch.Rows.{
  Fetching, sql_row_norow, get_data_ctx_reset, put_rows_processed, rowset_size, fetch_x, stmt_fetch,
  stmt_fetch_scroll, stmt_fetch_rowset,
}
use taos_connector_odbc.Fetch.Rows.Arrays.{
  at_pointer, write_at, at_pointer_twice, put_norow-fields, put_rows_processed-fields, write_at_all,
  write_at-append,
}
use taos_connector_odbc.Fetch.Rows.Rowset.{
  rows_before, rest, answer, filled, length-filled, length-rows_before, fetch_more,
  fetch_rows-Fetched,
}

module _ (L : Libc) (names : Names) (true_text : Text) (false_text : Text) (memory : Pointer → ℤ)
    (ard : Descriptor) (ird : DescHeader) where
  abbrev pub size : ℕ
  size = rowset_size L names true_text false_text memory ard ird

  -- Each of the rows filled in turn: the statement and the statuses.
  abbrev pub outcome : List (Option (Row L.Float)) → Fetching L.Float → Stmt L.Float × List ℕ
  outcome ms f =
      filled L names true_text false_text memory ard ird f.res.fields_nr 0 (rows_before size ms)
        (get_data_ctx_reset f.stmt)

  -- What SQLFetch leaves, where `ms` remain: the statement has each row filled in turn, and the
  -- application's arrays have the number of rows and the status of each element of the rowset.
  pub record Rowset (ms : List (Option (Row L.Float))) (f f' : Fetching L.Float) (sr : SqlReturn)
      : Type 0 where
    pub valid : IsValid f'.res
    pub left : remaining f'.res ≡ rest size ms
    pub returned : sr ≡ (answer size 0 ms).0
    pub stmts :
        f'.stmt ≡ record (outcome ms f).0 { diags = (answer size 0 ms).1 ++ (outcome ms f).0.diags }
    pub statuses :
        f'.array_status
        ≡ at_pointer ird.desc_array_status_ptr
            ((outcome ms f).1 ++ replicate (size - length (rows_before size ms)) sql_row_norow)
            f.array_status
    pub processed :
        f'.rows_processed
        ≡ at_pointer ird.desc_rows_processed_ptr (length (rows_before size ms)) f.rows_processed

  -- The status of each element of the rowset.
  set_statuses :
      (sts : List ℕ) (k : ℕ) (xs : List ℕ)
      → k ≡ length sts
      → length sts ≤ size
      → length xs ≡ size
      → write_at k (replicate (size - k) sql_row_norow) (write_at 0 sts xs)
        ≡ sts ++ replicate (size - k) sql_row_norow
  set_statuses sts k xs h l e =
      let m = size - k in
      let total : length (sts ++ replicate m sql_row_norow) ≡ length xs =
        length-append sts (replicate m sql_row_norow)
        ∙ ap (λ j. length sts + j) (length-replicate m sql_row_norow)
        ∙ omega (arith, h, l, e) in
      let behind : k ≡ 0 + length sts = omega (arith, h) in
      ap (λ j. write_at j (replicate m sql_row_norow) (write_at 0 sts xs)) behind
      ∙ sym (write_at-append 0 sts (replicate m sql_row_norow) xs)
      ∙ write_at_all _ xs total

  fetch_x-Rowset :
      (f : Fetching L.Float)
      → IsValid f.res
      → length f.array_status ≡ size
      → Rowset
          (remaining f.res)
          f
          (fetch_x L names true_text false_text memory ard ird f).0
          (fetch_x L names true_text false_text memory ard ird f).1
  unfolding fetch_x
  fetch_x-Rowset f v e =
      let f0 = record f { stmt = get_data_ctx_reset f.stmt } in
      let ms = remaining f.res in
      let h = fetch_rows-Fetched L names true_text false_text memory ard ird size 0 ms f0 v refl in
      let (f', sr, k) = fetch_more L names true_text false_text memory ard ird size 0 f0 in
      let (r, s, p, a) = put_norow-fields ird k (size - k) (put_rows_processed ird k f') in
      let (r', s', p', a') = put_rows_processed-fields ird k f' in
      let write = write_at k (replicate (size - k) sql_row_norow) in
      let fill = a' ∙ h.statuses in
      let k_eq : k ≡ length (rows_before size ms) = omega (arith, h.counted) in
      let sts_eq =
        length-filled L names true_text false_text memory ard ird f.res.fields_nr 0
          (rows_before size ms) (get_data_ctx_reset f.stmt) in
      let within = subst (λ l. l ≤ size) (sym sts_eq) (length-rows_before size ms) in
      record {
        valid = subst IsValid (sym (r ∙ r')) h.valid;
        left = ap remaining (r ∙ r') ∙ h.left;
        returned = h.returned;
        stmts = s ∙ s' ∙ h.stmts;
        statuses =
            a
            ∙ (λ j. at_pointer ird.desc_array_status_ptr (write (fill j)) (fill j))
            ∙ at_pointer_twice ird.desc_array_status_ptr write _ f.array_status
            ∙ (λ j.
                at_pointer ird.desc_array_status_ptr
                  (set_statuses (outcome ms f).1 k f.array_status (k_eq ∙ sym sts_eq) within e j)
                  f.array_status)
            ∙ (λ j.
                at_pointer ird.desc_array_status_ptr
                  ((outcome ms f).1 ++ replicate (size - k_eq j) sql_row_norow) f.array_status);
        processed = p ∙ p' ∙ (λ j. at_pointer ird.desc_rows_processed_ptr (k_eq j) (h.processed j));
      }

  -- SQLFetch with columns bound by column, where the application's array of statuses has an
  -- element for each row of the rowset and the block at hand has `nr` rows: of the rows that remain
  -- it fills those before the first failure of the client, at most DESC_ARRAY_SIZE of them, in
  -- their order: each column that is bound to memory, within DESC_COUNT, is read by SQLGetData into the
  -- row's element of its array, with the length and the indicator into theirs, all of them moved by
  -- the bind offset, until a column fails; every element's status is that of
  -- its row, and SQL_ROW_NOROW behind the last; the number of rows is stored; a failure is an error
  -- with one more diagnostic, and the rows before it are filled all the same; SQL_NO_DATA is
  -- returned exactly if no row and no failure remains.
  pub stmt_fetch-Rowset :
      (f : Fetching L.Float)
      → IsValid f.res
      → length f.array_status ≡ size
      → (ard.header.desc_bind_type == sql_bind_by_column) ≡ true
      → Rowset
          (remaining f.res)
          f
          (stmt_fetch L names true_text false_text memory ard ird f).0
          (stmt_fetch L names true_text false_text memory ard ird f).1
  unfolding stmt_fetch stmt_fetch_scroll stmt_fetch_rowset
  stmt_fetch-Rowset f v e b =
      let twice = get_data_ctx_reset (get_data_ctx_reset f.stmt) in
      let h = fetch_x-Rowset (record f { stmt = twice }) v e in
      rw b (record {
        valid = h.valid;
        left = h.left;
        returned = h.returned;
        stmts = h.stmts;
        statuses = h.statuses;
        processed = h.processed;
      })
