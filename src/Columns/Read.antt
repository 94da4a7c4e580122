-- ===== src/Columns/Read.antt =====
-- src/core/columns.c: a round of the loop reads a row of the description at hand.
use taos_connector_odbc.Prelude.{
  ℕ, suc, ◌<◌, Option, none, some, List, [], ◌∷◌, ◌++◌, length, ◌≡◌, refl, sym, ap, arith,
}
use mathlib.Core.Path.{subst}
use taos_connector_odbc.Odbc.{Text, SqlReturn, sql_error, SqlState}
use taos_connector_odbc.Fetch.Blocks.{Row, Answer, Res, current}
use taos_connector_odbc.Fetch.Blocks.Cursor.{remaining, IsValid, Reads}
use taos_connector_odbc.Tables.Rows.{
  Iconv, Verdict, kept, skipped, failing, tables_for_generic, row_text, test_pattern,
}
use taos_connector_odbc.Columns.{
  Columns, with_desc, column_verdict, by_column, go_again, after_desc,
}
use taos_connector_odbc.Columns.Listed.{listed, columns_of, all_columns, left_columns, Usable, Next}

module _ {F : Type 0} (conv : Iconv) (describe : Text → Text → Option (List (Answer F) × ℕ)) where
  by_column-Next :
      (v : Verdict) (row : Row F) (rest tl : List (Option (Row F))) (again : Columns F × SqlReturn)
      (c : Columns F)
      → current c.desc ≡ some row
      → left_columns conv describe c ≡ rest ++ tl
      → Usable conv describe c
      → Next conv describe (rest ++ tl) again
      → Next conv describe (listed v row rest ++ tl) (by_column again c v)
  unfolding by_column
  by_column-Next kept row rest tl again c at left usable next = (refl, at, left, usable)
  by_column-Next skipped row rest tl again c at left usable next = next
  by_column-Next failing row rest tl again c at left usable next = refl

  column_verdict-row :
      (c : Columns F) (row : Row F)
      → current c.desc ≡ some row
      → column_verdict conv c ≡ test_pattern conv c.column_pattern (row_text row 0) kept
  unfolding column_verdict
  column_verdict-row c row at =
      ap
        (λ o. elim o [
          | none ↦ failing
          | some r ↦ test_pattern conv c.column_pattern (row_text r 0) kept
        ])
        at

  -- A round, by the rows of the table at hand that remain.
  pub after_desc-Next :
      (c : Columns F) (next_table again : Columns F → Columns F × SqlReturn)
      (rows : List (Option (Row F))) (read : Res F × SqlReturn × List SqlState)
      → IsValid c.tables.res
      → c.tables.tables_type ≡ tables_for_generic
      → Reads rows read
      → ((res : Res F)
          → IsValid res
          → Next conv describe
              (all_columns conv describe c.tables c.column_pattern (remaining c.tables.res))
              (go_again again (next_table (with_desc c res))))
      → ((res : Res F)
          → IsValid res
          → length (remaining res) < length rows
          → Next conv describe
              (left_columns conv describe (with_desc c res))
              (again (with_desc c res)))
      → Next conv describe
          (columns_of conv c.column_pattern rows
            ++ all_columns conv describe c.tables c.column_pattern (remaining c.tables.res))
          (after_desc conv next_table again (with_desc c read.0) read.1)
  unfolding after_desc
  after_desc-Next c next_table again [] (res, sr, diags) u g (v, e, d, left) empty next =
      subst
        (λ s.
          Next conv describe
            (all_columns conv describe c.tables c.column_pattern (remaining c.tables.res))
            (after_desc conv next_table again (with_desc c res) s))
        (sym e) (empty res v)
  after_desc-Next c next_table again (none ∷ rest) (res, sr, diags) u g (v, e, d, left) empty next =
      subst (λ s. (after_desc conv next_table again (with_desc c res) s).1 ≡ sql_error) (sym e) refl
  after_desc-Next c next_table again (some row ∷ rest) (res, sr, diags) u g (v, e, d, left, at)
        empty next =
      let tl = all_columns conv describe c.tables c.column_pattern (remaining c.tables.res) in
      let verdict = test_pattern conv c.column_pattern (row_text row 0) kept in
      let cols = columns_of conv c.column_pattern rest in
      let same : left_columns conv describe (with_desc c res) ≡ cols ++ tl =
        ap (λ rs. columns_of conv c.column_pattern rs ++ tl) left in
      let fewer : length (remaining res) < suc (length rest) =
        subst (λ rs. length rs < suc (length rest)) (sym left) (omega arith) in
      subst
        (λ s.
          Next conv describe (listed verdict row cols ++ tl)
            (after_desc conv next_table again (with_desc c res) s))
        (sym e)
        (subst
          (λ w.
            Next conv describe (listed verdict row cols ++ tl)
              (by_column (again (with_desc c res)) (with_desc c res) w))
          (sym (column_verdict-row (with_desc c res) row at))
          (by_column-Next verdict row cols tl (again (with_desc c res)) (with_desc c res) at same
            (v, u, g)
            (subst (λ rs. Next conv describe rs (again (with_desc c res))) same
              (next res v fewer))))
