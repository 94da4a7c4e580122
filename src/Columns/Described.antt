-- ===== src/Columns/Described.antt =====
-- src/core/columns.c: at the end of a table, the next one that is selected is described.
use taos_connector_odbc.Prelude.{
  ℕ, ◌+◌, ◌<◌, ◌≤◌, Option, none, some, List, [], ◌∷◌, ◌++◌, length, ◌≡◌, refl, sym, ap, ◌∙◌, arith,
}
use mathlib.Core.Path.{subst}
use taos_connector_odbc.Odbc.{Text, SqlReturn, sql_success, sql_no_data, sql_error, SqlState}
use taos_connector_odbc.Wildcard.{Node}
use taos_connector_odbc.Fetch.Blocks.{Row, Answer, Res, current}
use taos_connector_odbc.Fetch.Blocks.Cursor.{remaining, IsValid}
use taos_connector_odbc.Tables.Rows.{
  Iconv, Tables, Verdict, kept, skipped, failing, row_text, row_verdict, with_res,
}
use taos_connector_odbc.Tables.Rows.Picked.{Leaves, Selects, AtRow}
use taos_connector_odbc.Columns.{
  Columns, fresh, describe_row, describe_current, with_desc, after_tables, go_again,
}
use taos_connector_odbc.Columns.Listed.{
  described, description, columns_of, table_columns, all_columns, left_columns, Next,
  described_rounds, rounds,
}

module _ {F : Type 0} (conv : Iconv) (describe : Text → Text → Option (List (Answer F) × ℕ)) where
  pub length-rounds : (rows : List (Option (Row F))) → length rows ≤ rounds conv describe rows
  length-rounds [] = omega arith
  length-rounds (none ∷ rest) = let h = length-rounds rest in omega (arith, h)
  length-rounds (some row ∷ rest) = let h = length-rounds rest in omega (arith, h)

  abbrev FineResult : Option (Res F) → Type 0
  FineResult none = Unit {0}
  FineResult (some res) = IsValid res

  then-FineResult :
      {A : Type 0} (o : Option A) (f : A → Option (Res F))
      → ((a : A) → FineResult (f a))
      → FineResult (elim o [ none ↦ none | some a ↦ f a ])
  then-FineResult none f h = tt
  then-FineResult (some a) f h = h a

  described-FineResult :
      (catalog schema table type : Option Text)
      → FineResult (described describe catalog schema table type)
  described-FineResult none schema table type = tt
  described-FineResult (some catalog) none table type = tt
  described-FineResult (some catalog) (some schema) none type = tt
  described-FineResult (some catalog) (some schema) (some table) none = tt
  described-FineResult (some catalog) (some schema) (some table) (some type) =
      then-FineResult (describe catalog table) _ λ d. refl

  -- _fetch_and_desc_next_table describes a table as described says.
  describe_row-described :
      (catalog schema table type : Option Text)
      → (elim catalog [
        | none ↦ none
        | some c ↦ elim schema [
          | none ↦ none
          | some s ↦ elim table [
            | none ↦ none
            | some t ↦ elim type [
              | none ↦ none
              | some ty ↦ elim (describe c t) [ none ↦ none | some d ↦ some (fresh d) ]
            ]
          ]
        ]
      ])
        ≡ described describe catalog schema table type
  describe_row-described none schema table type = refl
  describe_row-described (some catalog) none table type = refl
  describe_row-described (some catalog) (some schema) none type = refl
  describe_row-described (some catalog) (some schema) (some table) none = refl
  describe_row-described (some catalog) (some schema) (some table) (some type) = refl

  describe_row-description : (row : Row F) → describe_row describe row ≡ description describe row
  unfolding describe_row
  describe_row-description row =
      describe_row-described (row_text row 0) (row_text row 1) (row_text row 2) (row_text row 3)

  all_columns-with_res :
      (t : Tables F) (res : Res F) (pattern : Option (List Node)) (rows : List (Option (Row F)))
      → all_columns conv describe (with_res t res) pattern rows
        ≡ all_columns conv describe t pattern rows
  unfolding row_verdict
  all_columns-with_res t res pattern [] = refl
  all_columns-with_res t res pattern (none ∷ rest) =
      ap (λ rs. none ∷ rs) (all_columns-with_res t res pattern rest)
  all_columns-with_res t res pattern (some row ∷ rest) =
      ap (table_columns conv describe (row_verdict conv t row) (description describe row) pattern)
        (all_columns-with_res t res pattern rest)

  describe_current-row :
      (t : Tables F) (row : Row F)
      → current t.res ≡ some row
      → describe_current describe t ≡ description describe row
  unfolding describe_current
  describe_current-row t row at =
      ap (λ (o : Option (Row F)). elim o [ none ↦ none | some r ↦ describe_row describe r ]) at
      ∙ describe_row-description row

  -- The tables behind a row that was read, and the table that was described.
  abbrev Onward :
      Columns F
      → (Columns F → Columns F × SqlReturn)
      → Tables F
      → Row F
      → List (Option (Row F))
      → Type 0
  Onward c again t' row rest =
      (res : Res F)
      → description describe row ≡ some res
      → IsValid res
      → Leaves c.tables rest t'
      → Next conv describe
          (columns_of conv c.column_pattern (remaining res)
            ++ all_columns conv describe c.tables c.column_pattern rest)
          (again (record c { tables = t'; desc = res }))

  described-Next :
      (c : Columns F) (again : Columns F → Columns F × SqlReturn) (tl : List (Option (Row F)))
      (o : Option (Res F))
      → FineResult o
      → ((res : Res F)
          → o ≡ some res
          → IsValid res
          → Next conv describe
              (columns_of conv c.column_pattern (remaining res) ++ tl)
              (again (with_desc c res)))
      → Next conv describe (table_columns conv describe kept o c.column_pattern tl) (
          go_again again
            (elim o [ none ↦ (c, sql_error) | some res ↦ (with_desc c res, sql_success) ]))
  unfolding go_again
  described-Next c again tl none fine h = refl
  described-Next c again tl (some res) fine h = h res refl fine

  after_tables-Next :
      (c : Columns F) (again : Columns F → Columns F × SqlReturn) (t' : Tables F) (sr : SqlReturn)
      (diags : List SqlState) (v : Verdict) (row : Row F) (rest : List (Option (Row F)))
      → AtRow v c.tables row rest (t', sr, diags) (Selects conv c.tables rest (t', sr, diags))
      → Onward c again t' row rest
      → (Selects conv c.tables rest (t', sr, diags)
          → Next conv describe
              (all_columns conv describe c.tables c.column_pattern rest)
              (go_again again (after_tables describe (record c { tables = t' }) sr)))
      → Next conv describe
          (table_columns conv describe v
            (description describe row)
            c.column_pattern
            (all_columns conv describe c.tables c.column_pattern rest))
          (go_again again (after_tables describe (record c { tables = t' }) sr))
  unfolding after_tables describe_current go_again
  after_tables-Next c again t' sr diags kept row rest (leaves, at, e, d) onward next =
      let tl = all_columns conv describe c.tables c.column_pattern rest in
      let c' = record c { tables = t' } in
      subst
        (λ s.
          Next conv describe
            (table_columns conv describe kept (description describe row) c.column_pattern tl)
            (go_again again (after_tables describe c' s)))
        (sym e)
        (subst
          (λ (o : Option (Res F)).
            Next conv describe
              (table_columns conv describe kept (description describe row) c.column_pattern tl)
              (go_again again
                (elim o [ none ↦ (c', sql_error) | some res ↦ (with_desc c' res, sql_success) ])))
          (sym (describe_current-row t' row at))
          (described-Next c' again tl (description describe row)
            (described-FineResult (row_text row 0) (row_text row 1) (row_text row 2)
              (row_text row 3))
            (λ res same valid. onward res same valid leaves)))
  after_tables-Next c again t' sr diags skipped row rest selects onward next = next selects
  after_tables-Next c again t' sr diags failing row rest (leaves, e, d) onward next =
      subst
        (λ s. (go_again again (after_tables describe (record c { tables = t' }) s)).1 ≡ sql_error)
        (sym e) refl

  -- The tables that remain, up to one that is described.
  pub tables-Next :
      (c : Columns F) (again : Columns F → Columns F × SqlReturn) (t' : Tables F) (sr : SqlReturn)
      (diags : List SqlState) (rows : List (Option (Row F)))
      → Selects conv c.tables rows (t', sr, diags)
      → ((row : Row F) (rest : List (Option (Row F)))
          → described_rounds conv describe (description describe row) + rounds conv describe rest
            < rounds conv describe rows
          → Onward c again t' row rest)
      → Next conv describe
          (all_columns conv describe c.tables c.column_pattern rows)
          (go_again again (after_tables describe (record c { tables = t' }) sr))
  unfolding after_tables go_again
  tables-Next c again t' sr diags [] (leaves, e, d) onward =
      subst
        (λ s. (go_again again (after_tables describe (record c { tables = t' }) s)).1 ≡ sql_no_data)
        (sym e) refl
  tables-Next c again t' sr diags (none ∷ rest) (leaves, e, d) onward =
      subst
        (λ s. (go_again again (after_tables describe (record c { tables = t' }) s)).1 ≡ sql_error)
        (sym e) refl
  tables-Next c again t' sr diags (some row ∷ rest) selects onward =
      after_tables-Next c again t' sr diags (row_verdict conv c.tables row) row rest selects
        (onward row rest (omega arith))
        (λ selects'.
          tables-Next c again t' sr diags rest selects' (λ r rs h. onward r rs (omega (arith, h))))

  -- The same tables behind a row of them that was read.
  pub left_columns-onward :
      (c : Columns F) (t' : Tables F) (res : Res F) (rest : List (Option (Row F)))
      → Leaves c.tables rest t'
      → left_columns conv describe (record c { tables = t'; desc = res })
        ≡ columns_of conv c.column_pattern (remaining res)
          ++ all_columns conv describe c.tables c.column_pattern rest
  left_columns-onward c t' res rest (v, same, left) =
      ap (λ tl. columns_of conv c.column_pattern (remaining res) ++ tl)
        (ap (all_columns conv describe t' c.column_pattern) left
          ∙ ap (λ t. all_columns conv describe t c.column_pattern rest) same
          ∙ all_columns-with_res c.tables t'.res c.column_pattern rest)
