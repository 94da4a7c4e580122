-- ===== src/Tables/Rows/Picked.antt =====
-- src/core/tables.c: of the rows that the client has left, fetching a row passes over those that the
-- arguments of SQLTables do not select.
use taos_connector_odbc.Prelude.{
  ℕ, zero, suc, ◌<◌, Option, none, some, List, [], ◌∷◌, length, ◌≡◌, refl, sym, ap, ◌∙◌, arith,
}
use mathlib.Core.Path.{subst}
use taos_connector_odbc.Odbc.{
  SqlReturn, sql_success, sql_success_with_info, sql_no_data, sql_error, SqlState, hy000,
}
use taos_connector_odbc.Fetch.Blocks.{Row, Res, fetch_row, current}
use taos_connector_odbc.Fetch.Blocks.Cursor.{remaining, IsValid, Reads, fetch_row-Reads}
use taos_connector_odbc.Tables.Rows.{
  Iconv, Tables, Verdict, kept, skipped, failing, tables_for_generic, row_verdict, with_res,
  by_verdict, current_verdict, after_fetch, fetch_from,
}

module _ {F : Type 0} where
  -- The arguments stay, and the rows that remain are `rest`.
  abbrev pub Leaves : Tables F → List (Option (Row F)) → Tables F → Type 0
  Leaves t rest t' = IsValid t'.res × (t' ≡ with_res t t'.res) × (remaining t'.res ≡ rest)

  -- The outcome at a row, by its verdict; `next` is the outcome at the rows behind it.
  abbrev pub AtRow :
      Verdict
      → Tables F
      → Row F
      → List (Option (Row F))
      → Tables F × SqlReturn × List SqlState
      → Type 0
      → Type 0
  AtRow kept t row rest (t', sr, diags) next =
      Leaves t rest t' × (current t'.res ≡ some row) × (sr ≡ sql_success) × (diags ≡ [])
  AtRow skipped t row rest out next = next
  AtRow failing t row rest (t', sr, diags) next =
      Leaves t rest t' × (sr ≡ sql_error) × (diags ≡ hy000 ∷ [])

  -- The outcome, by the rows that remain: the first that is not skipped decides.
  abbrev pub Selects :
      Iconv → Tables F → List (Option (Row F)) → Tables F × SqlReturn × List SqlState → Type 0
  Selects conv t [] (t', sr, diags) = Leaves t [] t' × (sr ≡ sql_no_data) × (diags ≡ [])
  Selects conv t (none ∷ rest) (t', sr, diags) =
      Leaves t rest t' × (sr ≡ sql_error) × (diags ≡ hy000 ∷ [])
  Selects conv t (some row ∷ rest) out =
      AtRow (row_verdict conv t row) t row rest out (Selects conv t rest out)

  at_row :
      (v : Verdict) (t t' : Tables F) (row : Row F) (rest : List (Option (Row F)))
      (again : Tables F × SqlReturn × List SqlState)
      (Next : Tables F × SqlReturn × List SqlState → Type 0)
      → Leaves t rest t'
      → current t'.res ≡ some row
      → Next again
      → AtRow v t row rest (by_verdict again t' [] v) (Next (by_verdict again t' [] v))
  unfolding by_verdict
  at_row kept t t' row rest again Next h c next = (h, c, refl, refl)
  at_row skipped t t' row rest again Next h c next = next
  at_row failing t t' row rest again Next h c next = (h, refl, refl)

  current_verdict-row :
      (conv : Iconv) (t : Tables F) (res : Res F) (row : Row F)
      → current res ≡ some row
      → current_verdict conv (with_res t res) ≡ row_verdict conv t row
  unfolding current_verdict row_verdict
  current_verdict-row conv t res row c =
      ap (λ o. elim o [ none ↦ failing | some r ↦ row_verdict conv t r ]) c

  at_success :
      (conv : Iconv) (again : Tables F → Tables F × SqlReturn × List SqlState) (t : Tables F)
      (diags : List SqlState)
      → t.tables_type ≡ tables_for_generic
      → after_fetch conv again t sql_success diags
        ≡ by_verdict (again t) t diags (current_verdict conv t)
  unfolding after_fetch
  at_success conv again t diags generic =
      ap
        (λ ty. elim ty [
          | tables_for_generic ↦ by_verdict (again t) t diags (current_verdict conv t)
          | _ ↦ (t, sql_success, diags)
        ])
        generic

  selects :
      (conv : Iconv) (t : Tables F) (again : Tables F → Tables F × SqlReturn × List SqlState)
      (rows : List (Option (Row F))) (read : Res F × SqlReturn × List SqlState)
      → t.tables_type ≡ tables_for_generic
      → Reads rows read
      → ((res : Res F) (row : Row F) (rest : List (Option (Row F)))
          → rows ≡ some row ∷ rest
          → IsValid res
          → remaining res ≡ rest
          → Selects conv t rest (again (with_res t res)))
      → Selects conv t rows (after_fetch conv again (with_res t read.0) read.1 read.2)
  unfolding after_fetch
  selects conv t again [] (res, sql_no_data, diags) generic (v, e, d, left) next =
      ((v, refl, left), refl, d)
  selects conv t again [] (res, sql_success, diags) generic (v, e, d, left) next = absurd (cc)
  selects conv t again [] (res, sql_success_with_info, diags) generic (v, e, d, left) next =
      absurd (cc)
  selects conv t again [] (res, sql_error, diags) generic (v, e, d, left) next = absurd (cc)
  selects conv t again (none ∷ rest) (res, sql_error, diags) generic (v, e, d, left) next =
      ((v, refl, left), refl, d)
  selects conv t again (none ∷ rest) (res, sql_success, diags) generic (v, e, d, left) next =
      absurd (cc)
  selects conv t again (none ∷ rest) (res, sql_success_with_info, diags) generic (v, e, d, left)
        next =
      absurd (cc)
  selects conv t again (none ∷ rest) (res, sql_no_data, diags) generic (v, e, d, left) next =
      absurd (cc)
  selects conv t again (some row ∷ rest) (res, sql_success, diags) generic (v, e, d, left, c) next =
      subst (Selects conv t (some row ∷ rest))
        (sym (
          at_success conv again (with_res t res) diags generic
          ∙ ap (by_verdict (again (with_res t res)) (with_res t res) diags)
              (current_verdict-row conv t res row c)
          ∙ ap
              (λ ds.
                by_verdict (again (with_res t res)) (with_res t res) ds (row_verdict conv t row))
              d))
        (at_row (row_verdict conv t row) t (with_res t res) row rest (again (with_res t res))
          (Selects conv t rest) (v, refl, left) c (next res row rest refl v left))
  selects conv t again (some row ∷ rest) (res, sql_no_data, diags) generic (v, e, d, left, c) next =
      absurd (cc)
  selects conv t again (some row ∷ rest) (res, sql_success_with_info, diags) generic
        (v, e, d, left, c) next =
      absurd (cc)
  selects conv t again (some row ∷ rest) (res, sql_error, diags) generic (v, e, d, left, c) next =
      absurd (cc)

  from_res :
      (fuel : ℕ) (conv : Iconv) (t : Tables F) (res : Res F)
      → IsValid res
      → t.tables_type ≡ tables_for_generic
      → length (remaining res) < fuel
      → Selects conv t (remaining res) (fetch_from fuel conv (with_res t res))
  unfolding fetch_from
  from_res zero conv t res v generic h = absurd (omega arith)
  from_res (suc fuel) conv t res v generic h =
      selects conv t (fetch_from fuel conv) (remaining res) (fetch_row res) generic
        (fetch_row-Reads res v)
        (λ res' row rest e v' left.
          subst (λ rs. Selects conv t rs (fetch_from fuel conv (with_res t res'))) left
            (from_res fuel conv t res' v' generic (omega (arith, h, ap length e, ap length left))))

  -- Fetching a row of SQLTables (_fetch_row_with_tsdb), for arguments that may select fewer than all
  -- rows and with fuel for more rounds than rows remain: of the rows that the client has left, it
  -- passes over those that are not selected, up to the first selected one, which is read and
  -- returned with SQL_SUCCESS; or to a failure of the client or of a test, which is SQL_ERROR with
  -- one diagnostic; the rows behind it remain. Where there is none of these, it returns SQL_NO_DATA.
  pub fetch_from-Selects :
      (fuel : ℕ) (conv : Iconv) (t : Tables F)
      → IsValid t.res
      → t.tables_type ≡ tables_for_generic
      → length (remaining t.res) < fuel
      → Selects conv t (remaining t.res) (fetch_from fuel conv t)
  fetch_from-Selects fuel conv t = from_res fuel conv t t.res
