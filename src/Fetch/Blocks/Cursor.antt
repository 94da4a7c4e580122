-- ===== src/Fetch/Blocks/Cursor.antt =====
-- src/core/tsdb.c: the blocks of rows are a cursor over the rows that the client still has.
use taos_connector_odbc.Prelude.{
  ℕ, zero, suc, ◌-◌, ◌≤◌, ◌<◌, leb, if◌then◌else◌, Bool, true, false, Option, none, some, List, [],
  ◌∷◌, ◌++◌, map, length, drop, get_elem?, ◌≡◌, refl, sym, ap, ◌∙◌, arith, Bool-cases, inl, inr,
}
use mathlib.Core.Path.{subst, subst₂}
use taos_connector_odbc.Odbc.{
  SqlReturn, sql_success, sql_success_with_info, sql_no_data, sql_error, SqlState, hy000,
}
use taos_connector_odbc.Fetch.Blocks.{
  Row, Answer, failed, fetched, Res, fetch_row, again, after_block, fetch_rows_block, store_block,
  advance, current, next_answer, rows_block_reset, tsdb_base, read_col,
}

module _ {F : Type 0} where
  -- The rows of the answers to come, up to the first block without rows; `none` is a failure.
  unfoldable pub later : List (Answer F) → List (Option (Row F))
  later [] = []
  later (failed ∷ answers) = none ∷ later answers
  later (fetched [] ∷ answers) = []
  later (fetched (r ∷ rs) ∷ answers) = map some (r ∷ rs) ++ later answers

  unfoldable pub remaining : Res F → List (Option (Row F))
  unfolding later
  remaining res =
      if res.eof
      then []
      else map some (drop res.rows_block.pos res.rows_block.block) ++ later res.upcoming

  abbrev pub IsValid : Res F → Type 0
  IsValid res = res.rows_block.nr ≡ length res.rows_block.block

  -- What fetching a row does, by the rows that remain.
  abbrev pub Reads : List (Option (Row F)) → Res F × SqlReturn × List SqlState → Type 0
  Reads [] (res, sr, diags) = IsValid res × (sr ≡ sql_no_data) × (diags ≡ []) × (remaining res ≡ [])
  Reads (none ∷ rest) (res, sr, diags) =
      IsValid res × (sr ≡ sql_error) × (diags ≡ hy000 ∷ []) × (remaining res ≡ rest)
  Reads (some row ∷ rest) (res, sr, diags) =
      IsValid res
      × (sr ≡ sql_success)
      × (diags ≡ [])
      × (remaining res ≡ rest)
      × (current res ≡ some row)

drop_beyond {ℓ} : {A : Type ℓ} (n : ℕ) (xs : List A) → length xs ≤ n → drop n xs ≡ []
drop_beyond zero [] h = refl
drop_beyond zero (x ∷ xs) h = absurd (omega arith)
drop_beyond (suc n) [] h = refl
drop_beyond (suc n) (x ∷ xs) h = drop_beyond n xs (omega arith)

drop_within {ℓ} :
    {A : Type ℓ} (n : ℕ) (xs : List A)
    → n < length xs
    → (x : A) × (drop n xs ≡ x ∷ drop (suc n) xs) × (get_elem? xs n ≡ some x)
drop_within n [] h = absurd (omega arith)
drop_within zero (x ∷ xs) h = (x, refl, refl)
drop_within (suc n) (x ∷ xs) h = drop_within n xs (omega arith)

module _ {F : Type 0} where
  -- A row of the block that is stored.
  advance-Reads :
      (res : Res F)
      → IsValid res
      → res.eof ≡ false
      → res.rows_block.pos < res.rows_block.nr
      → Reads (remaining res) (advance res, sql_success, [])
  unfolding advance remaining current
  advance-Reads res v e h =
      let (row, d, g) = drop_within res.rows_block.pos res.rows_block.block (omega (arith, v)) in
      let back : suc res.rows_block.pos - 1 ≡ res.rows_block.pos = omega arith in
      rw (e, d) (v, refl, refl, refl, ap (get_elem? res.rows_block.block) back ∙ g)

  again-stored :
      (fuel : ℕ) (res : Res F)
      → res.rows_block.pos < res.rows_block.nr
      → again (suc fuel) res ≡ (advance res, sql_success, [])
  unfolding again
  again-stored fuel res h = ground arith

  -- A result without rows at hand.
  abbrev spent : Bool → List (Answer F) → ℕ → Res F
  spent eof upcoming n = record {
    upcoming = upcoming;
    fields_nr = n;
    eof = eof;
    rows_block = record { block = []; nr = 0; pos = 0 };
  }

  -- No row of the block is left: the next answer decides.
  block-Reads :
      (upcoming : List (Answer F)) (n : ℕ)
      → Reads (later upcoming) (again 2 (spent false upcoming n))
  unfolding later again after_block fetch_rows_block store_block remaining
  block-Reads [] n = (refl, refl, refl, refl)
  block-Reads (failed ∷ answers) n = (refl, refl, refl, refl)
  block-Reads (fetched [] ∷ answers) n = (refl, refl, refl, refl)
  block-Reads (fetched (r ∷ rs) ∷ answers) n =
      let stored : Res F = record {
        upcoming = answers;
        fields_nr = n;
        eof = false;
        rows_block = record { block = r ∷ rs; nr = length (r ∷ rs); pos = 0 };
      } in
      let within : 0 < suc (length rs) = omega arith in
      subst (Reads (later (fetched (r ∷ rs) ∷ answers))) (sym (again-stored 0 stored within))
        (advance-Reads stored refl refl within)

  again-spent :
      (res : Res F)
      → res.eof ≡ false
      → leb res.rows_block.nr res.rows_block.pos ≡ true
      → again 2 res ≡ again 2 (spent false res.upcoming res.fields_nr)
  unfolding again fetch_rows_block
  again-spent res e over = rw over (ap (λ b. again 2 (spent b res.upcoming res.fields_nr)) e)

  remaining-spent :
      (res : Res F)
      → IsValid res
      → res.eof ≡ false
      → leb res.rows_block.nr res.rows_block.pos ≡ true
      → remaining res ≡ later res.upcoming
  unfolding remaining
  remaining-spent res v e over =
      let h : length res.rows_block.block ≤ res.rows_block.pos = ground (arith, v) in
      rw (e, drop_beyond res.rows_block.pos res.rows_block.block h) refl

  again-Reads : (res : Res F) → IsValid res → res.eof ≡ false → Reads (remaining res) (again 2 res)
  unfolding again remaining
  again-Reads res v e = elim (Bool-cases (leb res.rows_block.nr res.rows_block.pos)) [
    | inl over ↦
        subst₂ Reads (sym (remaining-spent res v e over)) (sym (again-spent res e over))
          (block-Reads res.upcoming res.fields_nr)
    | inr within ↦
        let h : res.rows_block.pos < res.rows_block.nr = ground arith in
        subst (Reads (remaining res)) (sym (again-stored 1 res h)) (advance-Reads res v e h)
  ]

  -- base->fetch_row reads the next of the rows that remain, skips over a failure of the client with
  -- SQL_ERROR and one diagnostic, and answers SQL_NO_DATA for good once none is left.
  pub fetch_row-Reads : (res : Res F) → IsValid res → Reads (remaining res) (fetch_row res)
  unfolding fetch_row remaining
  fetch_row-Reads res v = elim (Bool-cases res.eof) [
    | inl e ↦ rw e (v, refl, refl, refl)
    | inr e ↦
        let opened : fetch_row res ≡ again 2 res =
          ap (λ b. if b then (res, sql_no_data, []) else again 2 res) e in
        subst (Reads (remaining res)) (sym opened) (again-Reads res v e)
  ]

  store_block-fields :
      (a : Answer F × List (Answer F)) (res : Res F)
      → (store_block a res).0.fields_nr ≡ res.fields_nr
  unfolding store_block
  store_block-fields (failed, answers) res = refl
  store_block-fields (fetched [], answers) res = refl
  store_block-fields (fetched (r ∷ rs), answers) res = refl

  after_block-fields :
      (n : ℕ) (go : Res F → Res F × SqlReturn × List SqlState)
      → ((res : Res F) → (go res).0.fields_nr ≡ res.fields_nr)
      → (res : Res F) (sr : SqlReturn) (diags : List SqlState)
      → (after_block go (res, sr, diags)).0.fields_nr ≡ res.fields_nr
  unfolding after_block
  after_block-fields n go h res sql_success diags = h res
  after_block-fields n go h res sql_no_data diags = refl
  after_block-fields n go h res sql_success_with_info diags = refl
  after_block-fields n go h res sql_error diags = refl

  again-fields : (n : ℕ) (res : Res F) → (again n res).0.fields_nr ≡ res.fields_nr
  unfolding again fetch_rows_block advance
  again-fields zero res = refl
  again-fields (suc n) res =
      let stored = fetch_rows_block res in
      let kept =
        after_block-fields n (again n) (again-fields n) stored.0 stored.1 stored.2
        ∙ store_block-fields (next_answer res.upcoming) (rows_block_reset res) in
      elim (Bool-cases (leb res.rows_block.nr res.rows_block.pos)) [
        | inl e ↦ rw e kept
        | inr e ↦ rw e refl
      ]

  pub fetch_row-fields : (res : Res F) → (fetch_row res).0.fields_nr ≡ res.fields_nr
  unfolding fetch_row
  fetch_row-fields res = elim (Bool-cases res.eof) [
    | inl e ↦ ap (λ b. (if b then (res, sql_no_data, []) else again 2 res).0.fields_nr) e
    | inr e ↦
        ap (λ b. (if b then (res, sql_no_data, []) else again 2 res).0.fields_nr) e
        ∙ again-fields 2 res
  ]

  -- stmt->base at the current row.
  pub tsdb_base-current :
      (res : Res F) (row : Row F)
      → current res ≡ some row
      → tsdb_base res
        ≡ record { get_data = λ num. row (num - 1); get_col_count = some res.fields_nr }
  unfolding tsdb_base read_col
  tsdb_base-current res row h =
      λ j. record { get_data = λ num. read_col (h j) (num - 1); get_col_count = some res.fields_nr }
