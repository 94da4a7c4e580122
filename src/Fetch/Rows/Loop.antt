-- ===== src/Fetch/Rows/Loop.antt =====
-- src/core/stmt.c: the application's loop around SQLFetch.
use taos_connector_odbc.Prelude.{
  ℕ, zero, suc, ◌+◌, ◌-◌, ◌<◌, ◌==◌, if◌then◌else◌, true, false, Option, none, some, List, [], ◌∷◌,
  ◌++◌, map, length, take, drop, length-take, length-drop, length-append, length-replicate,
  replicate, ◌≡◌, refl, ap, ◌∙◌, arith, Bool-cases, inl, inr,
}
use taos_connector_odbc.Prelude.Int.{ℤ}
use mathlib.Core.Path.{subst}
use taos_connector_odbc.Odbc.{
  Text, Pointer, SqlReturn, sql_success, sql_success_with_info, sql_no_data, sql_error,
}
use taos_connector_odbc.Desc.{DescHeader, Descriptor, sql_bind_by_column}
use taos_connector_odbc.GetData.State.{Libc}
use taos_connector_odbc.GetData.Char.{Names}
use taos_connector_odbc.Fetch.Blocks.{Row}
use taos_connector_odbc.Fetch.Blocks.Cursor.{IsValid, remaining}
use taos_connector_odbc.Fetch.Rows.{Fetching, get_data_ctx_reset, sql_row_norow, stmt_fetch}
use taos_connector_odbc.Fetch.Rows.Arrays.{at_pointer}
use taos_connector_odbc.Fetch.Rows.Rowset.{
  rows_before, rest, answer, length-filled, length-rows_before,
}
use taos_connector_odbc.Fetch.Rows.Refines.{Rowset, size, outcome, stmt_fetch-Rowset}

not_first : (i : ℕ) → (if suc i == 0 then sql_no_data else sql_success) ≡ sql_success
not_first i = ground arith

length-at_pointer :
    (p : Pointer) (xs ys : List ℕ) (n : ℕ)
    → length xs ≡ n
    → length ys ≡ n
    → length (at_pointer p xs ys) ≡ n
length-at_pointer p xs ys n a b = elim (Bool-cases (p == 0)) [ inl e ↦ rw e b | inr e ↦ rw e a ]

module _ {R : Type 0} where
  rows_before-some : (n : ℕ) (rows : List R) → rows_before n (map some rows) ≡ take n rows
  rows_before-some zero rows = refl
  rows_before-some (suc n) [] = refl
  rows_before-some (suc n) (r ∷ rows) = ap (λ rs. r ∷ rs) (rows_before-some n rows)

  rest-some : (n : ℕ) (rows : List R) → rest n (map some rows) ≡ map some (drop n rows)
  rest-some zero rows = refl
  rest-some (suc n) [] = refl
  rest-some (suc n) (r ∷ rows) = rest-some n rows

  answer-some : (n i : ℕ) (rows : List R) → (answer n (suc i) (map some rows)).0 ≡ sql_success
  answer-some zero i rows = refl
  answer-some (suc n) i [] = not_first i
  answer-some (suc n) i (r ∷ rows) = answer-some n (suc i) rows

abbrev pub counted : {A : Type 0} → ℕ → Option (ℕ × A) → Option (ℕ × A)
counted k none = none
counted k (some (n, a)) = some (k + n, a)

module _ (L : Libc) (names : Names) (true_text : Text) (false_text : Text) (memory : Pointer → ℤ)
    (ard : Descriptor) (ird : DescHeader) where
  fetch : Fetching L.Float → Fetching L.Float × SqlReturn
  fetch f = stmt_fetch L names true_text false_text memory ard ird f

  rows_of_set : ℕ
  rows_of_set = size L names true_text false_text memory ard ird

  -- SQLFetch until SQL_NO_DATA, which adds up the numbers of rows; `none` on an error.
  unfoldable pub fetch_all : ℕ → Fetching L.Float → Option (ℕ × Fetching L.Float)
  unfolding fetch
  fetch_all zero f = none
  fetch_all (suc fuel) f =
      let (f', sr) = fetch f in
      let later = counted f'.rows_processed (fetch_all fuel f') in
      elim sr [
        | sql_success ↦ later
        | sql_no_data ↦ some (0, f')
        | sql_success_with_info ↦ none
        | sql_error ↦ none
      ]

  -- The array of statuses keeps its length.
  statuses_long :
      (ms : List (Option (Row L.Float))) (f f' : Fetching L.Float) (sr : SqlReturn)
      → Rowset L names true_text false_text memory ard ird ms f f' sr
      → length f.array_status ≡ size L names true_text false_text memory ard ird
      → length f'.array_status ≡ size L names true_text false_text memory ard ird
  statuses_long ms f f' sr h e =
      let n = size L names true_text false_text memory ard ird in
      let sts = (outcome L names true_text false_text memory ard ird ms f).1 in
      let k = length (rows_before n ms) in
      let norow = replicate (n - k) sql_row_norow in
      let sts_long : length sts ≡ k =
        length-filled L names true_text false_text memory ard ird f.res.fields_nr 0
          (rows_before n ms) (get_data_ctx_reset f.stmt) in
      let norow_long : length norow ≡ n - k = length-replicate (n - k) sql_row_norow in
      let total : length (sts ++ norow) ≡ n =
        length-append sts norow ∙ omega (arith, sts_long, norow_long, length-rows_before n ms) in
      ap length h.statuses ∙ length-at_pointer ird.desc_array_status_ptr (sts ++ norow) _ n total e

  some_size : (m : ℕ) × (size L names true_text false_text memory ard ird ≡ suc m)
  some_size = elim (Bool-cases (ard.header.desc_array_size == 0)) [
    | inl e ↦ (0, rw e refl)
    | inr e ↦ (ard.header.desc_array_size - 1, rw e (ground (arith, e)))
  ]

  fetch_all-success :
      (fuel : ℕ) (f : Fetching L.Float)
      → (fetch f).1 ≡ sql_success
      → fetch_all (suc fuel) f ≡ counted (fetch f).0.rows_processed (fetch_all fuel (fetch f).0)
  unfolding fetch_all fetch
  fetch_all-success fuel f e = rw (fetch_all, e) refl

  fetch_all-no_data :
      (fuel : ℕ) (f : Fetching L.Float)
      → (fetch f).1 ≡ sql_no_data
      → fetch_all (suc fuel) f ≡ some (0, (fetch f).0)
  unfolding fetch_all fetch
  fetch_all-no_data fuel f e = rw (fetch_all, e) refl

  fetched :
      (rows : List (Row L.Float)) (f : Fetching L.Float)
      → IsValid f.res
      → length f.array_status ≡ size L names true_text false_text memory ard ird
      → (ard.header.desc_bind_type == sql_bind_by_column) ≡ true
      → remaining f.res ≡ map some rows
      → Rowset L names true_text false_text memory ard ird (map some rows) f (fetch f).0 (fetch f).1
  unfolding fetch
  fetched rows f v e b q =
      subst (λ ms. Rowset L names true_text false_text memory ard ird ms f (fetch f).0 (fetch f).1)
        q (stmt_fetch-Rowset L names true_text false_text memory ard ird f v e b)

  -- What the calls leave, set by set: each but the last fills the next rows of the rowset's size, as
  -- Rowset says, and the last returns SQL_NO_DATA.
  abbrev pub Sets : ℕ → List (Row L.Float) → Fetching L.Float → Fetching L.Float → Type 0
  Sets zero rows f f' = ⊥
  Sets (suc fuel) [] f f' = Rowset L names true_text false_text memory ard ird [] f f' sql_no_data
  Sets (suc fuel) (r ∷ rows) f f' =
      (f1 : Fetching L.Float) × Rowset L names true_text false_text memory ard ird
        (some r ∷ map some rows) f f1 sql_success
      × Sets fuel (drop (size L names true_text false_text memory ard ird) (r ∷ rows)) f1 f'

  -- The application's loop around SQLFetch with columns bound by column, where the client does not
  -- fail, the number of rows is stored, and the array of statuses has the rowset's length: within
  -- one more call than there are rows it ends with SQL_NO_DATA; the calls fill the rows that remained
  -- in their order, each once: every call the next ones of the rowset's size, into the elements of the
  -- bound arrays and with their statuses; the numbers of rows add up, and no row remains.
  pub fetch_all-rows :
      (fuel : ℕ) (rows : List (Row L.Float)) (f : Fetching L.Float)
      → IsValid f.res
      → length f.array_status ≡ size L names true_text false_text memory ard ird
      → (ard.header.desc_bind_type == sql_bind_by_column) ≡ true
      → (ird.desc_rows_processed_ptr == 0) ≡ false
      → remaining f.res ≡ map some rows
      → length rows < fuel
      → (f' : Fetching L.Float) × (fetch_all fuel f ≡ some (length rows, f'))
        × (remaining f'.res ≡ [])
        × Sets fuel rows f f'
  fetch_all-rows zero rows f v e b p q l = absurd (omega arith)
  fetch_all-rows (suc fuel) [] f v e b p q l =
      let h = fetched [] f v e b q in
      let (m, s) = some_size in
      let no_data = h.returned ∙ ap (λ n. (answer {R = Row L.Float} n 0 []).0) s in
      (
        (fetch f).0,
        fetch_all-no_data fuel f no_data,
        h.left ∙ ap (λ n. rest {R = Row L.Float} n []) s,
        subst (Rowset L names true_text false_text memory ard ird [] f (fetch f).0) no_data h,
      )
  fetch_all-rows (suc fuel) (r ∷ rows) f v e b p q l =
      let h = fetched (r ∷ rows) f v e b q in
      let (m, s) = some_size in
      let n = size L names true_text false_text memory ard ird in
      let left = h.left ∙ rest-some n (r ∷ rows) in
      let shorter = length-drop n (r ∷ rows) in
      let this : (fetch f).0.rows_processed ≡ length (take n (r ∷ rows)) =
        h.processed
        ∙ ap (λ c. if c then f.rows_processed else length (rows_before n (map some (r ∷ rows)))) p
        ∙ ap length (rows_before-some n (r ∷ rows)) in
      let (f', run, done, sets) =
        fetch_all-rows fuel (drop n (r ∷ rows)) (fetch f).0 h.valid (statuses_long _ f _ _ h e) b p
          left (omega (arith, l, shorter, s)) in
      let sum : (fetch f).0.rows_processed + length (drop n (r ∷ rows)) ≡ length (r ∷ rows) =
        omega (arith, this, shorter, length-take n (r ∷ rows)) in
      let ok =
        h.returned ∙ ap (λ k. (answer k 0 (some r ∷ map some rows)).0) s ∙ answer-some m 0 rows in
      (
        f',
        fetch_all-success fuel f ok
            ∙ ap (counted (fetch f).0.rows_processed) run
            ∙ ap (λ k. some (k, f')) sum,
        done,
        (
          (fetch f).0,
          subst
              (Rowset L names true_text false_text memory ard ird (some r ∷ map some rows) f
                (fetch f).0)
              ok h,
          sets,
        ),
      )
