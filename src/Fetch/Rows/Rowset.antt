-- ===== src/Fetch/Rows/Rowset.antt =====
-- src/core/stmt.c: what _stmt_fetch_x does to the application's arrays, by the rows that remain.
use taos_connector_odbc.Prelude.{
  ℕ, zero, suc, ◌+◌, ◌-◌, ◌≤◌, ◌==◌, if◌then◌else◌, Option, none, some, List, [], ◌∷◌, ◌++◌, length,
  set, ◌≡◌, refl, sym, ap, ◌∙◌, arith,
}
use taos_connector_odbc.Prelude.Int.{ℤ}
use mathlib.Core.Path.{subst}
use taos_connector_odbc.Odbc.{
  Text, Pointer, SqlReturn, sql_success, sql_no_data, sql_error, SqlState, hy000,
}
use taos_connector_odbc.Desc.{DescHeader, Descriptor}
use taos_connector_odbc.GetData.State.{Libc, Stmt}
use taos_connector_odbc.GetData.Char.{Names}
use taos_connector_odbc.GetData.Session.{Base}
use taos_connector_odbc.Fetch.Blocks.{Row, Res, tsdb_base, fetch_row}
use taos_connector_odbc.Fetch.Blocks.Cursor.{
  IsValid, Reads, remaining, fetch_row-Reads, fetch_row-fields, tsdb_base-current,
}
use taos_connector_odbc.Fetch.Rows.Arrays.{
  at_pointer, write_at, at_pointer_same, at_pointer_twice, put_status-fields,
}
use taos_connector_odbc.Fetch.Rows.Cells.{read_row, fill_row-read_row}
use taos_connector_odbc.Fetch.Rows.{Fetching, status_of, take_row, fetch_next_row, fetch_rows}

module _ {R : Type 0} where
  -- The rows before the first failure, at most `n`.
  abbrev pub rows_before : ℕ → List (Option R) → List R
  rows_before zero ms = []
  rows_before (suc n) [] = []
  rows_before (suc n) (none ∷ ms) = []
  rows_before (suc n) (some r ∷ ms) = r ∷ rows_before n ms

  -- What is left after a rowset of `n` rows: a failure that ends it is skipped.
  abbrev pub rest : ℕ → List (Option R) → List (Option R)
  rest zero ms = ms
  rest (suc n) [] = []
  rest (suc n) (none ∷ ms) = ms
  rest (suc n) (some r ∷ ms) = rest n ms

  -- The return code and the diagnostics of a rowset from row `i` on.
  abbrev pub answer : ℕ → ℕ → List (Option R) → SqlReturn × List SqlState
  answer zero i ms = (sql_success, [])
  answer (suc n) i [] = (if i == 0 then sql_no_data else sql_success, [])
  answer (suc n) i (none ∷ ms) = (sql_error, hy000 ∷ [])
  answer (suc n) i (some r ∷ ms) = answer n (suc i) ms

pub length-rows_before : {R : Type 0} (n : ℕ) (ms : List (Option R)) → length (rows_before n ms) ≤ n
length-rows_before zero ms = omega arith
length-rows_before (suc n) [] = omega arith
length-rows_before (suc n) (none ∷ ms) = omega arith
length-rows_before (suc n) (some r ∷ ms) = omega (arith, length-rows_before n ms)

-- stmt->base, at a row.
abbrev pub row_base : {F : Type 0} → ℕ → Row F → Base F
row_base n row = record { get_data = λ num. row (num - 1); get_col_count = some n }

module _ (L : Libc) (names : Names) (true_text : Text) (false_text : Text) (memory : Pointer → ℤ)
    (ard : Descriptor) (ird : DescHeader) where
  -- The rows are filled one after the other; what is left of a row's outcome is its status.
  pub filled : ℕ → ℕ → List (Row L.Float) → Stmt L.Float → Stmt L.Float × List ℕ
  filled fields i [] s = (s, [])
  filled fields i (row ∷ rows) s =
      let (s', sr) =
        read_row L names true_text false_text memory ard ird (row_base fields row) i s in
      let (s'', statuses) = filled fields (suc i) rows s' in (s'', status_of sr ∷ statuses)

  pub length-filled :
      (fields i : ℕ) (rows : List (Row L.Float)) (s : Stmt L.Float)
      → length (filled fields i rows s).1 ≡ length rows
  unfolding filled
  length-filled fields i [] s = refl
  length-filled fields i (row ∷ rows) s = ap suc (length-filled fields (suc i) rows _)

  -- What _stmt_fetch_rows leaves.
  pub record Fetched (n i : ℕ) (ms : List (Option (Row L.Float))) (f f' : Fetching L.Float)
      (sr : SqlReturn) (k : ℕ) : Type 0 where
    pub valid : IsValid f'.res
    pub left : remaining f'.res ≡ rest n ms
    pub returned : sr ≡ (answer n i ms).0
    pub counted : k ≡ i + length (rows_before n ms)
    pub stmts : f'.stmt ≡ record ((filled f.res.fields_nr i (rows_before n ms) f.stmt).0) {
      diags = (answer n i ms).1 ++ (filled f.res.fields_nr i (rows_before n ms) f.stmt).0.diags;
    }
    pub statuses :
        f'.array_status
        ≡ at_pointer ird.desc_array_status_ptr
            (write_at i (filled f.res.fields_nr i (rows_before n ms) f.stmt).1 f.array_status)
            f.array_status
    pub processed : f'.rows_processed ≡ f.rows_processed

  -- What a row that is filled leaves of the statement `s` and of the arrays of `f`.
  record Taken (i : ℕ) (base : Base L.Float) (s : Stmt L.Float) (f f' : Fetching L.Float)
      : Type 0 where
    filled_stmt : f'.stmt ≡ (read_row L names true_text false_text memory ard ird base i s).0
    status :
        f'.array_status
        ≡ at_pointer ird.desc_array_status_ptr
            (set f.array_status i
              (status_of (read_row L names true_text false_text memory ard ird base i s).1))
            f.array_status
    same_processed : f'.rows_processed ≡ f.rows_processed

  taken : ℕ → Fetching L.Float → Fetching L.Float
  taken i f = take_row L names true_text false_text memory ard ird i f

  take_row-res : (i : ℕ) (f : Fetching L.Float) → (taken i f).res ≡ f.res
  unfolding taken take_row
  take_row-res i f = (put_status-fields ird i _ _).0

  -- `f` is the state before base->fetch_row, which changes the result only.
  abbrev moved : Fetching L.Float → List SqlState → Fetching L.Float
  moved f diags = record f {
    res = (fetch_row f.res).0;
    stmt = record (f.stmt) { diags = diags ++ f.stmt.diags };
  }

  take_row-Taken :
      (i : ℕ) (f : Fetching L.Float)
      → Taken i (tsdb_base (fetch_row f.res).0) f.stmt f (taken i (moved f []))
  unfolding taken take_row
  take_row-Taken i f =
      let (r, s, p, a) = put_status-fields ird i _ _ in
      let same =
        fill_row-read_row L names true_text false_text memory ard ird
          (tsdb_base (fetch_row f.res).0) i f.stmt in
      record {
        filled_stmt = s ∙ ap (λ out. out.0) same;
        status =
            a
            ∙ ap
                (λ out.
                  at_pointer ird.desc_array_status_ptr (set f.array_status i (status_of out.1))
                    f.array_status)
                same;
        same_processed = p;
      }

  filled_next :
      (n i : ℕ) (row : Row L.Float) (ms : List (Option (Row L.Float))) (f f2 f' : Fetching L.Float)
      (sr : SqlReturn) (k : ℕ)
      → f2.res.fields_nr ≡ f.res.fields_nr
      → Taken i (row_base f.res.fields_nr row) f.stmt f f2
      → Fetched n (suc i) ms f2 f' sr k
      → Fetched (suc n) i (some row ∷ ms) f f' sr k
  unfolding filled
  filled_next n i row ms f f2 f' sr k q t h = record {
    valid = h.valid;
    left = h.left;
    returned = h.returned;
    counted = omega (arith, h.counted);
    stmts = h.stmts ∙ λ j. record ((filled (q j) (suc i) (rows_before n ms) (t.filled_stmt j)).0) {
      diags =
          (answer n (suc i) ms).1
          ++ (filled (q j) (suc i) (rows_before n ms) (t.filled_stmt j)).0.diags;
    };
    statuses =
        h.statuses
        ∙ (λ j.
            at_pointer ird.desc_array_status_ptr
              (write_at (suc i) (filled (q j) (suc i) (rows_before n ms) (t.filled_stmt j)).1
                (t.status j))
              (t.status j))
        ∙ at_pointer_twice ird.desc_array_status_ptr
            (write_at (suc i) (filled f.res.fields_nr (suc i) (rows_before n ms) _).1) _ _;
    processed = h.processed ∙ t.same_processed;
  }

  fetch_next : Fetching L.Float → Fetching L.Float × SqlReturn
  fetch_next f = fetch_next_row L names true_text false_text memory ard ird f

  abbrev pub fetch_more : ℕ → ℕ → Fetching L.Float → Fetching L.Float × SqlReturn × ℕ
  fetch_more n i f = fetch_rows L names true_text false_text memory ard ird n i f

  -- The loop goes on behind a row that was fetched.
  fetch_rows-success :
      (n i : ℕ) (f : Fetching L.Float)
      → (fetch_row f.res).1 ≡ sql_success
      → fetch_more (suc n) i f ≡ fetch_more n (suc i) (taken i (fetch_next f).0)
  unfolding fetch_next fetch_rows fetch_next_row taken
  fetch_rows-success n i f e = rw (fetch_rows, e) refl

  fetch_rows-no_data :
      (n i : ℕ) (f : Fetching L.Float)
      → (fetch_row f.res).1 ≡ sql_no_data
      → fetch_more (suc n) i f ≡ ((fetch_next f).0, if i == 0 then sql_no_data else sql_success, i)
  unfolding fetch_next fetch_rows fetch_next_row
  fetch_rows-no_data n i f e = rw (fetch_rows, e) refl

  fetch_rows-error :
      (n i : ℕ) (f : Fetching L.Float)
      → (fetch_row f.res).1 ≡ sql_error
      → fetch_more (suc n) i f ≡ ((fetch_next f).0, sql_error, i)
  unfolding fetch_next fetch_rows fetch_next_row
  fetch_rows-error n i f e = rw (fetch_rows, e) refl

  -- Nothing is filled.
  nothing :
      (n i : ℕ) (ms : List (Option (Row L.Float))) (f : Fetching L.Float) (res : Res L.Float)
      → rows_before n ms ≡ []
      → IsValid res
      → remaining res ≡ rest n ms
      → Fetched n i ms f
          (record f {
            res = res;
            stmt = record (f.stmt) { diags = (answer n i ms).1 ++ f.stmt.diags };
          })
          (answer n i ms).0
          i
  unfolding filled
  nothing n i ms f res e v l = record {
    valid = v;
    left = l;
    returned = refl;
    counted = rw e (omega arith);
    stmts = rw e refl;
    statuses = rw e (sym (at_pointer_same _ _));
    processed = refl;
  }

  reads :
      (f : Fetching L.Float)
      → IsValid f.res
      → (ms : List (Option (Row L.Float))) → remaining f.res ≡ ms
      → Reads ms (fetch_row f.res)
  reads f v ms e = subst (λ m. Reads m (fetch_row f.res)) e (fetch_row-Reads f.res v)

  pub fetch_rows-Fetched :
      (n i : ℕ) (ms : List (Option (Row L.Float))) (f : Fetching L.Float)
      → IsValid f.res
      → remaining f.res ≡ ms
      → Fetched n i ms f (fetch_more n i f).0 (fetch_more n i f).1 (fetch_more n i f).2
  unfolding fetch_rows fetch_next
  fetch_rows-Fetched zero i ms f v e = nothing zero i ms f f.res refl v e
  fetch_rows-Fetched (suc n) i [] f v e =
      let (valid, sr, diags, left) = reads f v [] e in
      subst (λ r. Fetched (suc n) i [] f r.0 r.1 r.2) (sym (fetch_rows-no_data n i f sr))
        (subst
          (λ d. Fetched (suc n) i [] f (moved f d) (if i == 0 then sql_no_data else sql_success) i)
          (sym diags) (nothing (suc n) i [] f (fetch_row f.res).0 refl valid left))
  fetch_rows-Fetched (suc n) i (none ∷ ms) f v e =
      let (valid, sr, diags, left) = reads f v (none ∷ ms) e in
      subst (λ r. Fetched (suc n) i (none ∷ ms) f r.0 r.1 r.2) (sym (fetch_rows-error n i f sr))
        (subst (λ d. Fetched (suc n) i (none ∷ ms) f (moved f d) sql_error i) (sym diags)
          (nothing (suc n) i (none ∷ ms) f (fetch_row f.res).0 refl valid left))
  fetch_rows-Fetched (suc n) i (some row ∷ ms) f v e =
      let (valid, sr, diags, left, at) = reads f v (some row ∷ ms) e in
      let f2 = taken i (moved f []) in
      let same = take_row-res i (moved f []) in
      let base =
        tsdb_base-current (fetch_row f.res).0 row at
        ∙ ap (λ k. row_base k row) (fetch_row-fields f.res) in
      let step =
        fetch_rows-success n i f sr ∙ ap (λ d. fetch_more n (suc i) (taken i (moved f d))) diags in
      subst (λ r. Fetched (suc n) i (some row ∷ ms) f r.0 r.1 r.2) (sym step)
        (filled_next n i row ms f f2 _ _ _ (ap (λ r. r.fields_nr) same ∙ fetch_row-fields f.res)
          (subst (λ b. Taken i b f.stmt f f2) base (take_row-Taken i f))
          (fetch_rows-Fetched n (suc i) ms f2 (subst IsValid (sym same) valid)
            (ap remaining same ∙ left)))
