-- ===== src/Params/Batches/Columns/Ready.antt =====
-- src/core/stmt.c: what the loop over the columns leaves of a batch of rows.
use taos_connector_odbc.Prelude.{
  ℕ, ◌+◌, ◌-◌, ◌≤◌, ◌<◌, ◌==◌, if◌then◌else◌, Bool, true, false, Option, none, List, [], ◌∷◌, ◌++◌,
  length, replicate, length-append, length-replicate, ◌≡◌, refl, ap, ◌∙◌, ◌⊎◌, inl, inr, Bool-cases,
  arith, ==_iff,
}
use mathlib.Core.Path.{subst}
use taos_connector_odbc.Odbc.{sql_success, sql_error}
use taos_connector_odbc.Params.Batches.Rows.{
  Bind, Column, Rows, keep, array_adjust, load, unload, col_rows,
}
use taos_connector_odbc.Params.Batches.Rows.Settled.{Loop, col_rows-Loop}
use taos_connector_odbc.Params.Batches.Rows.Converted.{Converts, Steady, Holds}
use taos_connector_odbc.Params.Batches.Columns.{
  Exec, Answers, Prepared, ready, left, convert_col, stop_empty, prepare_col,
}

-- A column with what its rows stand for.
pub record Valued : Type 0 where
  pub column : Column
  pub value : ℕ → Option (Option ℕ)

-- A row that no batch can have.
abbrev pub Bad : List Valued → ℕ → Type 0
Bad [] i_row = ⊥
Bad (c ∷ cs) i_row = (c.value i_row ≡ none) ⊎ Bad cs i_row

-- The first `m` rows of each column are the values.
abbrev pub HoldAll : ℕ → List Valued → List Bind → ℕ → Type 0
HoldAll offset [] [] m = Unit {0}
HoldAll offset (c ∷ cs) (b ∷ bs) m = Holds c.value offset b m × HoldAll offset cs bs m
HoldAll offset [] (b ∷ bs) m = ⊥
HoldAll offset (c ∷ cs) [] m = ⊥

pub HoldAll-less :
    (offset m m' : ℕ) (cs : List Valued) (bs : List Bind)
    → m' ≤ m
    → HoldAll offset cs bs m
    → HoldAll offset cs bs m'
HoldAll-less offset m m' [] [] h holds = tt
HoldAll-less offset m m' [] (b ∷ bs) h holds = holds
HoldAll-less offset m m' (c ∷ cs) [] h holds = holds
HoldAll-less offset m m' (c ∷ cs) (b ∷ bs) h holds =
    (λ j less. holds.0 j (omega arith), HoldAll-less offset m m' cs bs h holds.1)

pub HoldAll-append :
    (offset m : ℕ) (cs : List Valued) (bs : List Bind) (c : Valued) (b : Bind)
    → HoldAll offset cs bs m
    → Holds c.value offset b m
    → HoldAll offset (cs ++ (c ∷ [])) (bs ++ (b ∷ [])) m
HoldAll-append offset m [] [] c b holds h = (h, tt)
HoldAll-append offset m [] (b' ∷ bs) c b holds h = absurd holds
HoldAll-append offset m (c' ∷ cs) [] c b holds h = absurd holds
HoldAll-append offset m (c' ∷ cs) (b' ∷ bs) c b holds h =
    (holds.0, HoldAll-append offset m cs bs c b holds.1 h)

pub length-keep {ℓ} : {A : Type ℓ} (a : A) (n : ℕ) (xs : List A) → n ≤ length (keep a n xs)
unfolding keep
length-keep a n xs =
    omega
      (arith, length-append xs (replicate (n - length xs) a), length-replicate (n - length xs) a)

-- Between two columns of the batch from row `offset` on.
pub record Fine (offset : ℕ) (e : Exec) : Type 0 where
  pub signed : e.rows.p.unsigned ≡ false
  pub at_offset : e.rows.p.i_batch_offset ≡ offset

-- The batch behind the columns `cs`, where those before them are `done`.
pub record Batched (offset : ℕ) (done cs : List Valued) (e e' : Exec) : Type 0 where
  pub fine : Fine offset e'
  pub some_row : 0 < e'.nr_batch_size
  pub within : e'.nr_batch_size ≤ e.nr_batch_size
  pub holds : HoldAll offset (done ++ cs) e'.binds e'.nr_batch_size
  pub stopped :
      e'.nr_batch_size < e.nr_batch_size
      → Bad cs (offset + e'.nr_batch_size) × (e'.rows.row_err ≡ true)
  pub finished : e'.nr_batch_size ≡ e.nr_batch_size → e'.rows.row_err ≡ e.rows.row_err
  pub same_sent : e'.sent ≡ e.sent
  pub same_processed : e'.processed ≡ e.processed
  pub same_subtbl : e'.subtbl ≡ e.subtbl

-- The outcome; without a row the call ends.
abbrev pub Outcome : ℕ → List Valued → List Valued → Exec → Prepared → Type 0
Outcome offset done cs e (ready e') = Batched offset done cs e e'
Outcome offset done cs e (left e' sr) =
    Bad cs offset
    × (sr ≡ (if offset == 0 then sql_error else sql_success))
    × (e'.sent ≡ e.sent)
    × (e'.processed ≡ e.processed)

-- The state that a column's loop leaves.
pub after_loop : Exec → Rows × ℕ → Exec
after_loop e out = record e {
  rows = out.0;
  nr_batch_size = out.1;
  binds = e.binds ++ (unload out.0.p ∷ []);
}

pub stop_empty-Outcome :
    (offset : ℕ) (done : List Valued) (c : Valued) (e : Exec) (start : Rows) (out : Rows × ℕ)
    → Loop c.value offset e.nr_batch_size 0 e.nr_batch_size start out
    → start.row_err ≡ e.rows.row_err
    → 0 < e.nr_batch_size
    → HoldAll offset done e.binds e.nr_batch_size
    → Outcome offset done (c ∷ []) e (stop_empty (after_loop e out))
unfolding stop_empty after_loop
stop_empty-Outcome offset done c e start out l same some_row holds =
    elim (Bool-cases (out.1 == 0)) [
      | inl none_left ↦
          let zero_rows = (==_iff out.1 0).0 none_left in
          rw none_left (
            inl (
                subst (λ k. c.value k ≡ none) (omega (arith, zero_rows))
                  (l.stopped (omega (arith, zero_rows))).0),
            ap (λ (k : ℕ). if k == 0 then sql_error else sql_success) l.steady.at_offset,
            refl,
            refl,
          )
      | inr rows_left ↦ rw rows_left (record {
        fine = record { signed = l.steady.signed; at_offset = l.steady.at_offset };
        some_row = ground (arith, ==_iff out.1 0);
        within = omega (arith, l.within);
        holds =
            HoldAll-append offset out.1 done e.binds c (unload out.0.p)
              (HoldAll-less offset e.nr_batch_size out.1 done e.binds (omega (arith, l.within))
                holds)
              l.holds;
        stopped = λ h. let (bad, err) = l.stopped (omega arith) in (inl bad, err);
        finished = λ h. l.finished (omega arith) ∙ same;
        same_sent = refl;
        same_processed = refl;
        same_subtbl = refl;
      })
    ]

pub prepare_col-Outcome :
    (ans : Answers) (strict : Bool) (offset : ℕ) (done : List Valued) (c : Valued) (b : Bind)
    (e : Exec)
    → ans.init c.column ≡ true
    → ans.memory e.nr_batch_size ≡ true
    → Converts strict c.column c.value
    → Fine offset e
    → 0 < e.nr_batch_size
    → HoldAll offset done e.binds e.nr_batch_size
    → Outcome offset done (c ∷ []) e (prepare_col ans strict c.column b e)
unfolding prepare_col convert_col after_loop
prepare_col-Outcome ans strict offset done c b e known memory converts fine some_row holds =
    rw (known, memory)
      (elim (Bool-cases (e.rows.p.i_batch_offset == 0)) [
        | inl h ↦ rw h outcome
        | inr h ↦ rw h outcome
      ])
  where
    start : Rows
    start = record (e.rows) { p = load (array_adjust e.nr_batch_size b) e.rows.p }

    steady : Steady offset e.nr_batch_size start.p
    steady = record {
      signed = fine.signed;
      column = refl;
      flagged = refl;
      at_offset = fine.at_offset;
      flags_room = length-keep false e.nr_batch_size b.flags;
      elements_room = length-keep 0 e.nr_batch_size b.elements;
    }

    out : Rows × ℕ
    out = col_rows strict c.column e.nr_batch_size 0 start

    outcome : Outcome offset done (c ∷ []) e (stop_empty (after_loop e out))
    outcome =
        stop_empty-Outcome offset done c e start out
          (col_rows-Loop c.value offset strict c.column e.nr_batch_size e.nr_batch_size 0 start
            converts (omega arith) steady (λ j h. absurd (omega arith)))
          refl some_row holds
