-- ===== src/Params/Batches/Columns/Joined.antt =====
-- src/core/stmt.c: the loop over the columns, one after another.
use taos_connector_odbc.Prelude.{
  ℕ, ◌+◌, ◌<◌, ◌==◌, Bool, true, List, [], ◌∷◌, ◌++◌, ◌≡◌, refl, sym, ◌∙◌, inl, inr, Bool-cases,
  arith, ==_iff,
}
use mathlib.Core.Path.{subst}
use mathlib.Core.List.{append_assoc, append-nil}
use taos_connector_odbc.Params.Batches.Rows.{Bind, Column}
use taos_connector_odbc.Params.Batches.Rows.Converted.{Converts}
use taos_connector_odbc.Params.Batches.Columns.{
  Exec, Answers, Prepared, ready, left, prepare_col, next, no_bind, prepare_cols,
}
use taos_connector_odbc.Params.Batches.Columns.Ready.{
  Valued, Bad, HoldAll, Fine, Batched, Outcome, prepare_col-Outcome,
}

Bad_one : (c : Valued) (cs : List Valued) (i_row : ℕ) → Bad (c ∷ []) i_row → Bad (c ∷ cs) i_row
Bad_one c cs i_row (inl h) = inl h
Bad_one c cs i_row (inr h) = absurd h

-- A column and those behind it.
join :
    (offset : ℕ) (done : List Valued) (c : Valued) (cs : List Valued) (e e' : Exec) (r : Prepared)
    → Batched offset done (c ∷ []) e e'
    → Outcome offset (done ++ (c ∷ [])) cs e' r
    → Outcome offset done (c ∷ cs) e r
join offset done c cs e e' (ready e'') b o = record {
  fine = o.fine;
  some_row = o.some_row;
  within = omega (arith, b.within, o.within);
  holds =
      subst (λ vs. HoldAll offset vs e''.binds e''.nr_batch_size) (append_assoc done (c ∷ []) cs)
        o.holds;
  stopped = λ h. elim (Bool-cases (e''.nr_batch_size == e'.nr_batch_size)) [
    | inl same ↦
        let eq = (==_iff e''.nr_batch_size e'.nr_batch_size).0 same in
        let (bad, err) = b.stopped (omega (arith, eq)) in
        (
          Bad_one c cs (offset + e''.nr_batch_size)
              (subst (λ k. Bad (c ∷ []) (offset + k)) (sym eq) bad),
          o.finished eq ∙ err,
        )
    | inr other ↦
        let (bad, err) =
          o.stopped (ground (arith, ==_iff e''.nr_batch_size e'.nr_batch_size, o.within)) in
        (inr bad, err)
  ];
  finished = λ h.
      o.finished (omega (arith, b.within, o.within, h))
      ∙ b.finished (omega (arith, b.within, o.within, h));
  same_sent = o.same_sent ∙ b.same_sent;
  same_processed = o.same_processed ∙ b.same_processed;
  same_subtbl = o.same_subtbl ∙ b.same_subtbl;
}
join offset done c cs e e' (left e'' sr) b (bad, returns, sent, processed) =
    (inr bad, returns, sent ∙ b.same_sent, processed ∙ b.same_processed)

next-Outcome :
    (offset : ℕ) (done : List Valued) (c : Valued) (cs : List Valued) (e : Exec) (r : Prepared)
    (f : Exec → Prepared)
    → Outcome offset done (c ∷ []) e r
    → ((e' : Exec)
        → Batched offset done (c ∷ []) e e'
        → Outcome offset (done ++ (c ∷ [])) cs e' (f e'))
    → Outcome offset done (c ∷ cs) e (next r f)
unfolding next
next-Outcome offset done c cs e (ready e') f b rest =
    join offset done c cs e e' (f e') b (rest e' b)
next-Outcome offset done c cs e (left e' sr) f (bad, returns, sent, processed) rest =
    (Bad_one c cs offset bad, returns, sent, processed)

-- What the columns and the code around them have to be for the conversion to be the columns' own.
abbrev pub Supported : Answers → Bool → List Valued → Type 0
Supported ans strict [] = Unit {0}
Supported ans strict (c ∷ cs) =
    (ans.init c.column ≡ true) × Converts strict c.column c.value × Supported ans strict cs

abbrev pub columns : List Valued → List Column
columns [] = []
columns (c ∷ cs) = c.column ∷ columns cs

pub prepare_cols-Outcome :
    (ans : Answers) (strict : Bool) (offset : ℕ)
    → ((n : ℕ) → ans.memory n ≡ true)
    → (cs done : List Valued) (bs : List Bind) (e : Exec) → Supported ans strict cs
    → Fine offset e
    → 0 < e.nr_batch_size
    → HoldAll offset done e.binds e.nr_batch_size
    → Outcome offset done cs e (prepare_cols ans strict (columns cs) bs e)
unfolding prepare_cols
prepare_cols-Outcome ans strict offset memory [] done bs e sup fine some_row holds = record {
  fine = fine;
  some_row = some_row;
  within = omega arith;
  holds = subst (λ vs. HoldAll offset vs e.binds e.nr_batch_size) (sym (append-nil done)) holds;
  stopped = λ h. absurd (omega arith);
  finished = λ h. refl;
  same_sent = refl;
  same_processed = refl;
  same_subtbl = refl;
}
prepare_cols-Outcome ans strict offset memory (c ∷ cs) done [] e (known, conv, sup) fine some_row
      holds =
    next-Outcome offset done c cs e (prepare_col ans strict c.column no_bind e)
      (prepare_cols ans strict (columns cs) [])
      (prepare_col-Outcome ans strict offset done c no_bind e known (memory e.nr_batch_size) conv
        fine some_row holds)
      (λ e' b.
        prepare_cols-Outcome ans strict offset memory cs (done ++ (c ∷ [])) [] e' sup b.fine
          b.some_row b.holds)
prepare_cols-Outcome ans strict offset memory (c ∷ cs) done (bind ∷ bs) e (known, conv, sup) fine
      some_row holds =
    next-Outcome offset done c cs e (prepare_col ans strict c.column bind e)
      (prepare_cols ans strict (columns cs) bs)
      (prepare_col-Outcome ans strict offset done c bind e known (memory e.nr_batch_size) conv fine
        some_row holds)
      (λ e' b.
        prepare_cols-Outcome ans strict offset memory cs (done ++ (c ∷ [])) bs e' sup b.fine
          b.some_row b.holds)
