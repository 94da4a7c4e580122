-- ===== src/Params/Batches/Columns/Named.antt =====
-- src/core/stmt.c: the rows of a batch name the same sub table.
use taos_connector_odbc.Prelude.{
  ℕ, zero, suc, ◌+◌, ◌≤◌, ◌<◌, ◌==◌, if◌then◌else◌, Bool, true, false, not, Option, none, some, ◌≡◌,
  refl, sym, ap, ◌∙◌, Bool-cases, inl, inr, arith, ==_iff,
}
use mathlib.Core.Path.{subst}
use taos_connector_odbc.Odbc.{Text, sql_error}
use taos_connector_odbc.HashTable.{text_eq}
use taos_connector_odbc.HashTable.Nodes.{text_eq_sound}
use taos_connector_odbc.Params.Batches.Columns.{
  Exec, Answers, Prepared, ready, left, same_names, prepare_col_subtbl, prepare_subtbl, stop_empty,
}

-- Every row names a sub table, where the statement needs one, and the client knows it.
abbrev pub AllNamed : (Text → Bool) → Option (ℕ → Option Text) → Type 0
AllNamed rebind none = Unit {0}
AllNamed rebind (some names) = (i_row : ℕ) → (t : Text) × (names i_row ≡ some t) × (rebind t ≡ true)

-- The first `m` rows from `offset` on name the table `t`, where the statement needs one.
abbrev pub SameTable : Option (ℕ → Option Text) → ℕ → ℕ → Option Text → Type 0
SameTable none offset m t = t ≡ none
SameTable (some names) offset m t =
    (u : Text) × (t ≡ some u) × ((j : ℕ) → j < m → names (offset + j) ≡ some u)

-- The outcome of the loop over the names.
abbrev Run : (ℕ → Option Text) → Text → ℕ → ℕ → ℕ → Option ℕ → Type 0
Run names t offset i todo none = ⊥
Run names t offset i todo (some m) =
    (i ≤ m) × (m ≤ i + todo) × ((j : ℕ) → j < m → names (offset + j) ≡ some t)

Named_suc :
    (names : ℕ → Option Text) (t u : Text) (offset i : ℕ)
    → names (offset + i) ≡ some u
    → t ≡ u
    → ((j : ℕ) → j < i → names (offset + j) ≡ some t)
    → (j : ℕ) → j < suc i
    → names (offset + j) ≡ some t
Named_suc names t u offset i e same before j h = elim (Bool-cases (j == i)) [
  | inl at ↦
      subst (λ k. names (offset + k) ≡ some t) (sym ((==_iff j i).0 at)) (e ∙ ap some (sym same))
  | inr other ↦ before j (ground (arith, ==_iff j i))
]

Run-less :
    (names : ℕ → Option Text) (t : Text) (offset i todo : ℕ) (r : Option ℕ)
    → Run names t offset (suc i) todo r
    → Run names t offset i (suc todo) r
Run-less names t offset i todo none h = h
Run-less names t offset i todo (some m) (a, b, c) = (omega arith, omega arith, c)

same_names-Run :
    (names : ℕ → Option Text) (t : Text) (todo offset i : ℕ)
    → ((i_row : ℕ) → (u : Text) × (names i_row ≡ some u))
    → ((j : ℕ) → j < i → names (offset + j) ≡ some t)
    → Run names t offset i todo (same_names names t todo offset i)
unfolding same_names
same_names-Run names t zero offset i named before = (omega arith, omega arith, before)
same_names-Run names t (suc todo) offset i named before =
    let (u, e) = named (offset + i) in
    let rest = same_names names t todo offset (suc i) in
    subst
      (λ o.
        Run names t offset i (suc todo)
          (elim o [ none ↦ none | some v ↦ if text_eq t v then rest else some i ]))
      (sym e)
      (elim (Bool-cases (text_eq t u)) [
        | inl same ↦ rw same (
            Run-less names t offset i todo rest (
              same_names-Run names t todo offset (suc i) named
                (Named_suc names t u offset i e (text_eq_sound t u same) before)))
        | inr other ↦ rw other (omega arith, omega arith, before)
      ])

-- The batch behind the parameter that names the sub table.
pub record Start (ans : Answers) (offset : ℕ) (e e' : Exec) : Type 0 where
  pub some_row : 0 < e'.nr_batch_size
  pub within : e'.nr_batch_size ≤ e.nr_batch_size
  pub same_table : SameTable ans.names offset e'.nr_batch_size e'.subtbl
  pub same_rows : e'.rows ≡ e.rows
  pub same_binds : e'.binds ≡ e.binds
  pub same_sent : e'.sent ≡ e.sent
  pub same_processed : e'.processed ≡ e.processed

abbrev pub Started : Answers → ℕ → Exec → Prepared → Type 0
Started ans offset e (ready e') = Start ans offset e e'
Started ans offset e (left e' sr) = ⊥

abbrev Found : (ℕ → Option Text) → ℕ → ℕ → Option (Text × ℕ) → Type 0
Found names offset nr none = ⊥
Found names offset nr (some (t, m)) =
    (0 < m) × (m ≤ nr) × ((j : ℕ) → j < m → names (offset + j) ≡ some t)

found :
    (names : ℕ → Option Text) (t : Text) (offset more : ℕ) (r : Option ℕ)
    → Run names t offset 1 more r
    → Found names offset (suc more) (elim r [ none ↦ none | some n ↦ some (t, n) ])
found names t offset more none h = h
found names t offset more (some m) (a, b, c) = (omega arith, omega arith, c)

bound_name : (Text → Bool) → (ℕ → Option Text) → ℕ → ℕ → Text → Option (Text × ℕ)
bound_name rebind names offset more t =
    if not (rebind t)
    then none
    else elim (same_names names t more offset 1) [ none ↦ none | some n ↦ some (t, n) ]

prepare_col_subtbl-Found :
    (rebind : Text → Bool) (names : ℕ → Option Text) (offset nr : ℕ)
    → 0 < nr
    → AllNamed rebind (some names)
    → Found names offset nr (prepare_col_subtbl rebind names offset nr)
unfolding prepare_col_subtbl bound_name
prepare_col_subtbl-Found rebind names offset zero h named = absurd (omega arith)
prepare_col_subtbl-Found rebind names offset (suc more) h named =
    let (t, e, known) = named offset in
    subst
      (λ o.
        Found names offset (suc more)
          (elim o [ none ↦ none | some u ↦ bound_name rebind names offset more u ]))
      (sym e)
      (rw known (
        found names t offset more (same_names names t more offset 1) (
          same_names-Run names t more offset 1 (λ i. let (u, a, b) = named i in (u, a))
            (λ j less. subst (λ k. names k ≡ some t) (omega (arith, less)) e))))

positive : (m : ℕ) → 0 < m → (m == 0) ≡ false
positive m h = ground arith

Found-Started :
    (ans : Answers) (names : ℕ → Option Text) (offset : ℕ) (e : Exec) (r : Option (Text × ℕ))
    → ans.names ≡ some names
    → Found names offset e.nr_batch_size r
    → Started ans offset e (elim r [
      | none ↦ left e sql_error
      | some (t, n) ↦ stop_empty (record e { subtbl = some t; nr_batch_size = n })
    ])
unfolding stop_empty
Found-Started ans names offset e none eq h = h
Found-Started ans names offset e (some (t, m)) eq (a, b, c) = rw (positive m a) (record {
  some_row = a;
  within = b;
  same_table = subst (λ o. SameTable o offset m (some t)) (sym eq) (t, refl, c);
  same_rows = refl;
  same_binds = refl;
  same_sent = refl;
  same_processed = refl;
})

with_names :
    (ans : Answers) (offset : ℕ) (e : Exec) (o : Option (ℕ → Option Text))
    → AllNamed ans.rebind o
    → e.rows.p.i_batch_offset ≡ offset
    → e.subtbl ≡ none
    → 0 < e.nr_batch_size
    → let ans' = record ans { names = o } in Started ans' offset e (prepare_subtbl ans' e)
unfolding prepare_subtbl
with_names ans offset e none named at no_table some_row = record {
  some_row = some_row;
  within = omega arith;
  same_table = no_table;
  same_rows = refl;
  same_binds = refl;
  same_sent = refl;
  same_processed = refl;
}
with_names ans offset e (some names) named at no_table some_row =
    let ans' = record ans { names = some names } in
    Found-Started ans' names offset e
      (prepare_col_subtbl ans.rebind names e.rows.p.i_batch_offset e.nr_batch_size) refl
      (subst
        (λ k.
          Found names offset e.nr_batch_size
            (prepare_col_subtbl ans.rebind names k e.nr_batch_size))
        (sym at) (prepare_col_subtbl-Found ans.rebind names offset e.nr_batch_size some_row named))

pub prepare_subtbl-Started :
    (ans : Answers) (offset : ℕ) (e : Exec)
    → AllNamed ans.rebind ans.names
    → e.rows.p.i_batch_offset ≡ offset
    → e.subtbl ≡ none
    → 0 < e.nr_batch_size
    → Started ans offset e (prepare_subtbl ans e)
prepare_subtbl-Started ans offset e = with_names ans offset e ans.names
