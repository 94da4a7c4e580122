-- ===== src/Params/Batches/Loop/Begun.antt =====
-- src/core/stmt.c: a batch behind the loop over its columns.
use taos_connector_odbc.Prelude.{
  ℕ, ◌+◌, ◌-◌, ◌%◌, min, ◌≤◌, ◌<◌, ◌==◌, if◌then◌else◌, Bool, true, false, Option, none, some, List,
  [], ◌∷◌, ◌++◌, All, ◌≡◌, refl, sym, ap, ◌∙◌, ◌⊎◌, inl, inr, Bool-cases, arith, ==_iff,
}
use mathlib.Core.Path.{subst}
use taos_connector_odbc.Odbc.{Text, SqlReturn, sql_success, sql_success_with_info, sql_error}
use taos_connector_odbc.Params.Batches.Rows.{Rows}
use taos_connector_odbc.Params.Batches.Columns.{
  Batch, Exec, Answers, Prepared, ready, left, next, prepare_subtbl, prepare_cols,
}
use taos_connector_odbc.Params.Batches.Columns.Ready.{Valued, Bad, HoldAll, Fine, Outcome}
use taos_connector_odbc.Params.Batches.Columns.Joined.{Supported, columns, prepare_cols-Outcome}
use taos_connector_odbc.Params.Batches.Columns.Named.{
  AllNamed, SameTable, Start, Started, prepare_subtbl-Started,
}
use taos_connector_odbc.Params.Batches.Loop.{
  batch_size, start_batch, prepare_batch, bound_batch, int16_max,
}

-- The batches follow one another from row `from` to row `to`, each with at least one row and no
-- more than INT16_MAX.
abbrev pub Covers : ℕ → List Batch → ℕ → Type 0
Covers from [] to = from ≡ to
Covers from (b ∷ bs) to =
    (b.offset ≡ from) × (0 < b.num) × (b.num ≤ int16_max) × Covers (from + b.num) bs to

-- The batch's arrays are the values of its rows, which name its sub table.
abbrev pub Right : Answers → List Valued → Batch → Type 0
Right ans cs b = HoldAll b.offset cs b.binds b.num × SameTable ans.names b.offset b.num b.subtbl

-- The client takes every batch, the columns are supported, and there is memory.
pub record Served (ans : Answers) (strict : Bool) (cs : List Valued) : Type 0 where
  pub memory : (n : ℕ) → ans.memory n ≡ true
  pub supported : Supported ans strict cs
  pub named : AllNamed ans.rebind ans.names
  pub bound : (b : Batch) → ans.bind_param b ≡ true
  pub executed : (b : Batch) → ans.execute b ≡ true

-- The rows executed are those before the first bad one, `last`, or all `n`.
pub record Executed (ans : Answers) (cs : List Valued) (n last : ℕ) (out : Exec × SqlReturn)
    : Type 0 where
  pub within : last ≤ n
  pub covers : Covers 0 out.0.sent last
  pub right : All (Right ans cs) out.0.sent
  pub counted : out.0.processed ≡ last
  pub all_rows : last ≡ n → out.1 ≡ sql_success
  pub bad_row : last < n → Bad cs last
  pub no_row : last < n → last ≡ 0 → out.1 ≡ sql_error
  pub some_rows : last < n → 0 < last → (out.1 ≡ sql_success_with_info) ⊎ (out.1 ≡ sql_success)

pub Covers-append :
    (bs : List Batch) (b : Batch) (from to : ℕ)
    → Covers from bs to
    → b.offset ≡ to
    → 0 < b.num
    → b.num ≤ int16_max
    → Covers from (bs ++ (b ∷ [])) (to + b.num)
Covers-append [] b from to c at some_row room =
    (omega (arith, c, at), some_row, room, omega (arith, c))
Covers-append (b' ∷ bs) b from to (e, p, r, c) at some_row room =
    (e, p, r, Covers-append bs b (from + b'.num) to c at some_row room)

pub All-append :
    (P : Batch → Type 0) (bs : List Batch) (b : Batch) → All P bs → P b → All P (bs ++ (b ∷ []))
All-append P [] b h q = (q, tt)
All-append P (b' ∷ bs) b h q = (h.0, All-append P bs b h.1 q)

-- The state at the head of the loop.
pub record Head (ans : Answers) (cs : List Valued) (i_row : ℕ) (e : Exec) : Type 0 where
  pub signed : e.rows.p.unsigned ≡ false
  pub covers : Covers 0 e.sent i_row
  pub right : All (Right ans cs) e.sent
  pub counted : e.processed ≡ i_row

-- A batch behind _stmt_prepare_col and _stmt_prepare_col_data of all parameters.
pub record Full (ans : Answers) (cs : List Valued) (n i_row : ℕ) (e e' : Exec) : Type 0 where
  pub fine : Fine i_row e'
  pub some_row : 0 < e'.nr_batch_size
  pub room : e'.nr_batch_size ≤ int16_max
  pub inside : i_row + e'.nr_batch_size ≤ n
  pub right : Right ans cs (bound_batch e')
  pub failed :
      e'.rows.row_err ≡ true → (i_row + e'.nr_batch_size < n) × Bad cs (i_row + e'.nr_batch_size)
  pub same_sent : e'.sent ≡ e.sent
  pub same_processed : e'.processed ≡ e.processed

pub SameTable-less :
    (names : Option (ℕ → Option Text)) (offset m m' : ℕ) (t t' : Option Text)
    → m' ≤ m
    → t' ≡ t
    → SameTable names offset m t
    → SameTable names offset m' t'
SameTable-less none offset m m' t t' h e same = e ∙ same
SameTable-less (some names) offset m m' t t' h e (u, is_u, rows) =
    (u, e ∙ is_u, λ j less. rows j (omega arith))

abbrev pub Begun : Answers → List Valued → ℕ → ℕ → Exec → Prepared → Type 0
Begun ans cs n i_row e (ready e') = Full ans cs n i_row e e'
Begun ans cs n i_row e (left e' sr) =
    Bad cs i_row
    × (sr ≡ (if i_row == 0 then sql_error else sql_success))
    × (e'.sent ≡ e.sent)
    × (e'.processed ≡ e.processed)

-- Up to INT_MAX rows.
abbrev pub Countable : ℕ → Type 0
Countable n = n < 2147483648

batch_size-min : (n i_row : ℕ) → Countable n → batch_size (n - i_row) ≡ min (n - i_row) int16_max
unfolding batch_size
batch_size-min n i_row h =
    let same : (n - i_row) % 4294967296 ≡ n - i_row = omega (arith, h) in
    rw same (ground (arith, h))

pub filled :
    (ans : Answers) (cs : List Valued) (n i_row : ℕ) (e e1 : Exec) (r : Prepared)
    → Countable n
    → i_row < n
    → Start ans i_row (start_batch n i_row e) e1
    → Outcome i_row [] cs e1 r
    → Begun ans cs n i_row e r
unfolding start_batch bound_batch
filled ans cs n i_row e e1 (left e' sr) small h s (bad, returns, sent, processed) =
    (bad, returns, sent ∙ s.same_sent, processed ∙ s.same_processed)
filled ans cs n i_row e e1 (ready e') small h s b =
    let size = batch_size-min n i_row small in
    record {
      fine = b.fine;
      some_row = b.some_row;
      room = omega (arith, size, b.within, s.within);
      inside = omega (arith, size, b.within, s.within);
      right =
          subst
            (λ k.
              HoldAll k cs e'.binds e'.nr_batch_size
              × SameTable ans.names k e'.nr_batch_size e'.subtbl)
            (sym b.fine.at_offset)
            (
              b.holds,
              SameTable-less ans.names i_row e1.nr_batch_size e'.nr_batch_size e1.subtbl e'.subtbl
                  b.within b.same_subtbl s.same_table,
            );
      failed = λ err. elim (Bool-cases (e'.nr_batch_size == e1.nr_batch_size)) [
        | inl same ↦ absurd (
            clash (
              sym err
              ∙ b.finished ((==_iff e'.nr_batch_size e1.nr_batch_size).0 same)
              ∙ ap (λ (r : Rows). r.row_err) s.same_rows))
        | inr other ↦
            let fewer : e'.nr_batch_size < e1.nr_batch_size =
              ground (arith, ==_iff e'.nr_batch_size e1.nr_batch_size, b.within) in
            (omega (arith, size, fewer, s.within), (b.stopped fewer).0)
      ];
      same_sent = b.same_sent ∙ s.same_sent;
      same_processed = b.same_processed ∙ s.same_processed;
    }
  where
    clash : true ≡ false → ⊥
    clash q = cc

pub next-Begun :
    (ans : Answers) (cs : List Valued) (n i_row : ℕ) (e : Exec) (r : Prepared) (f : Exec → Prepared)
    → Countable n
    → i_row < n
    → Started ans i_row (start_batch n i_row e) r
    → ((e1 : Exec) → Start ans i_row (start_batch n i_row e) e1 → Outcome i_row [] cs e1 (f e1))
    → Begun ans cs n i_row e (next r f)
unfolding next
next-Begun ans cs n i_row e (ready e1) f small h s rest =
    filled ans cs n i_row e e1 (f e1) small h s (rest e1 s)
next-Begun ans cs n i_row e (left e1 sr) f small h s rest = absurd s

pub Fine-Start :
    (ans : Answers) (n i_row : ℕ) (e e1 : Exec)
    → e.rows.p.unsigned ≡ false
    → Start ans i_row (start_batch n i_row e) e1
    → Fine i_row e1
unfolding start_batch
Fine-Start ans n i_row e e1 signed s = record {
  signed = ap (λ (r : Rows). r.p.unsigned) s.same_rows ∙ signed;
  at_offset = ap (λ (r : Rows). r.p.i_batch_offset) s.same_rows;
}

pub empty-Start :
    (ans : Answers) (n i_row m : ℕ) (e e1 : Exec)
    → Start ans i_row (start_batch n i_row e) e1
    → HoldAll i_row [] e1.binds m
unfolding start_batch
empty-Start ans n i_row m e e1 s = subst (λ bs. HoldAll i_row [] bs m) (sym s.same_binds) tt

pub prepare_batch-Begun :
    (ans : Answers) (strict : Bool) (cs : List Valued) (n i_row : ℕ) (e : Exec)
    → Served ans strict cs
    → Countable n
    → i_row < n
    → e.rows.p.unsigned ≡ false
    → Begun ans cs n i_row e (prepare_batch ans strict (columns cs) n i_row e)
unfolding prepare_batch start_batch
prepare_batch-Begun ans strict cs n i_row e served small h signed =
    next-Begun ans cs n i_row e (prepare_subtbl ans (start_batch n i_row e))
      (prepare_cols ans strict (columns cs) e.binds) small h
      (prepare_subtbl-Started ans i_row (start_batch n i_row e) served.named refl refl
        (omega (arith, batch_size-min n i_row small)))
      (λ e1 s.
        prepare_cols-Outcome ans strict i_row served.memory cs [] e.binds e1 served.supported
          (Fine-Start ans n i_row e e1 signed s) s.some_row
          (empty-Start ans n i_row e1.nr_batch_size e e1 s))
