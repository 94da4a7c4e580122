-- ===== src/Params/Batches/Loop/Executed.antt =====
-- src/core/stmt.c: which rows of an array of parameters _stmt_execute_with_param_state executes.
use taos_connector_odbc.Prelude.{
  ℕ, zero, suc, ◌+◌, ◌-◌, ◌≤◌, ◌<◌, ◌==◌, leb, not, Bool, true, false, ◌&&◌, List, [], ◌∷◌, ◌++◌,
  All, ◌≡◌, refl, sym, ◌∙◌, ◌⊎◌, inl, inr, Bool-cases, arith,
}
use mathlib.Core.Path.{subst}
use taos_connector_odbc.Odbc.{SqlReturn, sql_success, sql_success_with_info}
use taos_connector_odbc.Params.Batches.Columns.{Exec, Answers, Prepared, ready, left}
use taos_connector_odbc.Params.Batches.Columns.Ready.{Valued}
use taos_connector_odbc.Params.Batches.Columns.Joined.{columns}
use taos_connector_odbc.Params.Batches.Loop.{
  prepare_batch, bound_batch, count_processed, send_batch, after_batch, batches, Paramset,
  execute_with_param_state,
}
use taos_connector_odbc.Params.Batches.Loop.Begun.{
  Covers, Right, Served, Executed, Covers-append, All-append, Head, Full, Begun, Countable,
  prepare_batch-Begun,
}

stopped_left :
    (ans : Answers) (cs : List Valued) (n i_row : ℕ) (e e' : Exec) (sr : SqlReturn)
    → i_row < n
    → Head ans cs i_row e
    → Begun ans cs n i_row e (left e' sr)
    → Executed ans cs n i_row (e', sr)
stopped_left ans cs n i_row e e' sr h head (bad, returns, sent, processed) = record {
  within = omega arith;
  covers = subst (λ bs. Covers 0 bs i_row) (sym sent) head.covers;
  right = subst (λ bs. All (Right ans cs) bs) (sym sent) head.right;
  counted = processed ∙ head.counted;
  all_rows = λ same. absurd (omega arith);
  bad_row = λ less. bad;
  no_row = λ less first. ground (arith, returns, first);
  some_rows = λ less later. ground (arith, returns, later);
}

-- The sent batches behind a full one.
module _ (ans : Answers) (cs : List Valued) (n i_row : ℕ) (e e' : Exec) (head : Head ans cs i_row e)
    (full : Full ans cs n i_row e e') where
  next_row : ℕ
  next_row = i_row + e'.nr_batch_size

  sent-Covers : Covers 0 (e'.sent ++ (bound_batch e' ∷ [])) next_row
  unfolding bound_batch next_row
  sent-Covers =
      Covers-append e'.sent (bound_batch e') 0 i_row
        (subst (λ bs. Covers 0 bs i_row) (sym full.same_sent) head.covers) full.fine.at_offset
        full.some_row full.room

  sent-Right : All (Right ans cs) (e'.sent ++ (bound_batch e' ∷ []))
  sent-Right =
      All-append (Right ans cs) e'.sent (bound_batch e')
        (subst (λ bs. All (Right ans cs) bs) (sym full.same_sent) head.right) full.right

  now_processed : e'.processed + e'.nr_batch_size ≡ next_row
  unfolding next_row
  now_processed = omega (arith, full.same_processed, head.counted)

  -- The client's calls, where `again` goes on from the next row.
  sent_batch :
      (strict : Bool) (again : ℕ → Exec → Exec × SqlReturn)
      → Served ans strict cs
      → ((e'' : Exec)
          → Head ans cs next_row e''
          → (last : ℕ) × Executed ans cs n last (again next_row e''))
      → (last : ℕ) × Executed ans cs n last (after_batch ans again (ready e'))
  unfolding after_batch count_processed send_batch bound_batch next_row
  sent_batch strict again served rest =
      rw (served.bound _, served.executed _)
        (elim (Bool-cases e'.rows.row_err) [
          | inl err ↦ rw err (next_row, stop err)
          | inr fine ↦ rw fine (
              subst
                (λ k.
                  (last : ℕ) × Executed ans cs n last (again (k + e'.nr_batch_size) (state false)))
                (sym full.fine.at_offset) (rest (state false) going))
        ])
    where
      state : Bool → Exec
      state err = record e' {
        rows = record (e'.rows) { row_err = err };
        processed = e'.processed + e'.nr_batch_size;
        sent = e'.sent ++ (bound_batch e' ∷ []);
      }

      stop :
          e'.rows.row_err ≡ true
          → Executed ans cs n (i_row + e'.nr_batch_size) (state true, sql_success_with_info)
      stop err = record {
        within = full.inside;
        covers = sent-Covers;
        right = sent-Right;
        counted = now_processed;
        all_rows = λ same. absurd (omega (arith, (full.failed err).0));
        bad_row = λ less. (full.failed err).1;
        no_row = λ less first. absurd (omega (arith, full.some_row));
        some_rows = λ less later. inl refl;
      }

      going : Head ans cs (i_row + e'.nr_batch_size) (state false)
      going = record {
        signed = full.fine.signed;
        covers = sent-Covers;
        right = sent-Right;
        counted = now_processed;
      }

all_done :
    (ans : Answers) (cs : List Valued) (n i_row : ℕ) (e : Exec)
    → i_row ≡ n
    → Head ans cs i_row e
    → Executed ans cs n i_row (e, sql_success)
all_done ans cs n i_row e h head = record {
  within = omega arith;
  covers = head.covers;
  right = head.right;
  counted = head.counted;
  all_rows = λ same. refl;
  bad_row = λ less. absurd (omega arith);
  no_row = λ less first. absurd (omega arith);
  some_rows = λ less later. inr refl;
}

after-Executed :
    (ans : Answers) (strict : Bool) (cs : List Valued) (n i_row : ℕ) (e : Exec) (r : Prepared)
    (again : ℕ → Exec → Exec × SqlReturn)
    → Served ans strict cs
    → i_row < n
    → Head ans cs i_row e
    → Begun ans cs n i_row e r
    → ((m : ℕ) (e'' : Exec)
        → 0 < m
        → i_row + m ≤ n
        → Head ans cs (i_row + m) e''
        → (last : ℕ) × Executed ans cs n last (again (i_row + m) e''))
    → (last : ℕ) × Executed ans cs n last (after_batch ans again r)
unfolding after_batch next_row
after-Executed ans strict cs n i_row e (left e' sr) again served h head b rest =
    (i_row, stopped_left ans cs n i_row e e' sr h head b)
after-Executed ans strict cs n i_row e (ready e') again served h head full rest =
    sent_batch ans cs n i_row e e' head full strict again served
      (λ e'' head'. rest e'.nr_batch_size e'' full.some_row full.inside head')

batches-Executed :
    (fuel : ℕ) (ans : Answers) (strict : Bool) (cs : List Valued) (n i_row : ℕ) (e : Exec)
    → Served ans strict cs
    → Countable n
    → n - i_row < fuel
    → i_row ≤ n
    → Head ans cs i_row e
    → (last : ℕ) × Executed ans cs n last (batches fuel ans strict (columns cs) n i_row e)
unfolding batches
batches-Executed zero ans strict cs n i_row e served small enough h head = absurd (omega arith)
batches-Executed (suc fuel) ans strict cs n i_row e served small enough h head =
    elim (Bool-cases (leb n i_row)) [
      | inl done ↦ rw done (i_row, all_done ans cs n i_row e (ground arith) head)
      | inr more ↦
          let less : i_row < n = ground arith in
          rw more (
            after-Executed ans strict cs n i_row e (prepare_batch ans strict (columns cs) n i_row e)
              (batches fuel ans strict (columns cs) n) served less head
              (prepare_batch-Begun ans strict cs n i_row e served small less head.signed)
              (λ m e'' some_row inside head'.
                batches-Executed fuel ans strict cs n (i_row + m) e'' served small (omega arith)
                  inside head'))
    ]

-- Rows of parameters bound by column.
abbrev pub by_column_set : ℕ → Bool → Paramset
by_column_set n not_insert = record { size = n; by_column = true; not_insert = not_insert }

not_refused : (n : ℕ) (b : Bool) → (n ≡ 1) ⊎ (b ≡ false) → (not (n == 1) && b) ≡ false
not_refused n b (inl one) = rw one refl
not_refused n b (inr takes) = ground arith

-- SQLExecute with an array of `n` rows, less than 2 ^ 31, of parameters bound by column (_stmt_execute_with_param_state),
-- where the statement inserts or there is one row, with columns that convert their rows to values,
-- a client that takes every batch, memory, a sub table's name in every row where the statement
-- needs one, and the flag for unsigned numbers not raised: the batches executed follow one another
-- from the first row on without a gap, each with 1 to INT16_MAX rows of one sub table, and hold the
-- rows' values; they end behind the last row, or before the first that has no value in some
-- column; the number of their rows is counted. The call returns SQL_SUCCESS if they have all rows,
-- SQL_ERROR if they have none of some, and otherwise SQL_SUCCESS_WITH_INFO or SQL_SUCCESS.
pub execute_with_param_state-Executed :
    (ans : Answers) (strict : Bool) (cs : List Valued) (n : ℕ) (not_insert : Bool) (e : Exec)
    → Served ans strict cs
    → Countable n
    → e.rows.p.unsigned ≡ false
    → (n ≡ 1) ⊎ (not_insert ≡ false)
    → (last : ℕ) × Executed ans cs n last
        (execute_with_param_state ans true strict (by_column_set n not_insert) (columns cs) e)
unfolding execute_with_param_state
execute_with_param_state-Executed ans strict cs n not_insert e served small signed takes =
    rw (not_refused n not_insert takes) (
      batches-Executed (suc n) ans strict cs n 0 (record e { processed = 0; sent = [] }) served
        small (omega arith) (omega arith)
        (record { signed = signed; covers = refl; right = tt; counted = refl }))
