-- ===== src/Params/Batches/Rows/Settled.antt =====
-- src/core/stmt.c: the loop over the rows of a column, against the values of the rows.
use taos_connector_odbc.Prelude.{
  ℕ, zero, suc, ◌+◌, ◌≤◌, ◌<◌, if◌then◌else◌, Bool, true, false, Option, none, some, ◌≡◌, refl, sym,
  ◌∙◌, Bool-cases, inl, inr, arith, ◌==◌, ==_iff,
}
use mathlib.Core.Path.{subst}
use taos_connector_odbc.Odbc.{SqlReturn, sql_success, sql_success_with_info, sql_no_data, sql_error}
use taos_connector_odbc.Params.State.{ParamState, index}
use taos_connector_odbc.Params.Batches.Rows.{
  Bind, Column, Rows, unload, passes, put_status, cell, at_row, settle, one_row, col_rows,
  ParamStatus, sql_param_unused,
}
use taos_connector_odbc.Params.Batches.Rows.Converted.{
  entry, Usable, Kept, Answered, Converts, Steady, Holds,
}

put_status-p : (i : ℕ) (st : ParamStatus) (s : Rows) → (put_status i st s).p ≡ s.p
unfolding put_status
put_status-p i st s = ground arith

put_status-row_err : (i : ℕ) (st : ParamStatus) (s : Rows) → (put_status i st s).row_err ≡ s.row_err
unfolding put_status
put_status-row_err i st s = ground arith

settle-passes :
    (strict : Bool) (i_row : ℕ) (s : Rows) (out : ParamState × SqlReturn)
    → passes strict out.1 ≡ true
    → ((settle strict i_row s out).1 ≡ true)
      × ((settle strict i_row s out).0.p ≡ out.0)
      × ((settle strict i_row s out).0.row_err ≡ s.row_err)
unfolding settle put_status
settle-passes strict i_row s (p, sr) h =
    rw h (refl, put_status-p i_row _ _, put_status-row_err i_row _ _)

settle-fails :
    (strict : Bool) (i_row : ℕ) (s : Rows) (out : ParamState × SqlReturn)
    → out.1 ≡ sql_error
    → ((settle strict i_row s out).1 ≡ false)
      × ((settle strict i_row s out).0.p ≡ out.0)
      × ((settle strict i_row s out).0.row_err ≡ true)
unfolding settle
settle-fails strict i_row s (p, sql_error) h =
    (refl, put_status-p i_row _ _, put_status-row_err i_row _ _)
settle-fails strict i_row s (p, sql_success) h = absurd (cc)
settle-fails strict i_row s (p, sql_success_with_info) h = absurd (cc)
settle-fails strict i_row s (p, sql_no_data) h = absurd (cc)

module _ (offset n : ℕ) where
  usable : (i : ℕ) (p : ParamState) → i < n → Steady offset n p → Usable (at_row (offset + i) p)
  usable i p h st = record {
    signed = st.signed;
    column = st.column;
    flagged = st.flagged;
    from = omega (arith, st.at_offset);
    in_flags = omega (arith, st.at_offset, st.flags_room);
    in_elements = omega (arith, st.at_offset, st.elements_room);
  }

  Kept-Steady :
      (i : ℕ) {p p' : ParamState}
      → Steady offset n p
      → Kept (at_row (offset + i) p) p'
      → Steady offset n p'
  Kept-Steady i st k = record {
    signed = k.signed;
    column = k.column;
    flagged = k.flagged;
    at_offset = k.offset ∙ st.at_offset;
    flags_room = omega (arith, k.flags_length, st.flags_room);
    elements_room = omega (arith, k.elements_length, st.elements_room);
  }

module _ (value : ℕ → Option (Option ℕ)) (offset : ℕ) where
  Kept-Holds :
      (i : ℕ) (p : ParamState) {p' : ParamState}
      → p.i_batch_offset ≡ offset
      → Kept (at_row (offset + i) p) p'
      → Holds value offset (unload p) i
      → Holds value offset (unload p') i
  Kept-Holds i p e k holds j h =
      let (v, a, b) = holds j h in (v, a, k.others j (λ same. omega (arith, same, e)) ∙ b)

  Holds-suc :
      (i : ℕ) (b : Bind) {v : Option ℕ}
      → Holds value offset b i
      → value (offset + i) ≡ some v
      → entry b i ≡ some v
      → Holds value offset b (suc i)
  Holds-suc i b {v} holds e f j h = elim (Bool-cases (j == i)) [
    | inl same ↦
        subst (λ k. (w : Option ℕ) × (value (offset + k) ≡ some w) × (entry b k ≡ some w))
          (sym ((==_iff j i).0 same)) (v, e, f)
    | inr other ↦ holds j (ground (arith, ==_iff j i))
  ]

  -- The outcome of a row, by whether it stands for a value.
  abbrev Done : ℕ → ℕ → Rows → Rows × Bool → Option (Option ℕ) → Type 0
  Done n i s out (some v) =
      (out.1 ≡ true)
      × Steady offset n out.0.p
      × Holds value offset (unload out.0.p) (suc i)
      × (out.0.row_err ≡ s.row_err)
  Done n i s out none =
      (out.1 ≡ false)
      × Steady offset n out.0.p
      × Holds value offset (unload out.0.p) i
      × (out.0.row_err ≡ true)

  settle-Done :
      (strict : Bool) (n i : ℕ) (s s' : Rows) (p : ParamState) (out : ParamState × SqlReturn)
      (answer : Option (Option ℕ))
      → value (offset + i) ≡ answer
      → p.i_batch_offset ≡ offset
      → s'.row_err ≡ s.row_err
      → Steady offset n p
      → Holds value offset (unload p) i
      → Kept (at_row (offset + i) p) out.0
      → Answered strict (at_row (offset + i) p) out answer
      → Done n i s (settle strict (offset + i) s' out) answer
  settle-Done strict n i s s' p out none e at same st holds k fails = (
    h.0,
    subst (λ q. Steady offset n q) (sym h.1) (Kept-Steady offset n i st k),
    subst (λ q. Holds value offset (unload q) i) (sym h.1) (Kept-Holds i p at k holds),
    h.2,
  )
    where
      h :
          ((settle strict (offset + i) s' out).1 ≡ false)
          × ((settle strict (offset + i) s' out).0.p ≡ out.0)
          × ((settle strict (offset + i) s' out).0.row_err ≡ true)
      h = settle-fails strict (offset + i) s' out fails
  settle-Done strict n i s s' p out (some v) e at same st holds k (go, got) = (
    h.0,
    subst (λ q. Steady offset n q) (sym h.1) (Kept-Steady offset n i st k),
    subst (λ q. Holds value offset (unload q) (suc i)) (sym h.1)
        (Holds-suc i (unload out.0) (Kept-Holds i p at k holds) e
          (subst (λ j. entry (unload out.0) j ≡ some v) at_index got)),
    h.2 ∙ same,
  )
    where
      h :
          ((settle strict (offset + i) s' out).1 ≡ true)
          × ((settle strict (offset + i) s' out).0.p ≡ out.0)
          × ((settle strict (offset + i) s' out).0.row_err ≡ s'.row_err)
      h = settle-passes strict (offset + i) s' out go

      at_index : index (at_row (offset + i) p) ≡ i
      at_index = omega (arith, at)

  one_row-Done :
      (strict : Bool) (col : Column) (n i : ℕ) (s : Rows)
      → Converts strict col value
      → i < n
      → Steady offset n s.p
      → Holds value offset (unload s.p) i
      → Done n i s (one_row strict col (offset + i) s) (value (offset + i))
  unfolding one_row
  one_row-Done strict col n i s converts h st holds =
      let p' = put_status (offset + i) sql_param_unused s in
      let (k, answer) = converts (at_row (offset + i) s.p) (usable offset n i s.p h st) in
      settle-Done strict n i s p' s.p (cell col (at_row (offset + i) s.p)) (value (offset + i)) refl
        st.at_offset (put_status-row_err _ _ s) st holds k answer

  -- The outcome of the loop from row `i` on, `todo` rows at most.
  pub record Loop (n i todo : ℕ) (s : Rows) (out : Rows × ℕ) : Type 0 where
    pub from : i ≤ out.1
    pub within : out.1 ≤ i + todo
    pub steady : Steady offset n out.0.p
    pub holds : Holds value offset (unload out.0.p) out.1
    pub stopped : out.1 < i + todo → (value (offset + out.1) ≡ none) × (out.0.row_err ≡ true)
    pub finished : out.1 ≡ i + todo → out.0.row_err ≡ s.row_err

  Loop-step :
      (n todo i : ℕ) (s : Rows) (r : Rows × Bool) (rest : Rows × ℕ) (a : Option (Option ℕ))
      → value (offset + i) ≡ a
      → Done n i s r a
      → (Steady offset n r.0.p
          → Holds value offset (unload r.0.p) (suc i)
          → Loop n (suc i) todo r.0 rest)
      → Loop n i (suc todo) s (if r.1 then rest else (r.0, i))
  Loop-step n todo i s (s', more) rest none e (stop, st, holds, err) next = rw stop (record {
    from = omega arith;
    within = omega arith;
    steady = st;
    holds = holds;
    stopped = λ f. (e, err);
    finished = λ f. absurd (omega arith);
  })
  Loop-step n todo i s (s', more) rest (some v) e (go, st, holds, err) next = rw go (
      let l = next st holds in
      record {
        from = omega (arith, l.from);
        within = omega (arith, l.within);
        steady = l.steady;
        holds = l.holds;
        stopped = λ f. l.stopped (omega arith);
        finished = λ f. l.finished (omega arith) ∙ err;
      })

  pub col_rows-Loop :
      (strict : Bool) (col : Column) (n todo i : ℕ) (s : Rows)
      → Converts strict col value
      → i + todo ≤ n
      → Steady offset n s.p
      → Holds value offset (unload s.p) i
      → Loop n i todo s (col_rows strict col todo i s)
  unfolding col_rows
  col_rows-Loop strict col n zero i s converts h st holds = record {
    from = omega arith;
    within = omega arith;
    steady = st;
    holds = holds;
    stopped = λ f. absurd (omega arith);
    finished = λ f. refl;
  }
  col_rows-Loop strict col n (suc todo) i s converts h st holds =
      Loop-step n todo i s r (col_rows strict col todo (suc i) r.0) (value (offset + i)) refl
        (subst (λ k. Done n i s (one_row strict col (k + i) s) (value (offset + i)))
          (sym st.at_offset) (one_row-Done strict col n i s converts (omega arith) st holds))
        (λ st' holds'.
          col_rows-Loop strict col n todo (suc i) r.0 converts (omega arith) st' holds')
    where
      r : Rows × Bool
      r = one_row strict col (s.p.i_batch_offset + i) s
