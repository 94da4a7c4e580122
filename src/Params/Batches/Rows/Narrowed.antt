-- ===== src/Params/Batches/Rows/Narrowed.antt =====
-- src/core/stmt.c: the columns that 64-bit integers are narrowed for convert their rows.
use taos_connector_odbc.Prelude.{
  ℕ, suc, ◌<◌, if◌then◌else◌, not, Bool, true, false, Option, none, some, List, length, get_elem?,
  set, ◌≡◌, ◌≢◌, refl, sym, ap, ◌∙◌, Bool-cases, inl, inr, length-set, get_elem?-set_self,
  get_elem?-set_ne,
}
use mathlib.Core.Path.{subst}
use taos_connector_odbc.Prelude.Int.{ℤ, fits_signed}
use taos_connector_odbc.Odbc.{SqlReturn, sql_success, s22003}
use taos_connector_odbc.Params.State.{ParamState, SqlType, index, put_member, store, fail}
use taos_connector_odbc.Params.Numbers.{check_sbigint, conv_number, read_number}
use taos_connector_odbc.Params.Row.{param_check, param_conv, conv_param_data, check_and_conv}
use taos_connector_odbc.Params.Row.Sbigint.{read_back, checked, pair_of}
use taos_connector_odbc.Params.Batches.Rows.{Column, param_get_sbigint, unload, cell, or_empty}
use taos_connector_odbc.Params.Batches.Rows.Converted.{entry_of, Usable, Kept, Answered, Converts}

-- A column for SQL_C_SBIGINT with a checker and a converter for `w` bits.
unfoldable pub bigint_column : ℕ → SqlType → (ℤ → ℕ) → (ℕ → Bool) → (ℕ → ℤ) → Column
unfolding param_get_sbigint
bigint_column w t cast null_data numbers = record {
  get = param_get_sbigint null_data numbers;
  meta = pair_of w t cast;
}

-- What its rows stand for: NULL, or the number as the column stores it, if it is in range.
unfoldable pub bigint_value : ℕ → (ℤ → ℕ) → (ℕ → Bool) → (ℕ → ℤ) → ℕ → Option (Option ℕ)
bigint_value w cast null_data numbers i_row =
    if null_data i_row
    then some none
    else if fits_signed w (numbers i_row)
    then some (some (cast (numbers i_row)))
    else none

-- The arrays of `p'`, against those of `p`.
arrays-Kept :
    {p p' : ParamState} (flags : List Bool)
    → p'.unsigned ≡ false
    → p'.is_subtbl ≡ false
    → p'.i_batch_offset ≡ p.i_batch_offset
    → p'.is_null ≡ some flags
    → length flags ≡ length (unload p).flags
    → length p'.buffer ≡ length p.buffer
    → ((j : ℕ)
        → j ≢ index p
        → (get_elem? flags j ≡ get_elem? (unload p).flags j)
          × (get_elem? p'.buffer j ≡ get_elem? p.buffer j))
    → Kept p p'
arrays-Kept {p} {p'} flags signed table offset is_null same same' others = record {
  signed = signed;
  column = table;
  flagged = is_null ∙ ap (λ fs. some fs) (sym eq);
  offset = offset;
  flags_length = ap length eq ∙ same;
  elements_length = same';
  others = λ j ne.
      let (a, b) = others j ne in λ i. entry_of ((ap (λ fs. get_elem? fs j) eq ∙ a) i) (b i);
}
  where
    eq : or_empty p'.is_null ≡ flags
    eq = ap or_empty is_null

-- A state whose column has flags, which did not raise the flag for unsigned numbers.
normal : List Bool → ParamState → ParamState
normal flags p = record p { unsigned = false; is_subtbl = false; is_null = some flags }

-- The state that the converter is called in.
converting : SqlType → ℤ → ℕ → List Bool → ParamState → ParamState
converting t v k flags p = record p {
  unsigned = false;
  is_subtbl = false;
  sqlc_is_null = false;
  sqlc_i64 = v;
  sql_type = t;
  number = put_member (suc k) v p.number;
  is_null = some (set flags (index p) false);
}

check_refuses :
    (w : ℕ) (t : SqlType) (p : ParamState)
    → fits_signed w p.sqlc_i64 ≡ false
    → check_sbigint w t p ≡ fail s22003 p
unfolding check_sbigint
check_refuses w t p out = rw out refl

check_takes :
    (w : ℕ) (t : SqlType) (p : ParamState)
    → fits_signed w p.sqlc_i64 ≡ true
    → check_sbigint w t p ≡ (checked w t p, sql_success)
unfolding check_sbigint
check_takes w t p fits = rw fits refl

-- A row's number, taken from the application.
taken : ℤ → List Bool → ParamState → ParamState
taken v flags p = record p {
  unsigned = false;
  is_subtbl = false;
  sqlc_is_null = false;
  sqlc_i64 = v;
  is_null = some flags;
}

stored :
    (k : ℕ) (cast : ℤ → ℕ) (p : ParamState) (v : ℤ)
    → read_number (suc k) p ≡ v
    → fits_signed (suc k) v ≡ true
    → conv_number (suc k) cast p ≡ store (cast v) p
unfolding conv_number
stored k cast p v e fits =
    ap (λ u. if not (fits_signed (suc k) u) then fail s22003 p else store (cast u) p) e
    ∙ rw fits refl

module _ (k : ℕ) (t : SqlType) (cast : ℤ → ℕ) (null_data : ℕ → Bool) (numbers : ℕ → ℤ) where
  col : Column
  unfolding bigint_column
  col = bigint_column (suc k) t cast null_data numbers

  -- The outcome of a row.
  Right : ParamState → ParamState × SqlReturn → Option (Option ℕ) → Type 0
  Right p out answer = Kept p out.0 × Answered false p out answer

  fits-cell :
      (flags : List Bool) (p : ParamState)
      → null_data p.i_row ≡ false
      → fits_signed (suc k) (numbers p.i_row) ≡ true
      → cell col (normal flags p)
        ≡ store (cast (numbers p.i_row)) (converting t (numbers p.i_row) k flags p)
  unfolding normal cell col bigint_column pair_of check_and_conv param_check conv_param_data
      param_conv converting taken read_number
  fits-cell flags p there fits =
      let to_conv : cell col (normal flags p)
          ≡ conv_number (suc k) cast (converting t (numbers p.i_row) k flags p) =
        rw (there, check_takes (suc k) t (taken (numbers p.i_row) flags p) fits) refl in
      to_conv
      ∙ stored k cast (converting t (numbers p.i_row) k flags p) (numbers p.i_row)
          (read_back k p.number false (numbers p.i_row) refl fits) fits

  fits-Right :
      (flags : List Bool) (p : ParamState)
      → index p < length flags
      → index p < length p.buffer
      → let v = cast (numbers p.i_row) in
        Right (normal flags p) (store v (converting t (numbers p.i_row) k flags p)) (some (some v))
  unfolding normal converting Right
  fits-Right flags p in_flags in_elements = (
    arrays-Kept (set flags (index p) false) refl refl refl refl (length-set flags (index p) false)
        (length-set p.buffer (index p) (cast (numbers p.i_row)))
        (λ j ne. (
          get_elem?-set_ne flags (index p) j false (λ e. ne (sym e)),
          get_elem?-set_ne p.buffer (index p) j _ (λ e. ne (sym e)),
        )),
    (
      refl,
      λ i.
          entry_of (get_elem?-set_self flags (index p) false in_flags i)
            (get_elem?-set_self p.buffer (index p) (cast (numbers p.i_row)) in_elements i),
    ),
  )

  null-Right :
      (flags : List Bool) (p : ParamState)
      → index p < length flags
      → null_data p.i_row ≡ true
      → Right (normal flags p) (cell col (normal flags p)) (some none)
  unfolding Right normal cell col bigint_column pair_of check_and_conv param_check conv_param_data
  null-Right flags p in_flags null = rw null (
    arrays-Kept (set flags (index p) true) refl refl refl refl (length-set flags (index p) true)
        refl (λ j ne. (get_elem?-set_ne flags (index p) j true (λ e. ne (sym e)), refl)),
    (
      refl,
      ap (λ o. entry_of o (get_elem? p.buffer (index p)))
          (get_elem?-set_self flags (index p) true in_flags),
    ),
  )

  out_of_range-Right :
      (flags : List Bool) (p : ParamState)
      → null_data p.i_row ≡ false
      → fits_signed (suc k) (numbers p.i_row) ≡ false
      → Right (normal flags p) (cell col (normal flags p)) none
  unfolding Right normal cell col bigint_column pair_of check_and_conv param_check taken
  out_of_range-Right flags p there out =
      rw (there, check_refuses (suc k) t (taken (numbers p.i_row) flags p) out)
        (arrays-Kept flags refl refl refl refl refl refl (λ j ne. (refl, refl)), refl)

  normal-Right :
      (flags : List Bool) (p : ParamState)
      → index p < length flags
      → index p < length p.buffer
      → Right
          (normal flags p)
          (cell col (normal flags p))
          (bigint_value (suc k) cast null_data numbers p.i_row)
  unfolding bigint_value
  normal-Right flags p in_flags in_elements = elim (Bool-cases (null_data p.i_row)) [
    | inl null ↦ rw null (null-Right flags p in_flags null)
    | inr there ↦ rw there (elim (Bool-cases (fits_signed (suc k) (numbers p.i_row))) [
      | inl fits ↦ rw fits (
          subst (λ out. Right (normal flags p) out (some (some (cast (numbers p.i_row)))))
            (sym (fits-cell flags p there fits)) (fits-Right flags p in_flags in_elements))
      | inr out ↦ rw out (out_of_range-Right flags p there out)
    ])
  ]

  to_normal : (p : ParamState) → Usable p → p ≡ normal (unload p).flags p
  unfolding normal
  to_normal p u =
      λ i. record p { unsigned = u.signed i; is_subtbl = u.column i; is_null = u.flagged i }

  -- A column for SQL_C_SBIGINT converts its rows to these values.
  pub bigint_column-Converts :
      Converts false
        (bigint_column (suc k) t cast null_data numbers)
        (bigint_value (suc k) cast null_data numbers)
  unfolding Right col normal
  bigint_column-Converts p u =
      subst (λ q. Right q (cell col q) (bigint_value (suc k) cast null_data numbers q.i_row))
        (sym (to_normal p u)) (normal-Right (unload p).flags p u.in_flags u.in_elements)
