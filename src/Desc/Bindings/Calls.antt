-- ===== src/Desc/Bindings/Calls.antt =====
-- src/core/desc.c: SQLBindCol on a descriptor, on every branch.
use taos_connector_odbc.Prelude.{
  ℕ, zero, suc, ◌+◌, ◌-◌, ◌*◌, ◌/◌, ◌≤◌, ◌<◌, ◌==◌, leb, ltb, if◌then◌else◌, Bool, true, false,
  Option, none, some, List, [], ◌∷◌, ◌++◌, replicate, ◌≡◌, refl, inl, inr, ◌∙◌, arith,
  length-append, length-replicate, Bool-cases, ◌||◌, ◌⊎◌,
}
use taos_connector_odbc.Odbc.{SqlReturn, sql_success, sql_error, SqlState, hy000, hy001}
use taos_connector_odbc.Desc.{
  DescRecord, Descriptor, BindCol, Bound, zeroed, set_record, set_count, descriptor_keep,
  target_record, with_pointers, raise_count, fill_record, bind_kept, unbound, descriptor_bind_col,
}
use taos_connector_odbc.Desc.Bindings.{
  binding, IsValid, Updated, Updated-set_record, Updated-set_record_only, unbind_col-Updated,
  col_record-in, get_elem?-grown, set_record_shape,
}

abbrev grown : Descriptor → ℕ → Descriptor
grown d nr =
    let cap = (nr + 15) / 16 * 16 in
    record d { records = d.records ++ replicate (cap - d.cap) zeroed; cap = cap }

binding-grown : (d : Descriptor) (nr j : ℕ) → binding (grown d nr) j ≡ binding d j
unfolding binding
binding-grown d nr zero = refl
binding-grown d nr (suc i) = get_elem?-grown d.records ((nr + 15) / 16 * 16 - d.cap) i

grown-IsValid : (d : Descriptor) (nr : ℕ) → IsValid d → d.cap < nr → IsValid (grown d nr)
grown-IsValid d nr v h = record {
  sized = omega (
    arith,
    v.sized,
    length-append d.records (replicate more zeroed),
    length-replicate more zeroed,
  );
  counted = omega (arith, v.counted);
  beyond = λ j past. binding-grown d nr j ∙ v.beyond j past;
}
  where
    more : ℕ
    more = (nr + 15) / 16 * 16 - d.cap

-- `descriptor_keep` may only fail by a failing realloc, and then it changes nothing.
pub keep_cases :
    (realloc_ok : Bool) (d : Descriptor) (nr : ℕ)
    → ((leb nr d.cap ≡ true) × (descriptor_keep realloc_ok d nr ≡ (d, sql_success, [])))
      ⊎ ((leb nr d.cap ≡ false)
          × (realloc_ok ≡ true)
          × (descriptor_keep realloc_ok d nr ≡ (grown d nr, sql_success, [])))
      ⊎ ((leb nr d.cap ≡ false)
          × (realloc_ok ≡ false)
          × (descriptor_keep realloc_ok d nr ≡ (d, sql_error, hy001 ∷ [])))
unfolding descriptor_keep
keep_cases realloc_ok d nr = ground arith

spec_record : BindCol → Option DescRecord → Option DescRecord
spec_record a none = none
spec_record a (some r) = some (with_pointers a r)

-- What SQLBindCol should leave bound to its column.
pub spec : Bool → Descriptor → BindCol → Option DescRecord
unfolding spec_record
spec realloc_ok d a =
    if a.target_value_ptr == 0
    then none
    else if leb a.column_number d.cap || realloc_ok
    then spec_record a (target_record a.target_type a.buffer_length)
    else binding d a.column_number

filled-Updated :
    (d : Descriptor) (a : BindCol) (o : Option DescRecord)
    → IsValid d
    → 1 ≤ a.column_number
    → a.column_number ≤ d.cap
    → Updated d a.column_number (spec_record a o) (fill_record d a o).descriptor
unfolding fill_record spec_record
filled-Updated d a none v h k =
    Updated-set_record_only d a.column_number zeroed v h k (λ j past. ground (arith, v.beyond j))
filled-Updated d a (some r) v h k = elim (Bool-cases (ltb d.header.desc_count a.column_number)) [
  | inl above ↦ rw (raise_above above) (
      Updated-set_record d a.column_number a.column_number (with_pointers a r) v h k k
        (λ j past. ground (arith, v.beyond j)))
  | inr old ↦ rw (raise_old old) (
      Updated-set_record_only d a.column_number (with_pointers a r) v h k
        (λ j past. ground (arith, v.beyond j)))
]
  where
    written : Descriptor
    written = set_record d a.column_number (with_pointers a r)

    same : written.header ≡ d.header
    same = (set_record_shape d a.column_number (with_pointers a r)).2

    raise_above :
        ltb d.header.desc_count a.column_number ≡ true
        → raise_count a.column_number written ≡ set_count a.column_number written
    raise_above above = unfold raise_count in rw (same, above) refl

    raise_old :
        ltb d.header.desc_count a.column_number ≡ false
        → raise_count a.column_number written ≡ written
    raise_old old = unfold raise_count in rw (same, old) refl

supported : Option DescRecord → SqlReturn × List SqlState
supported none = (sql_error, hy000 ∷ [])
supported (some r) = (sql_success, [])

-- The return code and the diagnostics of SQLBindCol.
pub answer : Bool → Descriptor → BindCol → SqlReturn × List SqlState
unfolding supported
answer realloc_ok d a =
    if a.target_value_ptr == 0
    then (sql_success, [])
    else if leb a.column_number d.cap || realloc_ok
    then supported (target_record a.target_type a.buffer_length)
    else (sql_error, hy001 ∷ [])

-- A call that returns, updates one binding and answers as specified.
pub record Answers (d : Descriptor) (col : ℕ) (new : Option DescRecord)
    (code : SqlReturn × List SqlState) (out : Option Bound) : Type 0 where
  pub result : Bound
  pub defined : out ≡ some result
  pub updated : Updated d col new result.descriptor
  pub answered : (result.returns, result.diags) ≡ code

filled-Answers :
    (d : Descriptor) (a : BindCol) (diags : List SqlState)
    → IsValid d
    → 1 ≤ a.column_number
    → a.column_number ≤ d.cap
    → Answers d a.column_number
        (spec_record a (target_record a.target_type a.buffer_length))
        (supported (target_record a.target_type a.buffer_length))
        (bind_kept (d, sql_success, diags) a)
unfolding bind_kept
filled-Answers d a diags v h k =
    let (r, e) = col_record-in d a.column_number h (omega (arith, v.sized)) in
    let o = target_record a.target_type a.buffer_length in
    record {
      result = fill_record d a o;
      defined = rw (e, bind_kept) refl;
      updated = filled-Updated d a o v h k;
      answered = code o;
    }
  where
    code :
        (o : Option DescRecord)
        → ((fill_record d a o).returns, (fill_record d a o).diags) ≡ supported o
    code none = unfold fill_record supported in refl
    code (some r) = unfold fill_record supported in refl

-- The same, seen from the descriptor before it grew.
Answers-grown :
    (d : Descriptor) (nr col : ℕ) (new : Option DescRecord) (code : SqlReturn × List SqlState)
    (out : Option Bound)
    → Answers (grown d nr) col new code out
    → Answers d col new code out
Answers-grown d nr col new code out t = record {
  result = t.result;
  defined = t.defined;
  updated = record {
    valid = t.updated.valid;
    bindings = λ j. ground (arith, t.updated.bindings j, binding-grown d nr j);
  };
  answered = t.answered;
}

-- SQLBindCol of a column from 1 on reads and writes no record out of range, keeps the descriptor
-- valid, and changes the binding of that column alone: a NULL buffer removes it, a supported type
-- sets it, an unsupported type removes it with HY000, and a failing realloc leaves it with HY001.
pub bind_col-Answers :
    (realloc_ok : Bool) (d : Descriptor) (a : BindCol)
    → IsValid d
    → 1 ≤ a.column_number
    → Answers d a.column_number
        (spec realloc_ok d a)
        (answer realloc_ok d a)
        (descriptor_bind_col realloc_ok d a)
unfolding descriptor_bind_col spec answer
bind_col-Answers realloc_ok d a v h = elim (Bool-cases (a.target_value_ptr == 0)) [
  | inl null ↦
      let (d', e, u) = unbind_col-Updated d a.column_number v h in
      rw null (
        rw (e, unbound)
          (record {
            result = record { descriptor = d'; returns = sql_success; diags = [] };
            defined = refl;
            updated = u;
            answered = refl;
          }))
  | inr given ↦ rw given (elim (keep_cases realloc_ok d a.column_number) [
    | inl fits ↦ rw (fits.1, fits.0) (filled-Answers d a [] v h (ground (arith, fits.0)))
    | inr (inl grows) ↦
        rw (grows.2, grows.0, grows.1)
          (Answers-grown d a.column_number a.column_number _ _ _ (
            filled-Answers (grown d a.column_number) a []
              (grown-IsValid d a.column_number v (ground (arith, grows.0))) h (omega arith)))
    | inr (inr fails) ↦
        rw (fails.2, fails.0, fails.1)
          (record {
            result = record { descriptor = d; returns = sql_error; diags = hy001 ∷ [] };
            defined = unfold bind_kept in refl;
            updated = record { valid = v; bindings = λ j. ground arith };
            answered = refl;
          })
  ])
]
