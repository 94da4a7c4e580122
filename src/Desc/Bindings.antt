-- ===== src/Desc/Bindings.antt =====
-- src/core/desc.c: a descriptor is a finite map from column numbers to bindings.
pub mod Calls
pub mod Clearing
use taos_connector_odbc.Prelude.{
  ℕ, zero, suc, ◌+◌, ◌-◌, ◌*◌, ◌/◌, ◌≤◌, ◌<◌, ◌==◌, leb, ltb, if◌then◌else◌, not, Bool, true, false,
  Option, none, some, List, [], ◌∷◌, ◌++◌, set, get_elem?, replicate, length, ◌≡◌, refl, sym, ap,
  ◌∙◌, arith, length-append, length-replicate, length-set, Bool-cases, Option-cases, ◌||◌, inl, inr,
}
use taos_connector_odbc.Odbc.{sql_success, sql_error, SqlState, hy000, hy001}
use taos_connector_odbc.Desc.{
  DescRecord, Descriptor, BindCol, Bound, zeroed, col_record, set_record, set_count, unbind_col,
  descriptor_keep, target_record, with_pointers, raise_count, fill_record, bind_kept, unbound,
  descriptor_bind_col,
}

-- A record counts as a binding while it is marked bound.
abbrev pub active : Option DescRecord → Option DescRecord
active none = none
active (some r) = if r.bound then some r else none

-- The binding of column `col`.
pub binding : Descriptor → ℕ → Option DescRecord
unfolding col_record
binding d col = active (col_record d col)

-- The records fill the capacity, and all bindings are of columns up to DESC_COUNT.
pub record IsValid (d : Descriptor) : Type 0 where
  pub sized : length d.records ≡ d.cap
  pub counted : d.header.desc_count ≤ d.cap
  pub beyond : (col : ℕ) → d.header.desc_count < col → binding d col ≡ none

get_elem?-set_if {ℓ} :
    {A : Type ℓ} (xs : List A) (i : ℕ) (v : A) (j : ℕ)
    → i < length xs
    → get_elem? (set xs i v) j ≡ (if i == j then some v else get_elem? xs j)
get_elem?-set_if [] i v j h = absurd (omega arith)
get_elem?-set_if (x ∷ xs) zero v zero h = refl
get_elem?-set_if (x ∷ xs) zero v (suc j) h = ground arith
get_elem?-set_if (x ∷ xs) (suc i) v zero h = ground arith
get_elem?-set_if (x ∷ xs) (suc i) v (suc j) h = ground (arith, get_elem?-set_if xs i v j)

get_elem?-zeroed : (k i : ℕ) → active (get_elem? (replicate k zeroed) i) ≡ none
get_elem?-zeroed zero i = refl
get_elem?-zeroed (suc k) zero = refl
get_elem?-zeroed (suc k) (suc i) = get_elem?-zeroed k i

get_elem?-grown :
    (rs : List DescRecord) (k i : ℕ)
    → active (get_elem? (rs ++ replicate k zeroed) i) ≡ active (get_elem? rs i)
get_elem?-grown [] k i = get_elem?-zeroed k i
get_elem?-grown (r ∷ rs) k zero = refl
get_elem?-grown (r ∷ rs) k (suc i) = get_elem?-grown rs k i

get_elem?-in {ℓ} :
    {A : Type ℓ} (xs : List A) (i : ℕ) → i < length xs → (x : A) × (get_elem? xs i ≡ some x)
get_elem?-in [] i h = absurd (omega arith)
get_elem?-in (x ∷ xs) zero h = (x, refl)
get_elem?-in (x ∷ xs) (suc i) h = get_elem?-in xs i (omega arith)

-- A column between 1 and the capacity has a record.
col_record-in :
    (d : Descriptor) (col : ℕ)
    → 1 ≤ col
    → col ≤ length d.records
    → (r : DescRecord) × (col_record d col ≡ some r)
unfolding col_record
col_record-in d zero h k = absurd (omega arith)
col_record-in d (suc i) h k = get_elem?-in d.records i k

-- A write to a record changes the binding of that column only.
binding-set_record :
    (d : Descriptor) (col : ℕ) (r : DescRecord) (j : ℕ)
    → 1 ≤ col
    → col ≤ length d.records
    → binding (set_record d col r) j ≡ (if col == j then active (some r) else binding d j)
unfolding binding set_record
binding-set_record d zero r j h k = absurd (omega arith)
binding-set_record d (suc i) r zero h k = ground arith
binding-set_record d (suc i) r (suc j) h k = ground (arith, get_elem?-set_if d.records i r j)

-- `d'` is valid, and differs from `d` in the binding of column `col`, which is `new`.
pub record Updated (d : Descriptor) (col : ℕ) (new : Option DescRecord) (d' : Descriptor)
    : Type 0 where
  pub valid : IsValid d'
  pub bindings : (j : ℕ) → binding d' j ≡ (if col == j then new else binding d j)

binding-set_count : (n : ℕ) (d : Descriptor) (j : ℕ) → binding (set_count n d) j ≡ binding d j
unfolding binding set_count
binding-set_count n d zero = refl
binding-set_count n d (suc i) = refl

-- A write to a record leaves the capacity and the count.
set_record_shape :
    (d : Descriptor) (col : ℕ) (r : DescRecord)
    → (length (set_record d col r).records ≡ length d.records)
      × ((set_record d col r).cap ≡ d.cap)
      × ((set_record d col r).header ≡ d.header)
unfolding set_record
set_record_shape d zero r = (refl, refl, refl)
set_record_shape d (suc i) r = (length-set d.records i r, refl, refl)

-- Writing a record and setting DESC_COUNT so that it covers the bindings.
Updated-set_record :
    (d : Descriptor) (col n : ℕ) (r : DescRecord)
    → IsValid d
    → 1 ≤ col
    → col ≤ d.cap
    → n ≤ d.cap
    → ((j : ℕ) → n < j → (if col == j then active (some r) else binding d j) ≡ none)
    → Updated d col (active (some r)) (set_count n (set_record d col r))
unfolding set_count
Updated-set_record d col n r v h k m beyond = record {
  valid = record {
    sized = omega (arith, shape, v.sized);
    counted = omega (arith, shape);
    beyond = λ j past. seen j ∙ beyond j past;
  };
  bindings = seen;
}
  where
    shape :
        (length (set_record d col r).records ≡ length d.records)
        × ((set_record d col r).cap ≡ d.cap)
        × ((set_record d col r).header ≡ d.header)
    shape = set_record_shape d col r

    seen :
        (j : ℕ)
        → binding (set_count n (set_record d col r)) j
          ≡ (if col == j then active (some r) else binding d j)
    seen j = binding-set_count n _ j ∙ binding-set_record d col r j h (omega (arith, v.sized))

-- The count may stay as it is where it already covers the bindings.
set_count_self : (d : Descriptor) (n : ℕ) → n ≡ d.header.desc_count → set_count n d ≡ d
unfolding set_count
set_count_self d n e = rw e

Updated-set_record_only :
    (d : Descriptor) (col : ℕ) (r : DescRecord)
    → IsValid d
    → 1 ≤ col
    → col ≤ d.cap
    → ((j : ℕ)
        → d.header.desc_count < j
        → (if col == j then active (some r) else binding d j) ≡ none)
    → Updated d col (active (some r)) (set_record d col r)
Updated-set_record_only d col r v h k beyond =
    rw (set_count_self (set_record d col r) d.header.desc_count same) at
      (Updated-set_record d col d.header.desc_count r v h k v.counted beyond)
  where
    same : d.header.desc_count ≡ (set_record d col r).header.desc_count
    same = ap (λ g. g.desc_count) (sym (set_record_shape d col r).2)

-- The branches of _unbind_col for a column up to DESC_COUNT.
unbind_within :
    (d : Descriptor) (col : ℕ) (r : DescRecord)
    → IsValid d
    → 1 ≤ col
    → col ≤ d.header.desc_count
    → col_record d col ≡ some r
    → (d' : Descriptor) × (unbind_col d col ≡ some d') × Updated d col none d'
unfolding unbind_col
unbind_within d col r v h k e = elim (Bool-cases r.bound) [
  | inl on ↦ elim (Bool-cases (ltb col d.header.desc_count)) [
    | inl inner ↦ (
      set_record d col (record r { bound = false }),
      ground arith,
      Updated-set_record_only d col (record r { bound = false }) v h (omega (arith, v.counted))
          (λ j past. ground (arith, v.beyond j)),
    )
    | inr outer ↦ (
      set_count (d.header.desc_count - 1) (set_record d col (record r { bound = false })),
      ground arith,
      Updated-set_record d col (d.header.desc_count - 1) (record r { bound = false }) v h
          (omega (arith, v.counted)) (omega (arith, v.counted))
          (λ j past. ground (arith, v.beyond j)),
    )
  ]
  | inr off ↦ (d, ground arith, record { valid = v; bindings = λ j. ground (arith, inactive off) })
]
  where
    inactive : r.bound ≡ false → binding d col ≡ none
    inactive off = unfold binding in ground (arith, e, off)

unbind_col-Updated :
    (d : Descriptor) (col : ℕ)
    → IsValid d
    → 1 ≤ col
    → (d' : Descriptor) × (unbind_col d col ≡ some d') × Updated d col none d'
unfolding unbind_col
unbind_col-Updated d col v h = elim (Bool-cases (ltb d.header.desc_count col)) [
  | inl above ↦ (d, rw above, record { valid = v; bindings = λ j. ground (arith, v.beyond j) })
  | inr within ↦
      let k : col ≤ d.header.desc_count = ground arith in
      let (r, e) = col_record-in d col h (omega (arith, v.sized, v.counted)) in
      unbind_within d col r v h k e
]
