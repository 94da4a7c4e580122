-- ===== src/Desc/Bindings/Clearing.antt =====
-- src/core/desc.c and _stmt_unbind_cols of src/core/stmt.c: removing all bindings at once.
use taos_connector_odbc.Prelude.{
  ℕ, zero, suc, ltb, if◌then◌else◌, none, List, [], ◌∷◌, get_elem?, length, ◌≡◌, ◌≤◌, refl, ap,
  arith,
}
use taos_connector_odbc.Desc.{
  DescRecord, Descriptor, descriptor_init, unbind_first, descriptor_reclaim_buffers, unbind_cols,
  clear_first,
}
use taos_connector_odbc.Desc.Bindings.{active, binding, IsValid}

length-unbind_first : (n : ℕ) (rs : List DescRecord) → length (unbind_first n rs) ≡ length rs
unfolding unbind_first
length-unbind_first zero rs = refl
length-unbind_first (suc n) [] = refl
length-unbind_first (suc n) (r ∷ rs) = ap suc (length-unbind_first n rs)

get_elem?-unbind_first :
    (n : ℕ) (rs : List DescRecord) (i : ℕ)
    → active (get_elem? (unbind_first n rs) i) ≡ (if ltb i n then none else active (get_elem? rs i))
unfolding unbind_first
get_elem?-unbind_first zero rs i = ground arith
get_elem?-unbind_first (suc n) [] i = ground arith
get_elem?-unbind_first (suc n) (r ∷ rs) zero = ground arith
get_elem?-unbind_first (suc n) (r ∷ rs) (suc i) = ground (arith, get_elem?-unbind_first n rs i)

-- `d'` is valid and has no binding at all.
pub record Cleared (d' : Descriptor) : Type 0 where
  pub valid : IsValid d'
  pub bindings : (j : ℕ) → binding d' j ≡ none

reclaimed : (d : Descriptor) → IsValid d → (j : ℕ) → binding (descriptor_reclaim_buffers d) j ≡ none
unfolding binding descriptor_reclaim_buffers
reclaimed d v zero = refl
reclaimed d v (suc i) =
    ground (arith, get_elem?-unbind_first d.header.desc_count d.records i, v.beyond (suc i))

-- descriptor_reclaim_buffers, whose loop stops at DESC_COUNT, still removes every binding of a
-- valid descriptor.
pub reclaim_buffers-Cleared : (d : Descriptor) → IsValid d → Cleared (descriptor_reclaim_buffers d)
reclaim_buffers-Cleared d v = record {
  valid = record {
    sized =
        unfold descriptor_reclaim_buffers in
        omega (arith, v.sized, length-unbind_first d.header.desc_count d.records);
    counted = unfold descriptor_reclaim_buffers in v.counted;
    beyond = λ j past. reclaimed d v j;
  };
  bindings = reclaimed d v;
}

length-clear_first : (n : ℕ) (rs : List DescRecord) → length (clear_first n rs) ≡ length rs
unfolding clear_first
length-clear_first zero rs = refl
length-clear_first (suc n) [] = refl
length-clear_first (suc n) (r ∷ rs) = ap suc (length-clear_first n rs)

-- Clearing all records that there are leaves none active.
clear_first-inactive :
    (n : ℕ) (rs : List DescRecord) (i : ℕ)
    → length rs ≤ n
    → active (get_elem? (clear_first n rs) i) ≡ none
unfolding clear_first
clear_first-inactive zero [] i h = refl
clear_first-inactive zero (r ∷ rs) i h = absurd (omega arith)
clear_first-inactive (suc n) [] i h = refl
clear_first-inactive (suc n) (r ∷ rs) zero h = refl
clear_first-inactive (suc n) (r ∷ rs) (suc i) h = clear_first-inactive n rs i (omega arith)

unbound_cols : (d : Descriptor) → IsValid d → (j : ℕ) → binding (unbind_cols d) j ≡ none
unfolding binding unbind_cols
unbound_cols d v zero = refl
unbound_cols d v (suc i) = clear_first-inactive d.cap d.records i (omega (arith, v.sized))

-- SQLFreeStmt with SQL_UNBIND (_stmt_unbind_cols), which clears the memory of as many records as the
-- descriptor has room for, leaves a valid descriptor valid, with as many records and no binding.
pub unbind_cols-Cleared : (d : Descriptor) → IsValid d → Cleared (unbind_cols d)
unbind_cols-Cleared d v = record {
  valid = record {
    sized = unfold unbind_cols in omega (arith, v.sized, length-clear_first d.cap d.records);
    counted = unfold unbind_cols in omega arith;
    beyond = λ j past. unbound_cols d v j;
  };
  bindings = unbound_cols d v;
}

nothing_bound : (j : ℕ) → binding descriptor_init j ≡ none
unfolding binding descriptor_init
nothing_bound zero = refl
nothing_bound (suc i) = refl

pub init-Cleared : Cleared descriptor_init
unfolding descriptor_init
init-Cleared = record {
  valid = record { sized = refl; counted = omega arith; beyond = λ j past. nothing_bound j };
  bindings = nothing_bound;
}
