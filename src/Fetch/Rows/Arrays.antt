-- ===== src/Fetch/Rows/Arrays.antt =====
-- src/core/stmt.c: the arrays that the headers of the descriptors point to, as _stmt_fetch_x
-- writes them.
use taos_connector_odbc.Prelude.{
  ℕ, zero, suc, ◌+◌, ◌==◌, if◌then◌else◌, List, [], ◌∷◌, ◌++◌, length, set, replicate, ◌≡◌, refl,
  sym, ap, ◌∙◌, arith, Bool-cases, inl, inr,
}
use taos_connector_odbc.Odbc.{Pointer}
use taos_connector_odbc.Desc.{DescHeader}
use taos_connector_odbc.Fetch.Rows.{
  Fetching, sql_row_norow, put_status, put_norow, put_rows_processed,
}

-- Writes to an array from index `i` on.
abbrev pub write_at {ℓ} : {A : Type ℓ} → ℕ → List A → List A → List A
write_at i [] xs = xs
write_at i (y ∷ ys) xs = write_at (suc i) ys (set xs i y)

write_at_tail {ℓ} :
    {A : Type ℓ} (i : ℕ) (ys : List A) (x : A) (xs : List A)
    → write_at (suc i) ys (x ∷ xs) ≡ x ∷ write_at i ys xs
write_at_tail i [] x xs = refl
write_at_tail i (y ∷ ys) x xs = write_at_tail (suc i) ys x (set xs i y)

pub write_at_all {ℓ} : {A : Type ℓ} (ys xs : List A) → length ys ≡ length xs → write_at 0 ys xs ≡ ys
write_at_all [] [] h = refl
write_at_all [] (x ∷ xs) h = absurd (omega (arith, h))
write_at_all (y ∷ ys) [] h = absurd (omega (arith, h))
write_at_all (y ∷ ys) (x ∷ xs) h =
    write_at_tail 0 ys y xs ∙ ap (λ zs. y ∷ zs) (write_at_all ys xs (omega (arith, h)))

pub write_at-append {ℓ} :
    {A : Type ℓ} (i : ℕ) (cs bs xs : List A)
    → write_at i (cs ++ bs) xs ≡ write_at (i + length cs) bs (write_at i cs xs)
write_at-append i [] bs xs = let e : i ≡ i + 0 = omega arith in ap (λ k. write_at k bs xs) e
write_at-append i (c ∷ cs) bs xs =
    let e : suc i + length cs ≡ i + suc (length cs) = omega arith in
    write_at-append (suc i) cs bs (set xs i c)
    ∙ ap (λ k. write_at k bs (write_at (suc i) cs (set xs i c))) e

-- What is at an address, if it is not NULL, after `new` is written over `old`.
abbrev pub at_pointer {ℓ} : {A : Type ℓ} → Pointer → A → A → A
at_pointer p new old = if p == 0 then old else new

pub at_pointer_same : {A : Type 0} (p : Pointer) (x : A) → at_pointer p x x ≡ x
at_pointer_same p x = ground arith

pub at_pointer_twice :
    {A : Type 0} (p : Pointer) (g : A → A) (x z : A)
    → at_pointer p (g (at_pointer p x z)) (at_pointer p x z) ≡ at_pointer p (g x) z
at_pointer_twice p g x z = elim (Bool-cases (p == 0)) [ inl e ↦ rw e refl | inr e ↦ rw e refl ]

module _ {F : Type 0} (ird : DescHeader) where
  pub put_status-fields :
      (i status : ℕ) (f : Fetching F)
      → ((put_status ird i status f).res ≡ f.res)
        × ((put_status ird i status f).stmt ≡ f.stmt)
        × ((put_status ird i status f).rows_processed ≡ f.rows_processed)
        × ((put_status ird i status f).array_status
            ≡ at_pointer ird.desc_array_status_ptr (set f.array_status i status) f.array_status)
  unfolding put_status
  put_status-fields i status f = elim (Bool-cases (ird.desc_array_status_ptr == 0)) [
    | inl e ↦ rw e (refl, refl, refl, refl)
    | inr e ↦ rw e (refl, refl, refl, refl)
  ]

  pub put_norow-fields :
      (i n : ℕ) (f : Fetching F)
      → ((put_norow ird i n f).res ≡ f.res)
        × ((put_norow ird i n f).stmt ≡ f.stmt)
        × ((put_norow ird i n f).rows_processed ≡ f.rows_processed)
        × ((put_norow ird i n f).array_status
            ≡ at_pointer ird.desc_array_status_ptr
                (write_at i (replicate n sql_row_norow) f.array_status)
                f.array_status)
  unfolding put_norow
  put_norow-fields i zero f = (refl, refl, refl, sym (at_pointer_same _ _))
  put_norow-fields i (suc n) f =
      let write = write_at (suc i) (replicate n sql_row_norow) in
      let (r, s, p, a) = put_norow-fields (suc i) n (put_status ird i sql_row_norow f) in
      let (r', s', p', a') = put_status-fields i sql_row_norow f in
      (
        r ∙ r',
        s ∙ s',
        p ∙ p',
        a
            ∙ (λ j. at_pointer ird.desc_array_status_ptr (write (a' j)) (a' j))
            ∙ at_pointer_twice ird.desc_array_status_ptr write _ _,
      )

  pub put_rows_processed-fields :
      (n : ℕ) (f : Fetching F)
      → ((put_rows_processed ird n f).res ≡ f.res)
        × ((put_rows_processed ird n f).stmt ≡ f.stmt)
        × ((put_rows_processed ird n f).rows_processed
            ≡ at_pointer ird.desc_rows_processed_ptr n f.rows_processed)
        × ((put_rows_processed ird n f).array_status ≡ f.array_status)
  unfolding put_rows_processed
  put_rows_processed-fields n f = elim (Bool-cases (ird.desc_rows_processed_ptr == 0)) [
    | inl e ↦ rw e (refl, refl, refl, refl)
    | inr e ↦ rw e (refl, refl, refl, refl)
  ]
