-- ===== src/Errs/Records.antt =====
-- src/core/errs.c: what the records of a handle are after any run of calls.
use taos_connector_odbc.Prelude.{
  ℕ, zero, suc, ◌+◌, ◌≤◌, ◌<◌, Bool, true, List, [], ◌∷◌, ◌++◌, length, ◌≡◌, refl, sym, ap, ◌∙◌,
  ◌⊎◌, inl, inr, arith, get_elem?, length-append, All,
}
use mathlib.Core.List.{append-nil, append_assoc}
use taos_connector_odbc.Odbc.{Text}
use taos_connector_odbc.Errs.{
  Err, Errs, Diag, errs_append_x, append_all, errs_clr_x, err_set_x, conn_data_source, find_rec,
  lookup_rec, returned, errs_get_diag_rec_x, diag_rec,
}

-- `count` is the number of records.
abbrev pub IsValid : Errs → Type 0
IsValid s = s.count ≡ length s.errs

-- The nodes that the handle owns.
abbrev pub nodes : Errs → ℕ
nodes s = length s.errs + length s.frees

find_rec-get_elem? : (r n i : ℕ) (ps : List Err) → r ≡ i + n → find_rec r i ps ≡ get_elem? ps n
unfolding find_rec
find_rec-get_elem? r n i [] e = refl
find_rec-get_elem? r zero i (p ∷ ps) e = ground arith
find_rec-get_elem? r (suc n) i (p ∷ ps) e = ground (arith, find_rec-get_elem? r n (i + 1) ps)

pub lookup_rec-get_elem? : (s : Errs) (n : ℕ) → lookup_rec s (suc n) ≡ get_elem? s.errs n
unfolding lookup_rec
lookup_rec-get_elem? s n = ground (arith, find_rec-get_elem? (suc n) n 1 s.errs)

-- Clearing leaves no record, keeps the connection, and every node becomes a free one.
pub errs-clr :
    (s : Errs)
    → ((errs_clr_x s).errs ≡ [])
      × ((errs_clr_x s).connected_conn ≡ s.connected_conn)
      × (length (errs_clr_x s).frees ≡ nodes s)
unfolding errs_clr_x
errs-clr s = ground (arith, length-append s.frees s.errs)

clr-IsValid : (s : Errs) → IsValid s → IsValid (errs_clr_x s)
unfolding errs_clr_x
clr-IsValid s v = ground arith

module _ (vendor component : Text) where
  abbrev entry : Errs → Diag → Err
  entry s d = err_set_x vendor component (conn_data_source s.connected_conn) d

  -- With a free node or with memory, the diagnostic is the last record.
  errs-append :
      (ok : Bool) (s : Errs) (d : Diag)
      → (ok ≡ true) ⊎ (0 < length s.frees)
      → ((errs_append_x vendor component ok s d).errs ≡ s.errs ++ entry s d ∷ [])
        × ((errs_append_x vendor component ok s d).connected_conn ≡ s.connected_conn)
        × (length s.frees ≤ length (errs_append_x vendor component ok s d).frees + 1)
  unfolding errs_append_x
  errs-append ok s d h = ground arith

  append-IsValid :
      (ok : Bool) (s : Errs) (d : Diag)
      → IsValid s
      → IsValid (errs_append_x vendor component ok s d)
  unfolding errs_append_x
  append-IsValid ok s d v = ground (arith, length-append s.errs (entry s d ∷ []))

  -- A node is allocated only when none is free, and then at most one.
  append-nodes :
      (ok : Bool) (s : Errs) (d : Diag)
      → (nodes (errs_append_x vendor component ok s d) ≡ nodes s)
        ⊎ ((s.frees ≡ []) × (nodes (errs_append_x vendor component ok s d) ≡ nodes s + 1))
  unfolding errs_append_x
  append-nodes ok s d = ground (arith, length-append s.errs (entry s d ∷ []))

  -- Every diagnostic finds a node: memory never runs out, or enough nodes are free.
  abbrev pub Fits : Errs → List (Bool × Diag) → Type 0
  Fits s ds = All (λ d. d.0 ≡ true) ds ⊎ (length ds ≤ length s.frees)

  Fits-head :
      (s : Errs) (ok : Bool) (d : Diag) (ds : List (Bool × Diag))
      → Fits s ((ok, d) ∷ ds)
      → (ok ≡ true) ⊎ (0 < length s.frees)
  Fits-head s ok d ds (inl h) = inl h.0
  Fits-head s ok d ds (inr h) = inr (omega arith)

  Fits-tail :
      (s t : Errs) (ok : Bool) (d : Diag) (ds : List (Bool × Diag))
      → length s.frees ≤ length t.frees + 1
      → Fits s ((ok, d) ∷ ds)
      → Fits t ds
  Fits-tail s t ok d ds k (inl h) = inl h.1
  Fits-tail s t ok d ds k (inr h) = inr (omega arith)

  -- The records that a run of calls makes, formatted with the name of the data source.
  abbrev pub entries : Text → List (Bool × Diag) → List Err
  entries source [] = []
  entries source ((ok, d) ∷ ds) = err_set_x vendor component source d ∷ entries source ds

  errs-append_all :
      (source : Text) (s : Errs) (ds : List (Bool × Diag))
      → conn_data_source s.connected_conn ≡ source
      → Fits s ds
      → (append_all vendor component s ds).errs ≡ s.errs ++ entries source ds
  unfolding append_all
  errs-append_all source s [] e h = sym (append-nil s.errs)
  errs-append_all source s ((ok, d) ∷ ds) e h =
      let t = errs_append_x vendor component ok s d in
      let (last, same, spent) = errs-append ok s d (Fits-head s ok d ds h) in
      let rest =
        errs-append_all source t ds (ap conn_data_source same ∙ e)
          (Fits-tail s t ok d ds spent h) in
      rest ∙ rw (last, e) (append_assoc s.errs _ _)

  -- After SQLxxx clears a handle's records and its call appends `ds`, record n + 1 is the n-th
  -- of them, formatted with the connection's data source, and past the last there is SQL_NO_DATA,
  -- provided that each finds memory or a node of the cleared records.
  pub get_diag_rec-append_all :
      (s : Errs) (ds : List (Bool × Diag)) (n size : ℕ)
      → Fits (errs_clr_x s) ds
      → errs_get_diag_rec_x (append_all vendor component (errs_clr_x s) ds) (suc n) size
        ≡ returned (get_elem? (entries (conn_data_source s.connected_conn) ds) n) (diag_rec size)
  unfolding errs_get_diag_rec_x
  get_diag_rec-append_all s ds n size h =
      let (empty, same, kept) = errs-clr s in
      let source = conn_data_source s.connected_conn in
      let cleared = errs_clr_x s in
      let added = errs-append_all source cleared ds (ap conn_data_source same) h in
      ap (λ o. returned o (diag_rec size))
        (lookup_rec-get_elem? (append_all vendor component cleared ds) n
          ∙ ap (λ es. get_elem? es n) (added ∙ ap (λ es. es ++ entries source ds) empty))

  -- Calls on a handle's records.
  pub data Call : Type 0 where
    appends : Bool → Diag → Call
    clears : Call

  pub call : Errs → Call → Errs
  call s (appends ok d) = errs_append_x vendor component ok s d
  call s clears = errs_clr_x s

  pub calls : Errs → List Call → Errs
  calls s [] = s
  calls s (c ∷ cs) = calls (call s c) cs

  abbrev pub count_appends : List Call → ℕ
  count_appends [] = 0
  count_appends (appends ok d ∷ cs) = suc (count_appends cs)
  count_appends (clears ∷ cs) = count_appends cs

  -- From a valid state, as a fresh handle has, after any calls the state is valid, so `count` is
  -- the number of records; no node was lost, and no more were allocated than diagnostics given.
  pub calls-IsValid :
      (s : Errs) (cs : List Call)
      → IsValid s
      → IsValid (calls s cs)
        × (nodes s ≤ nodes (calls s cs))
        × (nodes (calls s cs) ≤ nodes s + count_appends cs)
  unfolding calls call
  calls-IsValid s [] v = (v, omega arith, omega arith)
  calls-IsValid s (appends ok d ∷ cs) v =
      let rest =
        calls-IsValid (errs_append_x vendor component ok s d) cs (append-IsValid ok s d v) in
      ground (arith, rest, append-nodes ok s d)
  calls-IsValid s (clears ∷ cs) v =
      ground (arith, calls-IsValid (errs_clr_x s) cs (clr-IsValid s v), errs-clr s)
