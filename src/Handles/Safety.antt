-- ===== src/Handles/Safety.antt =====
-- src/core/env.c, src/core/conn.c, src/core/stmt.c, src/core/desc.c: no sequence of calls on handles
-- that are there fails an assertion or uses an object that was freed.
use taos_connector_odbc.Prelude.{
  ℕ, suc, ◌+◌, ◌-◌, ◌<◌, ltb, Bool, true, false, Option, some, List, [], ◌∷◌, ◌++◌, ◌≡◌, refl, sym,
  ap, ◌∙◌, arith, Bool-cases, inl, inr, ◌||◌, ◌⊎◌,
}
use mathlib.Core.Path.{subst}
use taos_connector_odbc.Odbc.{SqlReturn, sql_success, sql_error, SqlState, hy000, hy001}
use taos_connector_odbc.Handles.{
  StmtHandle, Store, as_ard, as_apd, alive, bind, conn_ref, conn_free, desc_create, stmt_create,
  new_stmt, stmt_free, Call, alloc_stmt, alloc_desc, free_stmt, free_desc, set_stmt_desc, call,
}
use taos_connector_odbc.Handles.Counts.{total, total-append, present, refers, alive-append}
use taos_connector_odbc.Handles.Associations.{Counted, refs}
use taos_connector_odbc.Handles.Linking.{IsThere?, set_desc-Kept}
use taos_connector_odbc.Handles.Freeing.{IsValid}
use taos_connector_odbc.Handles.Released.{IsValid-same, desc_free-IsValid, stmt_unref-IsValid}

-- Handles that the application may pass: those that it has not freed.
abbrev pub IsLegal : Call → Store → Type 0
IsLegal (alloc_stmt memory) s = Unit
IsLegal (alloc_desc memory) s = Unit
IsLegal (free_stmt i) s = (st : StmtHandle) × (alive s.stmts i ≡ some st)
IsLegal (free_desc d) s = (refc : ℕ) × (alive s.descs d ≡ some refc)
IsLegal (set_stmt_desc role i t) s =
    ((st : StmtHandle) × (alive s.stmts i ≡ some st)) × IsThere? s t

-- A connection that was just made, in an environment with `n` others.
abbrev pub fresh : ℕ → Store
fresh n = record {
  env_refc = suc (suc n);
  env_conns = suc n;
  conn_refc = 1;
  connected = false;
  outstandings = 0;
  nr_stmts = 0;
  nr_descs = 0;
  stmts = [];
  descs = [];
}

-- The states that calls on a fresh connection lead to.
pub data Reach : Store → Type 0 where
  start : (n : ℕ) → Reach (fresh n)
  next :
      {s s' : Store} {sr : SqlReturn} {diags : List SqlState}
      → Reach s
      → (c : Call) → IsLegal c s
      → call c s ≡ some (s', sr, diags)
      → Reach s'

-- The call comes back, with every count right.
abbrev pub Returns : Option (Store × SqlReturn × List SqlState) → Type 0
Returns o =
    (s' : Store) × (sr : SqlReturn) × (diags : List SqlState) × (o ≡ some (s', sr, diags))
    × IsValid s'

pub fresh-IsValid : (n : ℕ) → IsValid (fresh n)
fresh-IsValid n = record {
  associations = record { counted = λ d. refl; single = λ i st at. absurd (cc at) };
  conn_count = refl;
  stmt_count = refl;
  desc_count = refl;
  env_count = refl;
  env_conn = omega arith;
}

conn_ref-alive :
    (s : Store) → 0 < s.conn_refc → conn_ref s ≡ some (record s { conn_refc = suc s.conn_refc })
unfolding conn_ref
conn_ref-alive s h = ground arith

stmt_create-Returns : (memory : Bool) (s : Store) → IsValid s → Returns (stmt_create memory s)
unfolding stmt_create
stmt_create-Returns false s v = (s, sql_error, hy001 ∷ [], refl, v)
stmt_create-Returns true s v =
    let more = total-append present s.stmts (some new_stmt ∷ []) in
    let unused : (d : ℕ) → refs d s.stmts ≡ refs d (s.stmts ++ some new_stmt ∷ []) = λ d. omega (
      arith,
      total-append (refers as_ard d) s.stmts (some new_stmt ∷ []),
      total-append (refers as_apd d) s.stmts (some new_stmt ∷ []),
    ) in
    (
      _,
      sql_success,
      [],
      ap
          (λ o.
            bind o
              (λ s'. some (record s' { stmts = s'.stmts ++ some new_stmt ∷ [] }, sql_success, [])))
          (conn_ref-alive (record s { nr_stmts = suc s.nr_stmts }) (omega (arith, v.conn_count))),
      record {
        associations = record {
          counted = λ d. subst (Counted (alive s.descs d)) (unused d) (v.associations.counted d);
          single = λ i st at. elim (alive-append s.stmts (some new_stmt) i) [
            | inl old ↦ v.associations.single i st (sym old ∙ at)
            | inr (gone, new) ↦
                let e : new_stmt ≡ st = cc (sym new ∙ at) in sym (ap (λ x. x.refc) e)
          ];
        };
        conn_count = omega (arith, v.conn_count, more);
        stmt_count = omega (arith, v.stmt_count, more);
        desc_count = v.desc_count;
        env_count = v.env_count;
        env_conn = v.env_conn;
      },
    )

desc_create-Returns : (memory : Bool) (s : Store) → IsValid s → Returns (desc_create memory s)
unfolding desc_create
desc_create-Returns false s v = (s, sql_error, hy001 ∷ [], refl, v)
desc_create-Returns true s v =
    let more = total-append present s.descs (some 1 ∷ []) in
    (
      _,
      sql_success,
      [],
      ap
          (λ o. bind o (λ s'. some (
            record s' { nr_descs = suc s'.nr_descs; descs = s'.descs ++ some 1 ∷ [] },
            sql_success,
            [],
          )))
          (conn_ref-alive s (omega (arith, v.conn_count))),
      record {
        associations = record {
          counted = λ d. elim (alive-append s.descs (some 1) d) [
            | inl old ↦ subst (λ x. Counted x (refs d s.stmts)) (sym old) (v.associations.counted d)
            | inr (gone, new) ↦
                subst (λ x. Counted x (refs d s.stmts)) (sym new)
                  (ap suc
                    (sym (subst (λ x. Counted x (refs d s.stmts)) gone (v.associations.counted d))))
          ];
          single = v.associations.single;
        };
        conn_count = omega (arith, v.conn_count, more);
        stmt_count = v.stmt_count;
        desc_count = omega (arith, v.desc_count, more);
        env_count = v.env_count;
        env_conn = v.env_conn;
      },
    )

call-Returns : (c : Call) (s : Store) → IsValid s → IsLegal c s → Returns (call c s)
unfolding call stmt_free
call-Returns (alloc_stmt memory) s v l = stmt_create-Returns memory s v
call-Returns (alloc_desc memory) s v l = desc_create-Returns memory s v
call-Returns (free_stmt i) s v (st, at) =
    let (s', run, v') = stmt_unref-IsValid i st s v at in
    (s', sql_success, [], ap (λ o. bind o (λ x. some (x, sql_success, []))) run, v')
call-Returns (free_desc d) s v (refc, at) =
    let (s', run, v') = desc_free-IsValid d refc s v at in
    (s', sql_success, [], ap (λ o. bind o (λ x. some (x, sql_success, []))) run, v')
call-Returns (set_stmt_desc role i t) s v ((st, at), there) =
    let (s', sr, diags, run, k) = set_desc-Kept role i t st s v.associations at there in
    (s', sr, diags, run, IsValid-same s s' v k.associations k.counts)

some_injective : {A : Type 0} {x y : A} → some x ≡ some y → x ≡ y
some_injective e = cc e

Reach-IsValid : {s : Store} → Reach s → IsValid s
Reach-IsValid (start n) = fresh-IsValid n
Reach-IsValid (next r c l run) =
    let (s', sr, diags, run', v) = call-Returns c _ (Reach-IsValid r) l in
    subst IsValid (ap (λ x. x.0) (some_injective (sym run' ∙ run))) v

-- Whatever calls were made on a fresh connection, and each with handles not freed before: the next
-- such call to allocate or free a statement or a descriptor, or to associate them, comes back; no
-- assertion on a count fails, no freed object is used, and afterwards each reference count is the
-- number of references.
pub Reach-Returns : {s : Store} → Reach s → (c : Call) → IsLegal c s → Returns (call c s)
Reach-Returns r c l = call-Returns c _ (Reach-IsValid r) l

-- Does something stand against freeing the connection?
abbrev pub busy : Store → Bool
busy s =
    ltb 0 s.outstandings || (s.connected || ltb 0 (total present s.stmts + total present s.descs))

-- What freeing the connection leaves of it and of its environment.
pub record Freed (s s' : Store) : Type 0 where
  pub gone : s'.conn_refc ≡ 0
  pub one_less : suc s'.env_conns ≡ s.env_conns
  pub env_held : s'.env_refc ≡ suc s'.env_conns

-- SQLFreeHandle of a connection whose counts are right: while a call is outstanding, the connection
-- is open, or a statement or a descriptor of it is not freed, it is refused and nothing changes;
-- otherwise it succeeds, frees the connection and takes it off the counts of the environment,
-- which stays.
pub conn_free-Freed :
    (s : Store)
    → IsValid s
    → ((busy s ≡ true) × (conn_free s ≡ some (s, sql_error, hy000 ∷ [])))
      ⊎ ((busy s ≡ false)
          × ((s' : Store) × (conn_free s ≡ some (s', sql_success, [])) × Freed s s'))
unfolding conn_free
conn_free-Freed s v = elim (Bool-cases (busy s)) [
  | inl b ↦ inl (b, ground (arith, v.stmt_count, v.desc_count))
  | inr b ↦ inr (
    b,
    (
      record s {
        env_refc = s.env_refc - 1;
        env_conns = s.env_conns - 1;
        conn_refc = s.conn_refc - 1;
      },
      ground (arith, v.stmt_count, v.desc_count, v.conn_count, v.env_count, v.env_conn),
      record {
        gone = ground (arith, v.conn_count);
        one_less = omega (arith, v.env_conn);
        env_held = omega (arith, v.env_count, v.env_conn);
      },
    ),
  )
]
