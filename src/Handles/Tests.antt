-- ===== src/Handles/Tests.antt =====
-- Concrete calls for the theorems on handles (src/core/conn.c, src/core/stmt.c, src/core/desc.c).
use taos_connector_odbc.Prelude.{true, false, some, none, [], ◌∷◌, refl, ◌≡◌, ◌⊎◌}
use taos_connector_odbc.Odbc.{sql_success, sql_error, hy000}
use taos_connector_odbc.Handles.{
  Store, as_ard, own, alloc_stmt, alloc_desc, set_stmt_desc, free_desc, call, conn_free,
}
use taos_connector_odbc.Handles.Safety.{
  start, next, fresh, Returns, Reach-Returns, busy, Freed, conn_free-Freed, fresh-IsValid,
}

abbrev with_stmt : Store
with_stmt = record (fresh 0) {
  conn_refc = 2;
  nr_stmts = 1;
  stmts = some (record { refc = 1; associated_ard = none; associated_apd = none }) ∷ [];
}

abbrev with_desc : Store
with_desc = record with_stmt { conn_refc = 3; nr_descs = 1; descs = some 1 ∷ [] }

abbrev linked_handles : Store
linked_handles = record with_desc {
  stmts = some (record { refc = 1; associated_ard = some 0; associated_apd = none }) ∷ [];
  descs = some 2 ∷ [];
}

-- A statement and a descriptor, associated; then the descriptor is freed.
Reach-Returns_example : Returns (call (free_desc 0) linked_handles)
unfolding call
Reach-Returns_example =
    Reach-Returns
      (next {s = with_desc} {s' = linked_handles} {sr = sql_success} {diags = []}
        (next {s = with_stmt} {s' = with_desc} {sr = sql_success} {diags = []}
          (next {s = fresh 0} {s' = with_stmt} {sr = sql_success} {diags = []} (start 0)
            (alloc_stmt true) tt refl)
          (alloc_desc true) tt refl)
        (set_stmt_desc as_ard 0 (some (own 0))) ((_, refl), (1, refl)) refl)
      (free_desc 0) (2, refl)

conn_free-Freed_example :
    ((busy (fresh 3) ≡ true) × (conn_free (fresh 3) ≡ some (fresh 3, sql_error, hy000 ∷ [])))
    ⊎ ((busy (fresh 3) ≡ false)
        × ((s' : Store) × (conn_free (fresh 3) ≡ some (s', sql_success, [])) × Freed (fresh 3) s'))
conn_free-Freed_example = conn_free-Freed (fresh 3) (fresh-IsValid 3)
