-- ===== src/Handles.antt =====
-- The handles of a connection and their reference counts: statements (src/core/stmt.c) and
-- explicitly allocated descriptors (src/core/desc.c), with the counts of the connection
-- (src/core/conn.c) and of its environment (src/core/env.c).
-- A handle is an index; `none` at an index is an object that was freed. `none` as a result is a
-- failed assertion or the use of a freed object.
pub mod Counts
pub mod Associations
pub mod Dissociated
pub mod Linking
pub mod Freeing
pub mod Released
pub mod Safety
mod Tests
use taos_connector_odbc.Prelude.{
  ℕ, zero, suc, ◌+◌, ◌-◌, ◌==◌, ltb, if◌then◌else◌, Bool, true, false, not, ◌&&◌, Option, none,
  some, List, [], ◌∷◌, ◌++◌, length, get_elem?, set,
}
use taos_connector_odbc.Odbc.{SqlReturn, sql_success, sql_error, SqlState, hy000, hy001, hy024}

-- stmt_t: the reference count, associated_ARD and associated_APD.
pub record StmtHandle : Type 0 where
  pub refc : ℕ
  pub associated_ard : Option ℕ
  pub associated_apd : Option ℕ

-- conn_t with what hangs on it, and the counts of env_t; a descriptor is its reference count.
pub record Store : Type 0 where
  pub env_refc : ℕ
  pub env_conns : ℕ
  pub conn_refc : ℕ
  pub connected : Bool
  pub outstandings : ℕ
  pub nr_stmts : ℕ
  pub nr_descs : ℕ
  pub stmts : List (Option StmtHandle)
  pub descs : List (Option ℕ)

-- The two associations of a statement.
pub data Role : Type 0 where
  as_ard as_apd : Role

-- The descriptor that the application passes: one of this connection, or of another.
pub data DescHandle : Type 0 where
  own : ℕ → DescHandle
  foreign : DescHandle

abbrev pub bind : {A B : Type 0} → Option A → (A → Option B) → Option B
bind none f = none
bind (some a) f = f a

-- The object at an index, unless it was freed.
abbrev pub alive : {A : Type 0} → List (Option A) → ℕ → Option A
alive xs i = bind (get_elem? xs i) (λ x. x)

abbrev pub associated : Role → StmtHandle → Option ℕ
associated as_ard st = st.associated_ard
associated as_apd st = st.associated_apd

abbrev pub with_associated : Role → Option ℕ → StmtHandle → StmtHandle
with_associated as_ard d st = record st { associated_ard = d }
with_associated as_apd d st = record st { associated_apd = d }

abbrev pub other_role : Role → Role
other_role as_ard = as_apd
other_role as_apd = as_ard

abbrev pub put_stmt : ℕ → Option StmtHandle → Store → Store
put_stmt i x s = record s { stmts = set s.stmts i x }

abbrev pub put_desc : ℕ → Option ℕ → Store → Store
put_desc d x s = record s { descs = set s.descs d x }

env_unref : Store → Option Store
env_unref s =
    if ltb 1 s.env_refc
    then some (record s { env_refc = s.env_refc - 1 })
    else if (s.env_refc == 1) && (s.env_conns == 0)
    then some (record s { env_refc = 0 })
    else none

conn_release : Store → Option Store
unfolding env_unref
conn_release s =
    if not s.connected && (ltb 0 s.env_conns && (s.nr_stmts == 0))
    then env_unref (record s { env_conns = s.env_conns - 1 })
    else none

-- The connection is gone when its count is 0.
pub conn_unref : Store → Option Store
unfolding conn_release
conn_unref s =
    let s' = record s { conn_refc = s.conn_refc - 1 } in
    if ltb 1 s.conn_refc then some s' else if s.conn_refc == 1 then conn_release s' else none

pub conn_ref : Store → Option Store
conn_ref s = if ltb 0 s.conn_refc then some (record s { conn_refc = suc s.conn_refc }) else none

-- _desc_release, then free.
desc_release : ℕ → Store → Option Store
unfolding conn_unref
desc_release d s =
    if ltb 0 s.nr_descs
    then conn_unref (put_desc d none (record s { nr_descs = s.nr_descs - 1 }))
    else none

pub desc_unref : ℕ → Store → Option Store
unfolding desc_release
desc_unref d s = bind (alive s.descs d) λ refc.
    if ltb 1 refc
    then some (put_desc d (some (refc - 1)) s)
    else if refc == 1
    then desc_release d s
    else none

pub desc_ref : ℕ → Store → Option Store
desc_ref d s =
    bind (alive s.descs d)
      λ refc. if ltb 0 refc then some (put_desc d (some (suc refc)) s) else none

-- stmt_dissociate_ARD and stmt_dissociate_APD behind the test of the association.
pub drop_desc : Role → ℕ → StmtHandle → Option ℕ → Store → Option Store
unfolding desc_unref
drop_desc role i st none s = some s
drop_desc role i st (some d) s =
    bind (desc_unref d s) λ s'. some (put_stmt i (some (with_associated role none st)) s')

pub dissociate : Role → ℕ → Store → Option Store
unfolding drop_desc
dissociate role i s = bind (alive s.stmts i) λ st. drop_desc role i st (associated role st) s

abbrev pub is_desc : ℕ → Option ℕ → Bool
is_desc d none = false
is_desc d (some e) = d == e

-- _stmt_associate_ARD and _stmt_associate_APD behind their tests.
pub link_desc : Role → ℕ → ℕ → StmtHandle → Store → Option (Store × SqlReturn × List SqlState)
unfolding dissociate desc_ref
link_desc role i d st s = bind (dissociate role i s) λ s1.
    bind (desc_ref d s1)
      λ s2. some (put_stmt i (some (with_associated role (some d) st)) s2, sql_success, [])

pub associate_desc :
    Role → ℕ → DescHandle → StmtHandle → Store → Option (Store × SqlReturn × List SqlState)
unfolding link_desc
associate_desc role i foreign st s = some (s, sql_error, hy024 ∷ [])
associate_desc role i (own d) st s =
    if is_desc d (associated role st)
    then some (s, sql_success, [])
    else if is_desc d (associated (other_role role) st)
    then some (s, sql_error, hy024 ∷ [])
    else link_desc role i d st s

-- _stmt_associate_ARD and _stmt_associate_APD.
pub associate : Role → ℕ → DescHandle → Store → Option (Store × SqlReturn × List SqlState)
unfolding associate_desc
associate role i h s = bind (alive s.stmts i) λ st. associate_desc role i h st s

-- _stmt_set_row_desc and _stmt_set_param_desc; `none` is SQL_NULL_DESC.
pub set_desc : Role → ℕ → Option DescHandle → Store → Option (Store × SqlReturn × List SqlState)
unfolding associate
set_desc role i none s = bind (dissociate role i s) λ s'. some (s', sql_success, [])
set_desc role i (some h) s = associate role i h s

abbrev pub next_index : Option ℕ → Option ℕ
next_index none = none
next_index (some i) = some (suc i)

-- The first statement that is associated with descriptor `d`.
pub first_associated : Role → ℕ → List (Option StmtHandle) → Option ℕ
first_associated role d [] = none
first_associated role d (none ∷ sts) = next_index (first_associated role d sts)
first_associated role d (some st ∷ sts) =
    if is_desc d (associated role st) then some 0 else next_index (first_associated role d sts)

-- The loops of desc_free over the statements associated with the descriptor.
pub dissociate_each : Role → ℕ → ℕ → Store → Option Store
unfolding dissociate first_associated
dissociate_each role d zero s = some s
dissociate_each role d (suc n) s = elim (first_associated role d s.stmts) [
  | none ↦ some s
  | some i ↦ bind (dissociate role i s) (dissociate_each role d n)
]

pub desc_free : ℕ → Store → Option Store
unfolding dissociate_each
desc_free d s =
    bind (dissociate_each as_ard d (length s.stmts) s)
      λ s1. bind (dissociate_each as_apd d (length s1.stmts) s1) λ s2. desc_unref d s2

-- The memory for the handle is there, or not.
pub desc_create : Bool → Store → Option (Store × SqlReturn × List SqlState)
unfolding conn_ref
desc_create false s = some (s, sql_error, hy001 ∷ [])
desc_create true s = bind (conn_ref s) λ s'.
    some
      (record s' { nr_descs = suc s'.nr_descs; descs = s'.descs ++ some 1 ∷ [] }, sql_success, [])

abbrev pub new_stmt : StmtHandle
new_stmt = record { refc = 1; associated_ard = none; associated_apd = none }

pub stmt_create : Bool → Store → Option (Store × SqlReturn × List SqlState)
stmt_create false s = some (s, sql_error, hy001 ∷ [])
stmt_create true s =
    bind (conn_ref (record s { nr_stmts = suc s.nr_stmts }))
      λ s'. some (record s' { stmts = s'.stmts ++ some new_stmt ∷ [] }, sql_success, [])

-- _stmt_release, then free.
stmt_release : ℕ → Store → Option Store
stmt_release i s =
    bind (dissociate as_apd i s)
      λ s1. bind (dissociate as_ard i s1) λ s2. conn_unref (put_stmt i none s2)

pub stmt_unref : ℕ → Store → Option Store
unfolding stmt_release
stmt_unref i s = bind (alive s.stmts i) λ st.
    if ltb 1 st.refc
    then some (put_stmt i (some (record st { refc = st.refc - 1 })) s)
    else if st.refc == 1
    then stmt_release i (record s { nr_stmts = s.nr_stmts - 1 })
    else none

pub conn_free : Store → Option (Store × SqlReturn × List SqlState)
unfolding conn_unref
conn_free s =
    if ltb 0 s.outstandings
    then some (s, sql_error, hy000 ∷ [])
    else if s.connected
    then some (s, sql_error, hy000 ∷ [])
    else if ltb 0 s.nr_stmts
    then some (s, sql_error, hy000 ∷ [])
    else if ltb 0 s.nr_descs
    then some (s, sql_error, hy000 ∷ [])
    else bind (conn_unref s) λ s'. some (s', sql_success, [])

pub stmt_free : ℕ → Store → Option (Store × SqlReturn × List SqlState)
unfolding stmt_unref
stmt_free i s = bind (stmt_unref i s) λ s'. some (s', sql_success, [])

-- The functions behind SQLAllocHandle, SQLFreeHandle and SQLSetStmtAttr, on handles of the connection.
pub data Call : Type 0 where
  alloc_stmt alloc_desc : Bool → Call
  free_stmt free_desc : ℕ → Call
  set_stmt_desc : Role → ℕ → Option DescHandle → Call

unfoldable pub call : Call → Store → Option (Store × SqlReturn × List SqlState)
unfolding stmt_create desc_create stmt_free desc_free set_desc
call (alloc_stmt memory) s = stmt_create memory s
call (alloc_desc memory) s = desc_create memory s
call (free_stmt i) s = stmt_free i s
call (free_desc d) s = bind (desc_free d s) λ s'. some (s', sql_success, [])
call (set_stmt_desc role i t) s = set_desc role i t s
