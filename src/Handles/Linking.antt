-- ===== src/Handles/Linking.antt =====
-- src/core/stmt.c, src/core/desc.c: _stmt_associate_ARD, _stmt_associate_APD and the loops of
-- desc_free on valid handles.
use taos_connector_odbc.Prelude.{
  ℕ, suc, ◌<◌, Option, none, some, List, [], ◌∷◌, ◌≡◌, refl, sym, ap, ◌∙◌, arith, Bool-cases, inl,
  inr,
}
use mathlib.Core.Path.{subst}
use taos_connector_odbc.Odbc.{SqlReturn, sql_success, sql_error, SqlState, hy024}
use taos_connector_odbc.Handles.{
  StmtHandle, Store, Role, as_ard, as_apd, other_role, DescHandle, own, foreign, associated,
  with_associated, is_desc, link_desc, associate_desc, alive, bind, put_stmt, put_desc, desc_ref,
  associate, set_desc,
}
use taos_connector_odbc.Handles.Counts.{flag}
use taos_connector_odbc.Handles.Associations.{
  IsAssociated, SameCounts, Counted, refs, relinked-SameCounts, relinked-IsAssociated,
}
use taos_connector_odbc.Handles.Dissociated.{is_desc_other, flag_self, dissociate-Dissociated}

pub SameCounts-refl : (s : Store) → SameCounts s s
SameCounts-refl s = record {
  same_conn = refl;
  same_env_refc = refl;
  same_env_conns = refl;
  same_nr_stmts = refl;
  same_nr_descs = refl;
  same_stmts = refl;
  same_descs = refl;
}

pub SameCounts-trans : {s s1 s2 : Store} → SameCounts s s1 → SameCounts s1 s2 → SameCounts s s2
SameCounts-trans a b = record {
  same_conn = b.same_conn ∙ a.same_conn;
  same_env_refc = b.same_env_refc ∙ a.same_env_refc;
  same_env_conns = b.same_env_conns ∙ a.same_env_conns;
  same_nr_stmts = b.same_nr_stmts ∙ a.same_nr_stmts;
  same_nr_descs = b.same_nr_descs ∙ a.same_nr_descs;
  same_stmts = b.same_stmts ∙ a.same_stmts;
  same_descs = b.same_descs ∙ a.same_descs;
}

with-with :
    (role : Role) (o o' : Option ℕ) (st : StmtHandle)
    → with_associated role o (with_associated role o' st) ≡ with_associated role o st
with-with as_ard o o' st = refl
with-with as_apd o o' st = refl

pub associated-with :
    (role : Role) (o : Option ℕ) (st : StmtHandle) → associated role (with_associated role o st) ≡ o
associated-with as_ard o st = refl
associated-with as_apd o st = refl

pub associated-other :
    (role : Role) (o : Option ℕ) (st : StmtHandle)
    → associated (other_role role) (with_associated role o st) ≡ associated (other_role role) st
associated-other as_ard o st = refl
associated-other as_apd o st = refl

-- A call that keeps the associations and the counts right.
pub record Kept (s s' : Store) : Type 0 where
  pub associations : IsAssociated s'
  pub counts : SameCounts s s'

desc_ref-alive :
    (d refc : ℕ) (s : Store)
    → alive s.descs d ≡ some refc
    → 0 < refc
    → desc_ref d s ≡ some (put_desc d (some (suc refc)) s)
unfolding desc_ref
desc_ref-alive d refc s e h = rw e (ground arith)

link :
    (role : Role) (i d : ℕ) (st : StmtHandle) (s : Store)
    → IsAssociated s
    → alive s.stmts i ≡ some (with_associated role none st)
    → (refc : ℕ) → alive s.descs d ≡ some refc
    → Kept s (put_stmt i (some (with_associated role (some d) st)) (put_desc d (some (suc refc)) s))
link role i d st s v h refc there =
    let st0 = with_associated role none st in
    let free = associated-with role none st in
    let zero_flag : flag (is_desc d (associated role st0)) ≡ 0 =
      ap (λ o. flag (is_desc d o)) free in
    subst (λ x. Kept s (put_stmt i (some x) (put_desc d (some (suc refc)) s)))
      (with-with role (some d) none st)
      (record {
        associations =
            relinked-IsAssociated role i (some d) st0 d refc (suc refc) s v h there
              (omega (arith, zero_flag, flag_self d))
              (λ d' other. ap (is_desc d') free ∙ sym (is_desc_other d d' other));
        counts = relinked-SameCounts role i (some d) st0 d refc (suc refc) s h there;
      })

link_desc-Kept :
    (role : Role) (i d : ℕ) (st : StmtHandle) (s : Store) (refc : ℕ)
    → IsAssociated s
    → alive s.stmts i ≡ some st
    → alive s.descs d ≡ some refc
    → (s' : Store) × (link_desc role i d st s ≡ some (s', sql_success, [])) × Kept s s'
unfolding link_desc
link_desc-Kept role i d st s refc v h there =
    let (s1, run, h1) = dissociate-Dissociated role i st s v h in
    let (refc1, there1) = h1.kept d refc there in
    let held = subst (λ x. Counted x (refs d s1.stmts)) there1 (h1.associations.counted d) in
    let linked = link role i d st s1 h1.associations h1.now refc1 there1 in
    let go : Store → Option (Store × SqlReturn × List SqlState) =
      λ s2. some (put_stmt i (some (with_associated role (some d) st)) s2, sql_success, []) in
    (
      _,
      ap (λ o. bind o (λ x. bind (desc_ref d x) go)) run
          ∙ ap (λ o. bind o go) (desc_ref-alive d refc1 s1 there1 (omega (arith, held))),
      record {
        associations = linked.associations;
        counts = SameCounts-trans h1.counts linked.counts;
      },
    )

-- Is the descriptor there?
abbrev pub IsThere : Store → DescHandle → Type 0
IsThere s foreign = Unit
IsThere s (own d) = (refc : ℕ) × (alive s.descs d ≡ some refc)

associate_desc-Kept :
    (role : Role) (i : ℕ) (h : DescHandle) (st : StmtHandle) (s : Store)
    → IsAssociated s
    → alive s.stmts i ≡ some st
    → IsThere s h
    → (s' : Store) × (sr : SqlReturn) × (diags : List SqlState) × (associate_desc role i h st s
        ≡ some (s', sr, diags))
      × Kept s s'
unfolding associate_desc
associate_desc-Kept role i foreign st s v e t =
    (s, sql_error, hy024 ∷ [], refl, record { associations = v; counts = SameCounts-refl s })
associate_desc-Kept role i (own d) st s v e (refc, there) =
    let same : Kept s s = record { associations = v; counts = SameCounts-refl s } in
    let (s', run, kept) = link_desc-Kept role i d st s refc v e there in
    elim (Bool-cases (is_desc d (associated role st))) [
      | inl a ↦ (s, sql_success, [], rw a refl, same)
      | inr a ↦ elim (Bool-cases (is_desc d (associated (other_role role) st))) [
        | inl b ↦ (s, sql_error, hy024 ∷ [], rw (a, b) refl, same)
        | inr b ↦ (s', sql_success, [], rw (a, b) run, kept)
      ]
    ]

-- SQLSetStmtAttr with SQL_ATTR_APP_ROW_DESC or SQL_ATTR_APP_PARAM_DESC.
abbrev pub IsThere? : Store → Option DescHandle → Type 0
IsThere? s none = Unit
IsThere? s (some h) = IsThere s h

pub set_desc-Kept :
    (role : Role) (i : ℕ) (t : Option DescHandle) (st : StmtHandle) (s : Store)
    → IsAssociated s
    → alive s.stmts i ≡ some st
    → IsThere? s t
    → (s' : Store) × (sr : SqlReturn) × (diags : List SqlState) × (set_desc role i t s
        ≡ some (s', sr, diags))
      × Kept s s'
unfolding set_desc associate
set_desc-Kept role i none st s v e t =
    let (s', run, h) = dissociate-Dissociated role i st s v e in
    (
      s',
      sql_success,
      [],
      ap (λ o. bind o (λ x. some (x, sql_success, []))) run,
      record { associations = h.associations; counts = h.counts },
    )
set_desc-Kept role i (some h) st s v e t =
    let (s', sr, diags, run, kept) = associate_desc-Kept role i h st s v e t in
    (s', sr, diags, ap (λ o. bind o (λ x. associate_desc role i h x s)) e ∙ run, kept)
