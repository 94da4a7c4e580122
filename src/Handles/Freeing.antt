-- ===== src/Handles/Freeing.antt =====
-- src/core/conn.c, src/core/desc.c: the counts of a connection, and the loops of desc_free over the
-- statements of a descriptor.
use taos_connector_odbc.Prelude.{
  ℕ, zero, suc, ◌+◌, ◌≤◌, ◌<◌, Option, none, some, ◌≡◌, refl, ap, ◌∙◌, arith, Option-cases, inl,
  inr,
}
use mathlib.Core.Path.{subst}
use taos_connector_odbc.Handles.{
  StmtHandle, Store, Role, other_role, with_associated, is_desc, alive, bind, dissociate,
  first_associated, dissociate_each,
}
use taos_connector_odbc.Handles.Counts.{
  total, present, refers, users, flag, Finds, first_associated-Finds,
}
use taos_connector_odbc.Handles.Associations.{IsAssociated, SameCounts}
use taos_connector_odbc.Handles.Dissociated.{flag_self, dissociate-Dissociated}
use taos_connector_odbc.Handles.Linking.{
  SameCounts-refl, SameCounts-trans, associated-with, associated-other,
}

-- The counts of a connection that is not freed yet.
pub record IsValid (s : Store) : Type 0 where
  pub associations : IsAssociated s
  pub conn_count : s.conn_refc ≡ suc (total present s.stmts + total present s.descs)
  pub stmt_count : s.nr_stmts ≡ total present s.stmts
  pub desc_count : s.nr_descs ≡ total present s.descs
  pub env_count : s.env_refc ≡ suc s.env_conns
  pub env_conn : 0 < s.env_conns

-- The statements of descriptor `d` in a role are dissociated.
pub record Emptied (role : Role) (d : ℕ) (s s' : Store) : Type 0 where
  pub associations : IsAssociated s'
  pub counts : SameCounts s s'
  pub empty : users role d s'.stmts ≡ 0
  pub others : users (other_role role) d s'.stmts ≡ users (other_role role) d s.stmts
  pub kept :
      (refc : ℕ) → alive s.descs d ≡ some refc → (refc' : ℕ) × (alive s'.descs d ≡ some refc')

pub refers-with :
    (role : Role) (d : ℕ) (st : StmtHandle)
    → refers role d (some (with_associated role none st)) ≡ 0
refers-with role d st = ap (λ o. flag (is_desc d o)) (associated-with role none st)

pub refers-other :
    (role : Role) (d : ℕ) (st : StmtHandle)
    → refers (other_role role) d (some (with_associated role none st))
      ≡ refers (other_role role) d (some st)
refers-other role d st = ap (λ o. flag (is_desc d o)) (associated-other role none st)

pub dissociate_each-Emptied :
    (role : Role) (d n : ℕ) (s : Store)
    → IsAssociated s
    → users role d s.stmts ≤ n
    → (s' : Store) × (dissociate_each role d n s ≡ some s') × Emptied role d s s'
unfolding dissociate_each
dissociate_each-Emptied role d zero s v h = (
  s,
  refl,
  record {
    associations = v;
    counts = SameCounts-refl s;
    empty = omega (arith, h);
    others = refl;
    kept = λ refc there. (refc, there);
  },
)
dissociate_each-Emptied role d (suc n) s v h =
    let round : Option ℕ → Option Store = λ o. elim o [
      | none ↦ some s
      | some i ↦ bind (dissociate role i s) (dissociate_each role d n)
    ] in
    let found = first_associated-Finds role d s.stmts in
    elim (Option-cases (first_associated role d s.stmts)) [
      | inl e ↦ (
        s,
        ap round e,
        record {
          associations = v;
          counts = SameCounts-refl s;
          empty = subst (Finds role d s.stmts) e found;
          others = refl;
          kept = λ refc there. (refc, there);
        },
      )
      | inr (i, e) ↦
          let (st, at, of_d) = subst (Finds role d s.stmts) e found in
          let (s1, run, h1) = dissociate-Dissociated role i st s v at in
          let one : refers role d (some st) ≡ 1 = ap (λ o. flag (is_desc d o)) of_d ∙ flag_self d in
          let fewer : suc (users role d s1.stmts) ≡ users role d s.stmts =
            omega (arith, h1.fewer role d, one, refers-with role d st) in
          let (s2, run2, h2) =
            dissociate_each-Emptied role d n s1 h1.associations (omega (arith, h, fewer)) in
          let others1 : users (other_role role) d s1.stmts ≡ users (other_role role) d s.stmts =
            omega (arith, h1.fewer (other_role role) d, refers-other role d st) in
          (
            s2,
            ap round e ∙ ap (λ o. bind o (dissociate_each role d n)) run ∙ run2,
            record {
              associations = h2.associations;
              counts = SameCounts-trans h1.counts h2.counts;
              empty = h2.empty;
              others = h2.others ∙ others1;
              kept =
                  λ refc there. let (refc1, there1) = h1.kept d refc there in h2.kept refc1 there1;
            },
          )
    ]
