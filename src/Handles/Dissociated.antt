-- ===== src/Handles/Dissociated.antt =====
-- src/core/stmt.c: stmt_dissociate_ARD and stmt_dissociate_APD on valid handles.
use taos_connector_odbc.Prelude.{
  ℕ, ◌+◌, ◌-◌, ◌≤◌, ◌<◌, ◌==◌, false, Option, none, some, List, length, length-set, ◌≡◌, ◌≢◌, refl,
  ap, ◌∙◌, arith, Option-cases, inl, inr,
}
use mathlib.Core.Path.{subst}
use taos_connector_odbc.Handles.{
  StmtHandle, Store, Role, as_ard, as_apd, associated, with_associated, is_desc, alive, bind,
  put_stmt, put_desc, desc_unref, dissociate, drop_desc,
}
use taos_connector_odbc.Handles.Counts.{
  total_at, refers, flag, users, alive→get_elem?, alive-set_self, alive-set_ne,
}
use taos_connector_odbc.Handles.Associations.{
  refs, Counted, IsAssociated, SameCounts, users-replaced, dec_index, relinked, relinked-SameCounts,
  relinked-IsAssociated,
}

-- What dropping the association of statement `i`, if it has one, leaves.
pub record Dissociated (role : Role) (i : ℕ) (st : StmtHandle) (s s' : Store) : Type 0 where
  pub associations : IsAssociated s'
  pub counts : SameCounts s s'
  pub now : alive s'.stmts i ≡ some (with_associated role none st)
  pub fewer :
      (r : Role) (d : ℕ)
      → users r d s'.stmts + refers r d (some st)
        ≡ users r d s.stmts + refers r d (some (with_associated role none st))
  pub long : length s'.stmts ≡ length s.stmts
  pub kept :
      (d refc : ℕ) → alive s.descs d ≡ some refc → (refc' : ℕ) × (alive s'.descs d ≡ some refc')

desc_unref-shared :
    (d refc : ℕ) (s : Store)
    → alive s.descs d ≡ some refc
    → 1 < refc
    → desc_unref d s ≡ some (put_desc d (some (refc - 1)) s)
unfolding desc_unref
desc_unref-shared d refc s e h = rw e (ground arith)

dissociate-drop_desc :
    (role : Role) (i : ℕ) (st : StmtHandle) (o : Option ℕ) (s : Store)
    → alive s.stmts i ≡ some st
    → associated role st ≡ o
    → dissociate role i s ≡ drop_desc role i st o s
unfolding dissociate
dissociate-drop_desc role i st o s h e =
    ap (λ x. bind x (λ st'. drop_desc role i st' (associated role st') s)) h
    ∙ ap (λ x. drop_desc role i st x s) e

same_handle :
    (role : Role) (st : StmtHandle) → associated role st ≡ none → st ≡ with_associated role none st
same_handle as_ard st e = λ j. record st { associated_ard = e j }
same_handle as_apd st e = λ j. record st { associated_apd = e j }

pub flag_self : (d : ℕ) → flag (d == d) ≡ 1
flag_self d = ground arith

users-refs : (role : Role) (d : ℕ) (sts : List (Option StmtHandle)) → users role d sts ≤ refs d sts
users-refs as_ard d sts = omega arith
users-refs as_apd d sts = omega arith

pub is_desc_other : (d d' : ℕ) → d' ≢ d → is_desc d' (some d) ≡ false
is_desc_other d d' h = ground arith

-- A statement that refers to a descriptor keeps it from being freed.
referred :
    (role : Role) (i d : ℕ) (st : StmtHandle) (s : Store)
    → IsAssociated s
    → alive s.stmts i ≡ some st
    → associated role st ≡ some d
    → (refc : ℕ) × (alive s.descs d ≡ some refc) × (1 < refc)
referred role i d st s v h e =
    let this : flag (is_desc d (associated role st)) ≡ 1 =
      ap (λ o. flag (is_desc d o)) e ∙ flag_self d in
    let used = total_at (refers role d) s.stmts i (some st) (alive→get_elem? s.stmts i st h) in
    let positive : 0 < refs d s.stmts = omega (arith, this, used, users-refs role d s.stmts) in
    elim (Option-cases (alive s.descs d)) [
      | inl gone ↦
          let unused = subst (λ x. Counted x (refs d s.stmts)) gone (v.counted d) in
          absurd (omega (arith, unused, positive))
      | inr (refc, there) ↦
          let held = subst (λ x. Counted x (refs d s.stmts)) there (v.counted d) in
          (refc, there, omega (arith, held, positive))
    ]

pub dissociate-Dissociated :
    (role : Role) (i : ℕ) (st : StmtHandle) (s : Store)
    → IsAssociated s
    → alive s.stmts i ≡ some st
    → (s' : Store) × (dissociate role i s ≡ some s') × Dissociated role i st s s'
unfolding drop_desc
dissociate-Dissociated role i st s v h = elim (Option-cases (associated role st)) [
  | inl e ↦ (
    s,
    dissociate-drop_desc role i st none s h e,
    record {
      associations = v;
      counts = record {
        same_conn = refl;
        same_env_refc = refl;
        same_env_conns = refl;
        same_nr_stmts = refl;
        same_nr_descs = refl;
        same_stmts = refl;
        same_descs = refl;
      };
      now = h ∙ ap some (same_handle role st e);
      fewer = λ r d. ap (λ x. users r d s.stmts + refers r d (some x)) (same_handle role st e);
      long = refl;
      kept = λ d refc there. (refc, there);
    },
  )
  | inr (d, e) ↦
      let (refc, there, shared) = referred role i d st s v h e in
      let s1 = put_desc d (some (refc - 1)) s in
      let run =
        dissociate-drop_desc role i st (some d) s h e
        ∙ ap (λ o. bind o (λ s'. some (put_stmt i (some (with_associated role none st)) s')))
            (desc_unref-shared d refc s there shared) in
      let this : flag (is_desc d (associated role st)) ≡ 1 =
        ap (λ o. flag (is_desc d o)) e ∙ flag_self d in
      (
        relinked role i none st d (refc - 1) s,
        run,
        record {
          associations =
              relinked-IsAssociated role i none st d refc (refc - 1) s v h there
                (omega (arith, this, shared))
                (λ d' other. ap (is_desc d') e ∙ is_desc_other d d' other);
          counts = relinked-SameCounts role i none st d refc (refc - 1) s h there;
          now = alive-set_self s.stmts i st (with_associated role none st) h;
          fewer = λ r d'. users-replaced r d' i s st (some (with_associated role none st)) h;
          long = length-set s.stmts i _;
          kept = λ d' refc' there'. elim (dec_index d d') [
            | inl same ↦ (
              refc - 1,
              subst (λ x. alive s1.descs x ≡ some (refc - 1)) same
                  (alive-set_self s.descs d refc (refc - 1) there),
            )
            | inr other ↦ (refc', alive-set_ne s.descs d d' _ other ∙ there')
          ];
        },
      )
]
