-- ===== src/Handles/Associations.antt =====
-- src/core/stmt.c, src/core/desc.c: ending an association of statements with descriptors keeps the descriptors'
-- reference counts right.
use taos_connector_odbc.Prelude.{
  ℕ, suc, ◌+◌, Option, none, some, List, set, ◌≡◌, ◌≢◌, ◌⊎◌, refl, sym, ap, ◌∙◌, arith, inl, inr,
}
use mathlib.Core.Path.{subst}
use taos_connector_odbc.Handles.{
  StmtHandle, Store, Role, as_ard, as_apd, associated, with_associated, is_desc, alive, put_stmt,
  put_desc,
}
use taos_connector_odbc.Handles.Counts.{
  total, total-set, present, refers, flag, users, alive→get_elem?, alive-set_self, alive-set_ne,
}

-- The references to descriptor `d`.
abbrev pub refs : ℕ → List (Option StmtHandle) → ℕ
refs d sts = users as_ard d sts + users as_apd d sts

abbrev pub Counted : Option ℕ → ℕ → Type 0
Counted none n = n ≡ 0
Counted (some refc) n = refc ≡ suc n

-- A descriptor is held by the application and by the statements associated with it, and a
-- statement by the application.
pub record IsAssociated (s : Store) : Type 0 where
  pub counted : (d : ℕ) → Counted (alive s.descs d) (refs d s.stmts)
  pub single : (i : ℕ) (st : StmtHandle) → alive s.stmts i ≡ some st → st.refc ≡ 1

-- What associations do not touch.
pub record SameCounts (s s' : Store) : Type 0 where
  pub same_conn : s'.conn_refc ≡ s.conn_refc
  pub same_env_refc : s'.env_refc ≡ s.env_refc
  pub same_env_conns : s'.env_conns ≡ s.env_conns
  pub same_nr_stmts : s'.nr_stmts ≡ s.nr_stmts
  pub same_nr_descs : s'.nr_descs ≡ s.nr_descs
  pub same_stmts : total present s'.stmts ≡ total present s.stmts
  pub same_descs : total present s'.descs ≡ total present s.descs

-- A statement in place `i` is replaced.
pub users-replaced :
    (role : Role) (d i : ℕ) (s : Store) (st : StmtHandle) (x : Option StmtHandle)
    → alive s.stmts i ≡ some st
    → users role d (set s.stmts i x) + refers role d (some st)
      ≡ users role d s.stmts + refers role d x
users-replaced role d i s st x h =
    total-set (refers role d) s.stmts i (some st) x (alive→get_elem? s.stmts i st h)

-- References of one statement, in both roles.
abbrev pub both_refer : ℕ → StmtHandle → ℕ
both_refer d st = refers as_ard d (some st) + refers as_apd d (some st)

pub both_refer-with :
    (role : Role) (d : ℕ) (o : Option ℕ) (st : StmtHandle)
    → both_refer d (with_associated role o st) + flag (is_desc d (associated role st))
      ≡ both_refer d st + flag (is_desc d o)
both_refer-with as_ard d o st = omega arith
both_refer-with as_apd d o st = omega arith

-- What a change of one association does to the references of every descriptor.
pub refs-replaced :
    (role : Role) (d i : ℕ) (o : Option ℕ) (s : Store) (st : StmtHandle)
    → alive s.stmts i ≡ some st
    → refs d (set s.stmts i (some (with_associated role o st)))
        + flag (is_desc d (associated role st))
      ≡ refs d s.stmts + flag (is_desc d o)
refs-replaced role d i o s st h =
    let x = some (with_associated role o st) in
    omega (
      arith,
      users-replaced as_ard d i s st x h,
      users-replaced as_apd d i s st x h,
      both_refer-with role d o st,
    )

pub with_associated-refc :
    (role : Role) (o : Option ℕ) (st : StmtHandle) → (with_associated role o st).refc ≡ st.refc
with_associated-refc as_ard o st = refl
with_associated-refc as_apd o st = refl

pub dec_index : (i j : ℕ) → (i ≡ j) ⊎ (i ≢ j)
dec_index i j = ground arith

-- One association of statement `i` is replaced by `o`, and the count of descriptor `d` by `refc`.
abbrev pub relinked : Role → ℕ → Option ℕ → StmtHandle → ℕ → ℕ → Store → Store
relinked role i o st d refc s =
    put_stmt i (some (with_associated role o st)) (put_desc d (some refc) s)

pub relinked-SameCounts :
    (role : Role) (i : ℕ) (o : Option ℕ) (st : StmtHandle) (d refc refc' : ℕ) (s : Store)
    → alive s.stmts i ≡ some st
    → alive s.descs d ≡ some refc
    → SameCounts s (relinked role i o st d refc' s)
relinked-SameCounts role i o st d refc refc' s h e = record {
  same_conn = refl;
  same_env_refc = refl;
  same_env_conns = refl;
  same_nr_stmts = refl;
  same_nr_descs = refl;
  same_stmts = omega (
    arith,
    total-set present s.stmts i (some st) (some (with_associated role o st))
        (alive→get_elem? s.stmts i st h),
  );
  same_descs = omega (
    arith,
    total-set present s.descs d (some refc) (some refc') (alive→get_elem? s.descs d refc e),
  );
}

pub unchanged :
    (role : Role) (d i : ℕ) (o : Option ℕ) (s : Store) (st : StmtHandle)
    → alive s.stmts i ≡ some st
    → is_desc d (associated role st) ≡ is_desc d o
    → refs d s.stmts ≡ refs d (set s.stmts i (some (with_associated role o st)))
unchanged role d i o s st h f =
    let same : flag (is_desc d (associated role st)) ≡ flag (is_desc d o) = ap flag f in
    omega (arith, same, refs-replaced role d i o s st h)

pub some_injective : {A : Type 0} {x y : A} → some x ≡ some y → x ≡ y
some_injective e = cc e

pub relinked-IsAssociated :
    (role : Role) (i : ℕ) (o : Option ℕ) (st : StmtHandle) (d refc refc' : ℕ) (s : Store)
    → IsAssociated s
    → alive s.stmts i ≡ some st
    → alive s.descs d ≡ some refc
    → refc' + flag (is_desc d (associated role st)) ≡ refc + flag (is_desc d o)
    → ((d' : ℕ) → d' ≢ d → is_desc d' (associated role st) ≡ is_desc d' o)
    → IsAssociated (relinked role i o st d refc' s)
relinked-IsAssociated role i o st d refc refc' s v h e n f =
    let sts = set s.stmts i (some (with_associated role o st)) in
    let descs = set s.descs d (some refc') in
    let held : refc ≡ suc (refs d s.stmts) =
      subst (λ x. Counted x (refs d s.stmts)) e (v.counted d) in
    let here : Counted (alive descs d) (refs d sts) =
      subst (λ x. Counted x (refs d sts)) (sym (alive-set_self s.descs d refc refc' e))
        (omega (arith, held, n, refs-replaced role d i o s st h)) in
    record {
      counted = λ d'. elim (dec_index d d') [
        | inl same ↦ subst (λ x. Counted (alive descs x) (refs x sts)) same here
        | inr other ↦
            let kept : refs d' s.stmts ≡ refs d' sts =
              unchanged role d' i o s st h (f d' (λ q. other (sym q))) in
            subst (λ x. Counted x (refs d' sts))
              (sym (alive-set_ne s.descs d d' (some refc') other))
              (subst (Counted (alive s.descs d')) kept (v.counted d'))
      ];
      single = λ j st' at. elim (dec_index i j) [
        | inl same ↦
            let now = alive-set_self s.stmts i st (with_associated role o st) h in
            let e' : with_associated role o st ≡ st' =
              some_injective (sym now ∙ subst (λ x. alive sts x ≡ some st') (sym same) at) in
            sym (ap (λ x. x.refc) e') ∙ with_associated-refc role o st ∙ v.single i st h
        | inr other ↦ v.single j st' (sym (alive-set_ne s.stmts i j _ other) ∙ at)
      ];
    }
