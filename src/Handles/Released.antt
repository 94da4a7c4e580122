-- ===== src/Handles/Released.antt =====
-- src/core/desc.c, src/core/stmt.c: desc_free and stmt_unref on valid handles.
use taos_connector_odbc.Prelude.{
  ℕ, suc, ◌-◌, ◌<◌, Option, none, some, List, length, set, ◌≡◌, refl, sym, ap, ◌∙◌, arith, inl, inr,
  lt→ltb,
}
use mathlib.Core.Path.{subst, subst₂}
use taos_connector_odbc.Handles.{
  StmtHandle, Store, as_ard, as_apd, associated, is_desc, alive, bind, put_stmt, put_desc,
  dissociate, dissociate_each, desc_unref, desc_release, conn_unref, desc_free, stmt_unref,
  stmt_release,
}
use taos_connector_odbc.Handles.Counts.{
  total, total-set, total_at, present, refers, users_le, flag, alive→get_elem?, alive-set_ne,
  alive-set-none,
}
use taos_connector_odbc.Handles.Associations.{
  IsAssociated, SameCounts, Counted, refs, dec_index, users-replaced,
}
use taos_connector_odbc.Handles.Dissociated.{dissociate-Dissociated}
use taos_connector_odbc.Handles.Linking.{SameCounts-trans}
use taos_connector_odbc.Handles.Freeing.{IsValid, dissociate_each-Emptied}

conn_unref-shared :
    (s : Store) → 1 < s.conn_refc → conn_unref s ≡ some (record s { conn_refc = s.conn_refc - 1 })
unfolding conn_unref
conn_unref-shared s h = ground arith

-- The last reference to a descriptor.
desc_unref-last :
    (d : ℕ) (s : Store)
    → alive s.descs d ≡ some 1
    → 0 < s.nr_descs
    → 1 < s.conn_refc
    → desc_unref d s
      ≡ some (put_desc d none (record s { nr_descs = s.nr_descs - 1; conn_refc = s.conn_refc - 1 }))
unfolding desc_unref desc_release
desc_unref-last d s e h k = rw (e, desc_release, lt→ltb 0 s.nr_descs h) (conn_unref-shared _ k)

total-present_at :
    {A : Type 0} (xs : List (Option A)) (i : ℕ) (x : A) → alive xs i ≡ some x → 0 < total present xs
total-present_at xs i x h = total_at present xs i (some x) (alive→get_elem? xs i x h)

IsAssociated-freed :
    (d : ℕ) (s s' : Store)
    → IsAssociated s
    → refs d s.stmts ≡ 0
    → s'.stmts ≡ s.stmts
    → s'.descs ≡ set s.descs d none
    → IsAssociated s'
IsAssociated-freed d s s' v e p q =
    let inner : (d' : ℕ) → Counted (alive (set s.descs d none) d') (refs d' s.stmts) = λ d'.
      elim (dec_index d d') [
        | inl same ↦
            subst (λ x. Counted (alive (set s.descs d none) x) (refs x s.stmts)) same
              (subst (λ x. Counted x (refs d s.stmts)) (sym (alive-set-none s.descs d)) e)
        | inr other ↦
            subst (λ x. Counted x (refs d' s.stmts)) (sym (alive-set_ne s.descs d d' none other))
              (v.counted d')
      ] in
    record {
      counted =
          λ d'. subst₂ (λ ds sts. Counted (alive ds d') (refs d' sts)) (sym q) (sym p) (inner d');
      single = λ i st at. v.single i st (ap (λ sts. alive sts i) (sym p) ∙ at);
    }

-- The counts of `s` hold for `s'` too.
pub IsValid-same : (s s' : Store) → IsValid s → IsAssociated s' → SameCounts s s' → IsValid s'
IsValid-same s s' v a c = record {
  associations = a;
  conn_count = omega (arith, v.conn_count, c.same_conn, c.same_stmts, c.same_descs);
  stmt_count = omega (arith, v.stmt_count, c.same_nr_stmts, c.same_stmts);
  desc_count = omega (arith, v.desc_count, c.same_nr_descs, c.same_descs);
  env_count = omega (arith, v.env_count, c.same_env_refc, c.same_env_conns);
  env_conn = omega (arith, v.env_conn, c.same_env_conns);
}

pub desc_free-IsValid :
    (d refc : ℕ) (s : Store)
    → IsValid s
    → alive s.descs d ≡ some refc
    → (s' : Store) × (desc_free d s ≡ some s') × IsValid s'
unfolding desc_free
desc_free-IsValid d refc s v there =
    let (s1, run1, h1) =
      dissociate_each-Emptied as_ard d (length s.stmts) s v.associations
        (users_le as_ard d s.stmts) in
    let (s2, run2, h2) =
      dissociate_each-Emptied as_apd d (length s1.stmts) s1 h1.associations
        (users_le as_apd d s1.stmts) in
    let (refc1, there1) = h1.kept refc there in
    let (refc2, there2) = h2.kept refc1 there1 in
    let unused : refs d s2.stmts ≡ 0 = omega (arith, h1.empty, h2.empty, h2.others) in
    let held = subst (λ x. Counted x (refs d s2.stmts)) there2 (h2.associations.counted d) in
    let last : alive s2.descs d ≡ some 1 = there2 ∙ ap some (held ∙ ap suc unused) in
    let v2 = IsValid-same s s2 v h2.associations (SameCounts-trans h1.counts h2.counts) in
    let some_desc = total-present_at s2.descs d 1 last in
    let fewer = total-set present s2.descs d (some 1) none (alive→get_elem? s2.descs d 1 last) in
    (
      _,
      ap (λ o. bind o (λ x. bind (dissociate_each as_apd d (length x.stmts) x) (desc_unref d))) run1
          ∙ ap (λ o. bind o (desc_unref d)) run2
          ∙ desc_unref-last d s2 last (omega (arith, v2.desc_count, some_desc))
              (omega (arith, v2.conn_count, some_desc)),
      record {
        associations = IsAssociated-freed d s2 _ h2.associations unused refl refl;
        conn_count = omega (arith, v2.conn_count, fewer, some_desc);
        stmt_count = v2.stmt_count;
        desc_count = omega (arith, v2.desc_count, fewer);
        env_count = v2.env_count;
        env_conn = v2.env_conn;
      },
    )

-- A statement without associations is freed.
IsAssociated-released :
    (i : ℕ) (st : StmtHandle) (s s' : Store)
    → IsAssociated s
    → alive s.stmts i ≡ some st
    → associated as_ard st ≡ none
    → associated as_apd st ≡ none
    → s'.stmts ≡ set s.stmts i none
    → s'.descs ≡ s.descs
    → IsAssociated s'
IsAssociated-released i st s s' v at a b p q =
    let same : (d : ℕ) → refs d s.stmts ≡ refs d (set s.stmts i none) = λ d.
      let no_ard : refers as_ard d (some st) ≡ 0 = ap (λ o. flag (is_desc d o)) a in
      let no_apd : refers as_apd d (some st) ≡ 0 = ap (λ o. flag (is_desc d o)) b in
      omega (
        arith,
        no_ard,
        no_apd,
        users-replaced as_ard d i s st none at,
        users-replaced as_apd d i s st none at,
      ) in
    record {
      counted = λ d.
          subst₂ (λ ds sts. Counted (alive ds d) (refs d sts)) (sym q) (sym p)
            (subst (Counted (alive s.descs d)) (same d) (v.counted d));
      single = λ j st' at'. elim (dec_index i j) [
        | inl e ↦
            let gone =
              subst (λ x. alive (set s.stmts i none) x ≡ none) e (alive-set-none s.stmts i) in
            absurd (cc (sym gone ∙ ap (λ sts. alive sts j) (sym p) ∙ at'))
        | inr other ↦
            v.single j st'
              (sym (alive-set_ne s.stmts i j none other) ∙ ap (λ sts. alive sts j) (sym p) ∙ at')
      ];
    }

pub stmt_unref-IsValid :
    (i : ℕ) (st : StmtHandle) (s : Store)
    → IsValid s
    → alive s.stmts i ≡ some st
    → (s' : Store) × (stmt_unref i s ≡ some s') × IsValid s'
unfolding stmt_unref stmt_release
stmt_unref-IsValid i st s v at =
    let s0 : Store = record s { nr_stmts = s.nr_stmts - 1 } in
    let v0 : IsAssociated s0 = record {
      counted = v.associations.counted;
      single = v.associations.single;
    } in
    let (s1, run1, h1) = dissociate-Dissociated as_apd i st s0 v0 at in
    let (s2, run2, h2) = dissociate-Dissociated as_ard i _ s1 h1.associations h1.now in
    let c = SameCounts-trans h1.counts h2.counts in
    let some_stmt = total-present_at s.stmts i st at in
    let fewer = total-set present s2.stmts i _ none (alive→get_elem? s2.stmts i _ h2.now) in
    let one = v.associations.single i st at in
    let release : Store → Option Store = λ x. conn_unref (put_stmt i none x) in
    let opened : stmt_unref i s ≡ stmt_release i s0 = rw (at, one) refl in
    (
      _,
      opened
          ∙ ap (λ o. bind o (λ x. bind (dissociate as_ard i x) release)) run1
          ∙ ap (λ o. bind o release) run2
          ∙ conn_unref-shared (put_stmt i none s2)
              (omega (arith, v.conn_count, some_stmt, c.same_conn)),
      record {
        associations = IsAssociated-released i _ s2 _ h2.associations h2.now refl refl refl refl;
        conn_count =
            omega (arith, v.conn_count, c.same_conn, c.same_stmts, c.same_descs, fewer, some_stmt);
        stmt_count = omega (arith, v.stmt_count, c.same_nr_stmts, c.same_stmts, fewer);
        desc_count = omega (arith, v.desc_count, c.same_nr_descs, c.same_descs);
        env_count = omega (arith, v.env_count, c.same_env_refc, c.same_env_conns);
        env_conn = omega (arith, v.env_conn, c.same_env_conns);
      },
    )
