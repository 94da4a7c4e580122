-- ===== src/Tables/Rows/Wanted.antt =====
-- src/core/tables.c: which rows the arguments of SQLTables select.
use taos_connector_odbc.Prelude.{
  ℕ, Bool, true, false, Option, none, some, List, [], ◌∷◌, ◌≡◌, ◌↔◌, ◌⊎◌, refl, sym, ap, ◌∙◌, inl,
  inr, arith, Bool-cases,
}
use mathlib.Core.Path.{subst}
use taos_connector_odbc.Odbc.{Text}
use taos_connector_odbc.HashTable.{text_eq}
use taos_connector_odbc.HashTable.Nodes.{text_eq_sound}
use taos_connector_odbc.Wildcard.{Node, wild_comp, wild_exec}
use taos_connector_odbc.Wildcard.Like.{Token, Matches, tokens, closed}
use taos_connector_odbc.Wildcard.Executed.{IsText}
use taos_connector_odbc.Wildcard.Compiled.{Agrees, wild_comp-Agrees}
use taos_connector_odbc.Fetch.Blocks.{Row}
use taos_connector_odbc.Tables.Rows.{
  opened, Tables, Verdict, kept, failing, wildexec, match_types, then_test, test_pattern,
  test_catalog, test_types, row_text, row_verdict,
}

-- A pattern, in UCS-4, and what wildcomp made of it.
abbrev pub Compiled : Option (List ℕ) → Option (List Node) → Type 0
Compiled none none = Unit {0}
Compiled (some ex) (some nodes) = wild_comp true ex ≡ some nodes
Compiled none (some nodes) = ⊥
Compiled (some ex) none = ⊥

-- The pattern stands for the column's text.
abbrev pub Selected : (Text → Option (List ℕ)) → Option (List ℕ) → Option Text → Type 0
Selected ucs none str = Unit {0}
Selected ucs (some ex) none = ⊥
Selected ucs (some ex) (some u) =
    (s : List ℕ) × (ucs u ≡ some s)
    × (ts : List Token) × (tokens ex ≡ some ts)
    × Matches (closed ts) s

-- The catalog is selected by its pattern, or is the current database where there is none.
abbrev pub CatalogSelected :
    (Text → Option (List ℕ)) → Option (List ℕ) → Bool → Text → Text → Type 0
CatalogSelected ucs (some ex) current_db db str = Selected ucs (some ex) (some str)
CatalogSelected ucs none true db str = db ≡ str
CatalogSelected ucs none false db str = Unit {0}

some_same {ℓ} : {A : Type ℓ} {a b : A} → some a ≡ some b → a ≡ b
some_same q = cc

exec-Selected :
    (ts : Option (List Token)) (ex : List ℕ) (nodes : List Node) (s : List ℕ)
    → tokens ex ≡ ts
    → wild_comp true ex ≡ some nodes
    → Agrees ts (wild_comp true ex) s
    → (wild_exec nodes s ≡ true)
      ↔ ((us : List Token) × (tokens ex ≡ some us) × Matches (closed us) s)
exec-Selected none ex nodes s e made h = absurd (clash (sym made ∙ h))
  where
    clash : {o : List Node} → some o ≡ none → ⊥
    clash q = cc
exec-Selected (some ts) ex nodes s e made (nodes', made', iff) = (
  λ run. (ts, e, iff.0 (same ∙ run)),
  λ (us, e', m). sym same ∙ iff.1 (subst (λ vs. Matches (closed vs) s) (some_same (sym e' ∙ e)) m),
)
  where
    same : wild_exec nodes' s ≡ wild_exec nodes s
    same = ap (λ ns. wild_exec ns s) (some_same (sym made' ∙ made))

none-some {ℓ} : {A : Type ℓ} {a : A} → none ≡ some a → ⊥
none-some q = cc

failing-kept : (rest : Verdict) → then_test none rest ≡ kept → ⊥
unfolding then_test
failing-kept rest h = cc

then_test-kept :
    (b : Bool) (rest : Verdict) → (then_test (some b) rest ≡ kept) ↔ ((b ≡ true) × (rest ≡ kept))
unfolding then_test
then_test-kept true rest = (λ h. (refl, h), λ h. h.1)
then_test-kept false rest = (λ h. absurd (cc), λ h. absurd (cc))

text_eq_self : (t : Text) → text_eq t t ≡ true
unfolding text_eq
text_eq_self [] = refl
text_eq_self (c ∷ cs) = ground (arith, text_eq_self cs)

-- `u` is one of the texts.
abbrev pub In : Text → List Text → Type 0
In u [] = ⊥
In u (t ∷ ts) = (t ≡ u) ⊎ In u ts

match_types-In : (ts : List Text) (u : Text) → (match_types ts u ≡ true) ↔ In u ts
unfolding match_types
match_types-In [] u = (λ h. absurd (cc), λ h. absurd h)
match_types-In (t ∷ ts) u =
    let rest = match_types-In ts u in
    elim (Bool-cases (text_eq t u)) [
      | inl same ↦ rw same (λ h. inl (text_eq_sound t u same), λ h. refl)
      | inr other ↦ rw other (
        λ h. inr (rest.0 h),
        λ h. elim h [
          | inl same ↦
              absurd (not_both (sym other ∙ subst (λ v. text_eq t v ≡ true) same (text_eq_self t)))
          | inr more ↦ rest.1 more
        ],
      )
    ]
  where
    not_both : false ≡ true → ⊥
    not_both q = cc

module _ (ucs : Text → Option (List ℕ))
    (texts : (u : Text) (s : List ℕ) → ucs u ≡ some s → IsText s) where
  -- A test by wildexec goes on exactly where the pattern stands for the text.
  exec-kept :
      (ex : List ℕ) (nodes : List Node) (u : Text) (rest : Verdict)
      → wild_comp true ex ≡ some nodes
      → (then_test (wildexec (opened ucs) nodes u) rest ≡ kept)
        ↔ (Selected ucs (some ex) (some u) × (rest ≡ kept))
  unfolding wildexec
  exec-kept ex nodes u rest made = from (ucs u) refl
    where
      from :
          (o : Option (List ℕ))
          → ucs u ≡ o
          → (then_test (elim o [ none ↦ none | some s ↦ some (wild_exec nodes s) ]) rest ≡ kept)
            ↔ (Selected ucs (some ex) (some u) × (rest ≡ kept))
      from none e =
          (λ h. absurd (failing-kept rest h), λ (sel, k). absurd (none-some (sym e ∙ sel.1)))
      from (some s) e =
          let ex_sel =
            exec-Selected (tokens ex) ex nodes s refl made (wild_comp-Agrees ex s (texts u s e)) in
          let go = then_test-kept (wild_exec nodes s) rest in
          (
            λ h.
                let (run, k) = go.0 h in
                let (ts, is_ts, m) = ex_sel.0 run in ((s, e, ts, is_ts, m), k),
            λ ((s', e', ts, is_ts, m), k). go.1 (
              ex_sel.1 (ts, is_ts, subst (λ z. Matches (closed ts) z) (some_same (sym e' ∙ e)) m),
              k,
            ),
          )

  pattern-kept :
      (ex : Option (List ℕ)) (nodes : Option (List Node)) (str : Option Text) (rest : Verdict)
      → Compiled ex nodes
      → (test_pattern (opened ucs) nodes str rest ≡ kept) ↔ (Selected ucs ex str × (rest ≡ kept))
  unfolding test_pattern
  pattern-kept none none str rest made = (λ h. (tt, h), λ h. h.1)
  pattern-kept (some ex) none str rest made = absurd made
  pattern-kept none (some nodes) str rest made = absurd made
  pattern-kept (some ex) (some nodes) none rest made = (λ h. absurd (cc), λ h. absurd h.0)
  pattern-kept (some ex) (some nodes) (some u) rest made = exec-kept ex nodes u rest made

  catalog-kept :
      (ex : Option (List ℕ)) (nodes : Option (List Node)) (current_db : Bool) (db str : Text)
      (rest : Verdict)
      → Compiled ex nodes
      → (test_catalog (opened ucs) nodes current_db db str rest ≡ kept)
        ↔ (CatalogSelected ucs ex current_db db str × (rest ≡ kept))
  unfolding test_catalog
  catalog-kept (some ex) (some nodes) current_db db str rest made = exec-kept ex nodes str rest made
  catalog-kept (some ex) none current_db db str rest made = absurd made
  catalog-kept none (some nodes) current_db db str rest made = absurd made
  catalog-kept none none false db str rest made = (λ h. (tt, h), λ h. h.1)
  catalog-kept none none true db str rest made =
      let go = then_test-kept (text_eq db str) rest in
      (
        λ h. let (e, k) = go.0 h in (text_eq_sound db str e, k),
        λ (e, k). go.1 (subst (λ u. text_eq db u ≡ true) e (text_eq_self db), k),
      )

-- The column's text is one of the types, where there are any.
abbrev pub TypeSelected : List Text → Option Text → Type 0
TypeSelected [] str = Unit {0}
TypeSelected (t ∷ ts) none = ⊥
TypeSelected (t ∷ ts) (some u) = In u (t ∷ ts)

types-kept :
    (types : List Text) (str : Option Text)
    → (test_types types str kept ≡ kept) ↔ TypeSelected types str
unfolding test_types
types-kept [] str = (λ h. tt, λ h. refl)
types-kept (t ∷ ts) none = (λ h. absurd (cc), λ h. absurd h)
types-kept (t ∷ ts) (some u) =
    let go = then_test-kept (match_types (t ∷ ts) u) kept in
    let m = match_types-In (t ∷ ts) u in (λ h. m.0 (go.0 h).0, λ h. go.1 (m.1 h, refl))

-- What the arguments of SQLTables ask for; the patterns are in UCS-4.
pub record Asked : Type 0 where
  pub catalog : Option (List ℕ)
  pub schema : Option (List ℕ)
  pub table : Option (List ℕ)

-- A row that the arguments select.
abbrev pub Wanted : {F : Type 0} → (Text → Option (List ℕ)) → Asked → Tables F → Row F → Type 0
Wanted ucs a t row =
    (cat : Text) × (row_text row 0 ≡ some cat)
    × CatalogSelected ucs a.catalog t.select_current_db t.db cat
    × Selected ucs a.schema (row_text row 1)
    × Selected ucs a.table (row_text row 2)
    × TypeSelected t.table_types (row_text row 3)

row_kept :
    {F : Type 0} (ucs : Text → Option (List ℕ)) (a : Asked) (t : Tables F) (row : Row F)
    (o : Option Text)
    → ((u : Text) (s : List ℕ) → ucs u ≡ some s → IsText s)
    → Compiled a.catalog t.catalog_pattern
    → Compiled a.schema t.schema_pattern
    → Compiled a.table t.table_pattern
    → row_text row 0 ≡ o
    → ((elim o [
      | none ↦ failing
      | some cat ↦ test_catalog (opened ucs) t.catalog_pattern t.select_current_db t.db cat (
          test_pattern (opened ucs) t.schema_pattern (row_text row 1) (
            test_pattern
              (opened ucs)
              t.table_pattern
              (row_text row 2)
              (test_types t.table_types (row_text row 3) kept)))
    ])
        ≡ kept)
      ↔ Wanted ucs a t row
row_kept ucs a t row none texts c1 c2 c3 e =
    (λ h. absurd (cc), λ (cat, e', x, y, z, w). absurd (none-some (sym e ∙ e')))
row_kept ucs a t row (some cat) texts c1 c2 c3 e =
    let types = types-kept t.table_types (row_text row 3) in
    let table = pattern-kept ucs texts a.table t.table_pattern (row_text row 2) _ c3 in
    let schema = pattern-kept ucs texts a.schema t.schema_pattern (row_text row 1) _ c2 in
    let catalog =
      catalog-kept ucs texts a.catalog t.catalog_pattern t.select_current_db t.db cat _ c1 in
    (
      λ h.
          let (x, h1) = catalog.0 h in
          let (y, h2) = schema.0 h1 in let (z, h3) = table.0 h2 in (cat, e, x, y, z, types.0 h3),
      λ (cat', e', x, y, z, w). catalog.1 (
        subst (λ u. CatalogSelected ucs a.catalog t.select_current_db t.db u)
            (some_same (sym e' ∙ e)) x,
        schema.1 (y, table.1 (z, types.1 w)),
      ),
    )

-- Of the rows of SQLTables with patterns that wildcomp compiled, where iconv opens and gives texts
-- without a zero inside, _fetch_row_with_tsdb keeps exactly those whose catalog, schema and name
-- are texts that the patterns stand for, as far as there are patterns, whose catalog is the current
-- database where none is given and the current one is selected, and whose type is one of the list,
-- unless that is empty.
pub row_verdict-Wanted :
    {F : Type 0} (ucs : Text → Option (List ℕ)) (a : Asked) (t : Tables F) (row : Row F)
    → ((u : Text) (s : List ℕ) → ucs u ≡ some s → IsText s)
    → Compiled a.catalog t.catalog_pattern
    → Compiled a.schema t.schema_pattern
    → Compiled a.table t.table_pattern
    → (row_verdict (opened ucs) t row ≡ kept) ↔ Wanted ucs a t row
unfolding row_verdict
row_verdict-Wanted ucs a t row texts c1 c2 c3 =
    row_kept ucs a t row (row_text row 0) texts c1 c2 c3 refl
