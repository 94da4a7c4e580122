-- ===== src/Wildcard/Rounds.antt =====
-- src/utils/utils.c: what one round of the loop of _wild_comp does, by the character.
use taos_connector_odbc.Prelude.{
  ℕ, zero, suc, ◌==◌, Bool, true, false, some, List, [], ◌∷◌, ◌++◌, map, replicate, All, ◌≡◌, refl,
  sym, ap, ◌∙◌, Bool-cases, inl, inr,
}
use mathlib.Core.Path.{subst}
use taos_connector_odbc.Wildcard.{
  Node, match_all, match_one, match_specific, Prev, no_prev, prev_all, prev_one, Comp, lengthen,
  comp_percent, comp_underscore, comp_char, backslash, percent, underscore,
}
use taos_connector_odbc.Wildcard.Like.{Token, literal, any_one, any_run, token_of, squeeze}
use taos_connector_odbc.Wildcard.Executed.{IsNode}
use taos_connector_odbc.Wildcard.Steps.{
  tokens_before, is_all, Tidy, Between, IsGood, Stepped, flushed, backslash-Stepped,
  escaped-Stepped, new-run,
}

Between-none : (b : Bool) → Between b []
Between-none true = refl
Between-none false = tt

-- One more of a kind: only what lies between is dropped, of which there is nothing.
percent-Stepped :
    (p : Prev) (st : Comp)
    → st.prev ≡ p
    → st.escaping ≡ false
    → IsGood st
    → Stepped (some (some any_run, false)) st (comp_percent true p st)
unfolding comp_percent
percent-Stepped no_prev st e f g =
    new-run match_all prev_all any_run st g tt refl
      (λ ts. ap (λ q. squeeze (is_all q) (any_run ∷ ts)) (sym e))
percent-Stepped prev_one st e f g =
    new-run match_all prev_all any_run st g tt refl
      (λ ts. ap (λ q. squeeze (is_all q) (any_run ∷ ts)) (sym e))
percent-Stepped prev_all st e f g =
    let none_between = subst (λ q. Tidy q st.nodes st.span) e g.tidy in
    (
      record st { span = [] },
      refl,
      record {
        nodes_ok = g.nodes_ok;
        tidy = subst (λ q. Tidy q st.nodes []) (sym e) refl;
        between = Between-none st.escaping;
      },
      f,
      λ ts.
          ap (λ x. tokens_before st.nodes (map literal x ++ squeeze (is_all st.prev) ts))
            (sym none_between)
          ∙ ap (λ us. tokens_before st.nodes (map literal st.span ++ us))
              (subst (λ q. squeeze (is_all q) ts ≡ squeeze (is_all q) (any_run ∷ ts)) (sym e) refl),
    )

more_ones :
    (k : ℕ) (ts : List Token)
    → replicate (suc k) any_one ++ ts ≡ replicate k any_one ++ any_one ∷ ts
more_ones zero ts = refl
more_ones (suc k) ts = ap (λ us. any_one ∷ us) (more_ones k ts)

lengthen-Stepped :
    (nodes : List Node) (span : List ℕ) (k : ℕ) (later : List Node)
    → All IsNode nodes
    → span ≡ []
    → nodes ≡ match_one (suc k) ∷ later
    → All IsNode (lengthen nodes)
      × Tidy prev_one (lengthen nodes) []
      × ((ts : List Token)
          → tokens_before (lengthen nodes) (squeeze false ts)
            ≡ tokens_before nodes (map literal span ++ any_one ∷ squeeze false ts))
unfolding lengthen
lengthen-Stepped [] span k later h e q = absurd (cc q)
lengthen-Stepped (match_all ∷ nodes) span k later h e q = absurd (cc q)
lengthen-Stepped (match_specific cs ∷ nodes) span k later h e q = absurd (cc q)
lengthen-Stepped (match_one zero ∷ nodes) span k later h e q = elim h.0 [ ]
lengthen-Stepped (match_one (suc n) ∷ nodes) span k later h e q = (
  (tt, h.1),
  (refl, (suc n, nodes, refl)),
  λ ts.
      ap (tokens_before nodes) (more_ones (suc n) (squeeze false ts))
      ∙ ap
          (λ x.
            tokens_before nodes
              (replicate (suc n) any_one ++ (map literal x ++ any_one ∷ squeeze false ts)))
          (sym e),
)

underscore-Stepped :
    (p : Prev) (st : Comp)
    → st.prev ≡ p
    → st.escaping ≡ false
    → IsGood st
    → Stepped (some (some any_one, false)) st (comp_underscore true p st)
unfolding comp_underscore
underscore-Stepped no_prev st e f g =
    new-run (match_one 1) prev_one any_one st g tt (refl, (0, flushed st.span st.nodes, refl))
      (λ ts. refl)
underscore-Stepped prev_all st e f g =
    new-run (match_one 1) prev_one any_one st g tt (refl, (0, flushed st.span st.nodes, refl))
      (λ ts. refl)
underscore-Stepped prev_one st e f g =
    let (none_between, (k, later, last)) = subst (λ q. Tidy q st.nodes st.span) e g.tidy in
    let (ok, tidy, eq) = lengthen-Stepped st.nodes st.span k later g.nodes_ok none_between last in
    (
      record st { nodes = lengthen st.nodes; span = [] },
      refl,
      record {
        nodes_ok = ok;
        tidy = subst (λ q. Tidy q (lengthen st.nodes) []) (sym e) tidy;
        between = Between-none st.escaping;
      },
      f,
      λ ts. ap (λ q. tokens_before (lengthen st.nodes) (squeeze (is_all q) ts)) e ∙ eq ts,
    )

map_snoc :
    (span : List ℕ) (c : ℕ) (ts : List Token)
    → map literal (span ++ c ∷ []) ++ ts ≡ map literal span ++ literal c ∷ ts
map_snoc [] c ts = refl
map_snoc (d ∷ span) c ts = ap (λ us. literal d ∷ us) (map_snoc span c ts)

plain-Stepped :
    (c : ℕ) (st : Comp)
    → st.escaping ≡ false
    → IsGood st
    → Stepped
        (some (some (literal c), false))
        st
        (some (record st { prev = no_prev; span = st.span ++ c ∷ [] }))
plain-Stepped c st f g = (
  _,
  refl,
  record {
    nodes_ok = g.nodes_ok;
    tidy = tt;
    between = subst (λ b. Between b (st.span ++ c ∷ [])) (sym f) tt;
  },
  f,
  λ ts. ap (tokens_before st.nodes) (map_snoc st.span c (squeeze false ts)),
)

pub char-Stepped :
    (c : ℕ) (st : Comp) (b : Bool)
    → st.escaping ≡ b
    → IsGood st
    → Stepped (token_of b c) st (comp_char true b c st)
unfolding comp_char
char-Stepped c st true e g =
    let none_between = subst (λ b. Between b st.span) e g.between in
    let escaped = escaped-Stepped c st g none_between in
    elim (Bool-cases (c == backslash)) [
      | inl h ↦ rw h refl
      | inr h ↦ elim (Bool-cases (c == percent)) [
        | inl p ↦ rw (h, p) escaped
        | inr p ↦ elim (Bool-cases (c == underscore)) [
          | inl u ↦ rw (h, p, u) escaped
          | inr u ↦ rw (h, p, u) refl
        ]
      ]
    ]
char-Stepped c st false e g = elim (Bool-cases (c == backslash)) [
  | inl h ↦ rw h (backslash-Stepped st g)
  | inr h ↦ elim (Bool-cases (c == percent)) [
    | inl p ↦ rw (h, p) (percent-Stepped st.prev st refl e g)
    | inr p ↦ elim (Bool-cases (c == underscore)) [
      | inl u ↦ rw (h, p, u) (underscore-Stepped st.prev st refl e g)
      | inr u ↦ rw (h, p, u) (plain-Stepped c st e g)
    ]
  ]
]
