-- ===== src/Wildcard/Compiled.antt =====
-- src/utils/utils.c: _wild_comp makes nodes that stand for the tokens of the pattern.
use taos_connector_odbc.Prelude.{
  ℕ, Bool, true, false, Option, none, some, List, [], ◌∷◌, All, ◌≡◌, ◌↔◌, refl, sym, ap, ◌∙◌,
}
use mathlib.Core.Path.{subst}
use taos_connector_odbc.Wildcard.{
  Node, Comp, comp_step, comp_from, start_comp, wild_comp, in_order, wild_exec, bind,
}
use taos_connector_odbc.Wildcard.Like.{
  Token, emit, token_of, tokens_from, tokens, Matches, closed, Matches-squeeze, NoRepeat,
  squeeze-NoRepeat,
}
use taos_connector_odbc.Wildcard.Steps.{
  tokens_before, meaning, Stepped, IsGood, flushed, flush-true, flushed-before, flushed-nodes,
}
use taos_connector_odbc.Wildcard.Rounds.{char-Stepped}
use taos_connector_odbc.Wildcard.Executed.{tokens_of, IsNode, IsText, wild_exec-Decides}

-- What the compiled pattern is, by the tokens to come.
abbrev Compiles : Option (List Token) → Comp → Option (List Node) → Type 0
Compiles none st o = o ≡ none
Compiles (some ts) st o =
    (nodes : List Node) × (o ≡ some nodes) × All IsNode nodes × (tokens_of nodes ≡ meaning st ts)

tokens_of-in_order :
    (nodes later : List Node)
    → tokens_of (in_order nodes later) ≡ tokens_before nodes (tokens_of later)
tokens_of-in_order [] later = refl
tokens_of-in_order (n ∷ nodes) later = tokens_of-in_order nodes (n ∷ later)

in_order-nodes :
    (nodes later : List Node)
    → All IsNode nodes
    → All IsNode later
    → All IsNode (in_order nodes later)
in_order-nodes [] later h l = l
in_order-nodes (n ∷ nodes) later h l = in_order-nodes nodes (n ∷ later) h.1 (h.0, l)

emit-Compiles :
    (o : Option Token) (y : Option (List Token)) (st st' : Comp) (x r : Option (List Node))
    → x ≡ r
    → ((ts : List Token) → meaning st' ts ≡ meaning st (emit o ts))
    → Compiles y st' r
    → Compiles (bind y λ ts. some (emit o ts)) st x
emit-Compiles o none st st' x r e eq h = e ∙ h
emit-Compiles o (some ts) st st' x r e eq (nodes, run, ok, m) = (nodes, e ∙ run, ok, m ∙ eq ts)

next-Compiles :
    (c : ℕ) (cs : List ℕ) (st : Comp) (x : Option (Option Token × Bool))
    → ((st' : Comp)
        → IsGood st'
        → Compiles (tokens_from st'.escaping cs) st' (comp_from true cs st'))
    → Stepped x st (comp_step true c st)
    → Compiles
        (bind x λ (o, escaping). bind (tokens_from escaping cs) λ ts. some (emit o ts))
        st
        (bind (comp_step true c st) (comp_from true cs))
next-Compiles c cs st none ih h = ap (λ o. bind o (comp_from true cs)) h
next-Compiles c cs st (some (o, escaping)) ih (st', run, g, e, eq) =
    emit-Compiles o (tokens_from escaping cs) st st' _ (comp_from true cs st')
      (ap (λ x. bind x (comp_from true cs)) run) eq
      (subst (λ b. Compiles (tokens_from b cs) st' (comp_from true cs st')) e (ih st' g))

comp_from-Compiles :
    (cs : List ℕ) (st : Comp)
    → IsGood st
    → Compiles (tokens_from st.escaping cs) st (comp_from true cs st)
unfolding comp_from comp_step
comp_from-Compiles [] st g = (
  in_order (flushed st.span st.nodes) [],
  rw (flush-true st.span st.nodes) refl,
  in_order-nodes (flushed st.span st.nodes) [] (flushed-nodes st.span st.nodes g.nodes_ok) tt,
  tokens_of-in_order (flushed st.span st.nodes) [] ∙ flushed-before st.span st.nodes [],
)
comp_from-Compiles (c ∷ cs) st g =
    next-Compiles c cs st (token_of st.escaping c) (comp_from-Compiles cs)
      (char-Stepped c st st.escaping refl g)

-- What compiling a pattern and running it over `s` do, by the pattern's tokens.
abbrev pub Agrees : Option (List Token) → Option (List Node) → List ℕ → Type 0
Agrees none o s = o ≡ none
Agrees (some ts) o s =
    (nodes : List Node) × (o ≡ some nodes) × ((wild_exec nodes s ≡ true) ↔ Matches (closed ts) s)

Compiles-Agrees :
    (y : Option (List Token)) (o : Option (List Node)) (s : List ℕ)
    → IsText s
    → Compiles y start_comp o
    → Agrees y o s
Compiles-Agrees none o s t h = h
Compiles-Agrees (some ts) o s t (nodes, run, ok, m) =
    let sq = subst (NoRepeat false) (sym m) (squeeze-NoRepeat false ts) in
    let d =
      subst (λ us. (wild_exec nodes s ≡ true) ↔ Matches (closed us) s) m
        (wild_exec-Decides nodes ok false sq s t) in
    let q = Matches-squeeze ts s in (nodes, run, (λ h. q.0 (d.0 h), λ h. d.1 (q.1 h)))

-- Where memory is there: compiling a pattern fails exactly if it escapes a character other than
-- `%` and `_`; and on a string without a zero inside, the nodes that it gives match exactly the
-- strings that the pattern stands for, where a pattern that ends in a character stands for the
-- strings with anything behind it.
pub wild_comp-Agrees : (ex s : List ℕ) → IsText s → Agrees (tokens ex) (wild_comp true ex) s
unfolding wild_comp
wild_comp-Agrees ex s t =
    Compiles-Agrees (tokens ex) (comp_from true ex start_comp) s t
      (comp_from-Compiles ex start_comp (record { nodes_ok = tt; tidy = tt; between = tt }))
