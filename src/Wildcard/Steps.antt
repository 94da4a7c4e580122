-- ===== src/Wildcard/Steps.antt =====
-- src/utils/utils.c: what one round of the loop of _wild_comp does to the nodes.
use taos_connector_odbc.Prelude.{
  ℕ, suc, ◌%◌, ◌==◌, Bool, true, false, Option, none, some, List, [], ◌∷◌, ◌++◌, map, length, All,
  ◌≡◌, refl, sym, ap, ◌∙◌, Bool-cases, inl, inr,
}
use mathlib.Core.Path.{subst}
use taos_connector_odbc.Wildcard.{
  Node, match_one, match_specific, Prev, no_prev, prev_all, prev_one, Comp, wild_append, flush,
  comp_escaped, comp_new, comp_backslash,
}
use taos_connector_odbc.Wildcard.Like.{Token, literal, emit, squeeze}
use taos_connector_odbc.Wildcard.Executed.{node_tokens, IsNode}

-- Nodes, newest first, before other tokens.
abbrev pub tokens_before : List Node → List Token → List Token
tokens_before [] ts = ts
tokens_before (n ∷ nodes) ts = tokens_before nodes (node_tokens n ++ ts)

abbrev pub is_all : Prev → Bool
is_all prev_all = true
is_all _ = false

-- What the state stands for, before the tokens to come.
abbrev pub meaning : Comp → List Token → List Token
meaning st ts = tokens_before st.nodes (map literal st.span ++ squeeze (is_all st.prev) ts)

-- Behind `%` or `_` nothing lies between, and the node of `_` is the last.
abbrev pub Tidy : Prev → List Node → List ℕ → Type 0
Tidy no_prev nodes span = Unit
Tidy prev_all nodes span = span ≡ []
Tidy prev_one nodes span =
    (span ≡ []) × ((k : ℕ) × (later : List Node) × (nodes ≡ match_one (suc k) ∷ later))

abbrev pub Between : Bool → List ℕ → Type 0
Between true span = span ≡ []
Between false span = Unit

pub record IsGood (st : Comp) : Type 0 where
  pub nodes_ok : All IsNode st.nodes
  pub tidy : Tidy st.prev st.nodes st.span
  pub between : Between st.escaping st.span

-- What a round does for a character with token `t`.
abbrev pub Stepped : Option (Option Token × Bool) → Comp → Option Comp → Type 0
Stepped none st o = o ≡ none
Stepped (some (t, escaping)) st o =
    (st' : Comp) × (o ≡ some st')
    × IsGood st'
    × (st'.escaping ≡ escaping)
    × ((ts : List Token) → meaning st' ts ≡ meaning st (emit t ts))

pub append-true : (n : Node) (nodes : List Node) → wild_append true n nodes ≡ some (n ∷ nodes)
unfolding wild_append
append-true n nodes = elim (Bool-cases (length nodes % 16 == 0)) [
  | inl e ↦ rw e refl
  | inr e ↦ rw e refl
]

abbrev pub flushed : List ℕ → List Node → List Node
flushed [] nodes = nodes
flushed (c ∷ cs) nodes = match_specific (c ∷ cs) ∷ nodes

pub flush-true :
    (span : List ℕ) (nodes : List Node) → flush true span nodes ≡ some (flushed span nodes)
unfolding flush
flush-true [] nodes = refl
flush-true (c ∷ cs) nodes = append-true _ nodes

pub flushed-before :
    (span : List ℕ) (nodes : List Node) (ts : List Token)
    → tokens_before (flushed span nodes) ts ≡ tokens_before nodes (map literal span ++ ts)
flushed-before [] nodes ts = refl
flushed-before (c ∷ cs) nodes ts = refl

pub flushed-nodes :
    (span : List ℕ) (nodes : List Node) → All IsNode nodes → All IsNode (flushed span nodes)
flushed-nodes [] nodes h = h
flushed-nodes (c ∷ cs) nodes h = (tt, h)

pub flushed-Tidy :
    (prev : Prev) (nodes : List Node) (span : List ℕ)
    → Tidy prev nodes span
    → Tidy prev (flushed span nodes) []
flushed-Tidy no_prev nodes span t = tt
flushed-Tidy prev_all nodes span t = refl
flushed-Tidy prev_one nodes span (e, last) =
    subst (λ x. Tidy prev_one (flushed x nodes) []) (sym e) (refl, last)

pub backslash-Stepped :
    (st : Comp) → IsGood st → Stepped (some (none, true)) st (comp_backslash true st)
unfolding comp_backslash
backslash-Stepped st g = (
  record st { nodes = flushed st.span st.nodes; escaping = true; span = [] },
  rw (flush-true st.span st.nodes) refl,
  record {
    nodes_ok = flushed-nodes st.span st.nodes g.nodes_ok;
    tidy = flushed-Tidy st.prev st.nodes st.span g.tidy;
    between = refl;
  },
  refl,
  λ ts. flushed-before st.span st.nodes _,
)

pub escaped-Stepped :
    (c : ℕ) (st : Comp)
    → IsGood st
    → st.span ≡ []
    → Stepped (some (some (literal c), false)) st (comp_escaped true c st)
unfolding comp_escaped
escaped-Stepped c st g e = (
  record {
    nodes = match_specific (c ∷ []) ∷ st.nodes;
    prev = no_prev;
    escaping = false;
    span = [];
  },
  rw (append-true (match_specific (c ∷ [])) st.nodes) refl,
  record { nodes_ok = (tt, g.nodes_ok); tidy = tt; between = tt },
  refl,
  λ ts. ap (λ x. tokens_before st.nodes (map literal x ++ literal c ∷ squeeze false ts)) (sym e),
)

pub new-run :
    (n : Node) (prev : Prev) (t : Token) (st : Comp)
    → IsGood st
    → IsNode n
    → Tidy prev (n ∷ flushed st.span st.nodes) []
    → ((ts : List Token)
        → node_tokens n ++ squeeze (is_all prev) ts ≡ squeeze (is_all st.prev) (t ∷ ts))
    → Stepped (some (some t, false)) st (comp_new true n prev st)
unfolding comp_new
new-run n prev t st g i tidy eq = (
  record { nodes = n ∷ flushed st.span st.nodes; prev = prev; escaping = false; span = [] },
  rw (flush-true st.span st.nodes, append-true n (flushed st.span st.nodes)) refl,
  record { nodes_ok = (i, flushed-nodes st.span st.nodes g.nodes_ok); tidy = tidy; between = tt },
  refl,
  λ ts.
      flushed-before st.span st.nodes _
      ∙ ap (λ us. tokens_before st.nodes (map literal st.span ++ us)) (eq ts),
)
