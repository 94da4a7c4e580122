-- ===== src/Wildcard/Executed.antt =====
-- src/utils/utils.c: _wild_exec decides what the nodes of a pattern stand for.
use taos_connector_odbc.Prelude.{
  ℕ, zero, suc, ◌==◌, Bool, true, false, List, [], ◌∷◌, ◌++◌, map, replicate, All, ◌≡◌, ◌≢◌, refl,
  sym, ap, ◌∙◌, ◌↔◌, ◌⊎◌, arith, Bool-cases, inl, inr, ==_iff,
}
use mathlib.Core.Path.{subst}
use taos_connector_odbc.Wildcard.{
  Node, match_all, match_one, match_specific, skip_chars, skip_specific, match_from, is_end,
  and_then, one_chars, wild_exec,
}
use taos_connector_odbc.Wildcard.Like.{
  Token, literal, any_one, any_run, Matches, at_end, same, one, stop, more, closed, any_string,
  NoRepeat,
}

abbrev pub node_tokens : Node → List Token
node_tokens match_all = any_run ∷ []
node_tokens (match_one k) = replicate k any_one
node_tokens (match_specific cs) = map literal cs

abbrev pub tokens_of : List Node → List Token
tokens_of [] = []
tokens_of (n ∷ nodes) = node_tokens n ++ tokens_of nodes

-- A node stands for one token at least.
abbrev pub IsNode : Node → Type 0
IsNode match_all = Unit
IsNode (match_one zero) = ⊥
IsNode (match_one (suc k)) = Unit
IsNode (match_specific []) = ⊥
IsNode (match_specific (c ∷ cs)) = Unit

-- A string has no zero inside.
abbrev pub IsText : List ℕ → Type 0
IsText s = All (λ c. c ≢ 0) s

-- `f` decides what the tokens `ts` stand for.
abbrev Decides : (List ℕ → Bool) → List Token → Type 0
Decides f ts = (s : List ℕ) → IsText s → (f s ≡ true) ↔ Matches ts s

no_literal : (c : ℕ) (ts : List Token) → ¬ Matches (literal c ∷ ts) []
no_literal c ts m = elim m [ ]

no_one : (ts : List Token) → ¬ Matches (any_one ∷ ts) []
no_one ts m = elim m [ ]

same_head :
    {c c' : ℕ} {ts : List Token} {s : List ℕ}
    → Matches (literal c ∷ ts) (c' ∷ s)
    → (c ≡ c') × Matches ts s
same_head (same m) = (refl, m)

one_tail : {c : ℕ} {ts : List Token} {s : List ℕ} → Matches (any_one ∷ ts) (c ∷ s) → Matches ts s
one_tail (one m) = m

specific-Decides :
    (cs : List ℕ) (f : List ℕ → Bool) (ts : List Token)
    → Decides f ts
    → Decides (λ s. and_then (skip_specific cs s) f) (map literal cs ++ ts)
unfolding skip_specific
specific-Decides [] f ts d s t = d s t
specific-Decides (c ∷ cs) f ts d [] t = (λ e. absurd (cc e), λ m. absurd (no_literal c _ m))
specific-Decides (c ∷ cs) f ts d (c' ∷ s) t =
    let ih = specific-Decides cs f ts d s t.1 in
    elim (Bool-cases (c == c')) [
      | inl e ↦
          let eq : c ≡ c' = (==_iff c c').0 e in
          rw e (
            λ h. subst (λ x. Matches (literal c ∷ map literal cs ++ ts) (x ∷ s)) eq (same (ih.0 h)),
            λ m. ih.1 (same_head m).1,
          )
      | inr e ↦ rw e (λ h. absurd (cc h), λ m. absurd (cc ((==_iff c c').1 (same_head m).0, e)))
    ]

chars-Decides :
    (k : ℕ) (f : List ℕ → Bool) (ts : List Token)
    → Decides f ts
    → Decides (λ s. and_then (skip_chars k s) f) (replicate k any_one ++ ts)
unfolding skip_chars
chars-Decides zero f ts d s t = d s t
chars-Decides (suc k) f ts d [] t = (λ e. absurd (cc e), λ m. absurd (no_one _ m))
chars-Decides (suc k) f ts d (c ∷ s) t =
    let ih = chars-Decides k f ts d s t.1 in
    let e : (c == 0) ≡ false = ground (arith, t.0) in
    rw e (λ h. one (ih.0 h), λ m. ih.1 (one_tail m))

one_chars-Decides :
    (k : ℕ) (f : List ℕ → Bool) (ts : List Token)
    → IsNode (match_one k)
    → Decides f ts
    → Decides (one_chars k f) (replicate k any_one ++ ts)
unfolding one_chars
one_chars-Decides zero f ts i d s t = elim i [ ]
one_chars-Decides (suc k) f ts i d [] t = (λ e. absurd (cc e), λ m. absurd (no_one _ m))
one_chars-Decides (suc k) f ts i d (c ∷ s) t =
    let e : (c == 0) ≡ false = ground (arith, t.0) in
    let h = chars-Decides k f ts d s t.1 in rw e (λ m. one (h.0 m), λ m. h.1 (one_tail m))

run_cases :
    {c : ℕ} {ts : List Token} {s : List ℕ}
    → Matches (any_run ∷ ts) (c ∷ s)
    → Matches ts (c ∷ s) ⊎ Matches (any_run ∷ ts) s
run_cases (stop m) = inl m
run_cases (more m) = inr m

run_end : {ts : List Token} → Matches (any_run ∷ ts) [] → Matches ts []
run_end (stop m) = m

run-Decides :
    (f : List ℕ → Bool) (ts : List Token)
    → Decides f ts
    → ¬ Matches ts []
    → Decides (match_from f) (any_run ∷ ts)
unfolding match_from
run-Decides f ts d n [] t = (λ e. absurd (cc e), λ m. absurd (n (run_end m)))
run-Decides f ts d n (c ∷ s) t =
    let ih = run-Decides f ts d n s t.1 in
    let here = d (c ∷ s) t in
    let e : (c == 0) ≡ false = ground (arith, t.0) in
    rw e (elim (Bool-cases (f (c ∷ s))) [
      | inl h ↦ rw h (λ _. stop (here.0 h), λ _. refl)
      | inr h ↦ rw h (
        λ l. more (ih.0 l),
        λ m. elim (run_cases m) [ inl m' ↦ absurd (cc (here.1 m', h)) | inr m' ↦ ih.1 m' ],
      )
    ])

end-Decides : Decides is_end []
end-Decides [] t = (λ _. at_end, λ _. refl)
end-Decides (c ∷ s) t = (λ e. absurd (cc e), λ m. elim m [ ])

anything-Decides : Decides (λ s. true) (any_run ∷ [])
anything-Decides s t = (λ _. any_string s, λ _. refl)

closed-ones :
    (k : ℕ) (ts : List Token)
    → closed (replicate k any_one ++ ts) ≡ replicate k any_one ++ closed ts
closed-ones zero ts = refl
closed-ones (suc k) ts = ap (λ us. any_one ∷ us) (closed-ones k ts)

-- Literals, before something and at the end.
closed-literals :
    (cs : List ℕ) (t : Token) (ts : List Token)
    → closed (map literal cs ++ t ∷ ts) ≡ map literal cs ++ closed (t ∷ ts)
closed-literals [] t ts = refl
closed-literals (c ∷ []) t ts = refl
closed-literals (c ∷ d ∷ cs) t ts = ap (λ us. literal c ∷ us) (closed-literals (d ∷ cs) t ts)

closed-last :
    (c : ℕ) (cs : List ℕ)
    → closed (map literal (c ∷ cs) ++ []) ≡ map literal (c ∷ cs) ++ any_run ∷ []
closed-last c [] = refl
closed-last c (d ∷ cs) = ap (λ us. literal c ∷ us) (closed-last d cs)

-- The tokens of nodes start with one.
starts :
    (n : Node) (nodes : List Node)
    → IsNode n
    → (t : Token) × (ts : List Token) × (tokens_of (n ∷ nodes) ≡ t ∷ ts)
starts match_all nodes i = (any_run, tokens_of nodes, refl)
starts (match_one zero) nodes i = elim i [ ]
starts (match_one (suc k)) nodes i = (any_one, replicate k any_one ++ tokens_of nodes, refl)
starts (match_specific []) nodes i = elim i [ ]
starts (match_specific (c ∷ cs)) nodes i = (literal c, map literal cs ++ tokens_of nodes, refl)

closed_literal : (c : ℕ) (ts : List Token) → ¬ Matches (closed (literal c ∷ ts)) []
closed_literal c [] = no_literal c _
closed_literal c (t ∷ ts) = no_literal c _

not_empty_closed :
    (n : Node) (nodes : List Node)
    → IsNode n
    → NoRepeat true (tokens_of (n ∷ nodes))
    → ¬ Matches (closed (tokens_of (n ∷ nodes))) []
not_empty_closed match_all nodes i r = elim r [ ]
not_empty_closed (match_one zero) nodes i r = elim i [ ]
not_empty_closed (match_one (suc k)) nodes i r = no_one _
not_empty_closed (match_specific []) nodes i r = elim i [ ]
not_empty_closed (match_specific (c ∷ cs)) nodes i r = closed_literal c _

NoRepeat-literals :
    (cs : List ℕ) (after : Bool) (ts : List Token)
    → NoRepeat after (map literal cs ++ ts)
    → IsNode (match_specific cs)
    → NoRepeat false ts
NoRepeat-literals [] after ts r i = elim i [ ]
NoRepeat-literals (c ∷ []) after ts r i = r
NoRepeat-literals (c ∷ d ∷ cs) after ts r i = NoRepeat-literals (d ∷ cs) false ts r tt

NoRepeat-ones :
    (k : ℕ) (after : Bool) (ts : List Token)
    → NoRepeat after (replicate k any_one ++ ts)
    → IsNode (match_one k)
    → NoRepeat false ts
NoRepeat-ones zero after ts r i = elim i [ ]
NoRepeat-ones (suc zero) after ts r i = r
NoRepeat-ones (suc (suc k)) after ts r i = NoRepeat-ones (suc k) false ts r tt

pub wild_exec-Decides :
    (nodes : List Node)
    → All IsNode nodes
    → (after : Bool) → NoRepeat after (tokens_of nodes)
    → Decides (wild_exec nodes) (closed (tokens_of nodes))
unfolding wild_exec
wild_exec-Decides [] i a r = end-Decides
wild_exec-Decides (match_all ∷ []) i a r = anything-Decides
wild_exec-Decides (match_all ∷ n ∷ nodes) i true r = elim r [ ]
wild_exec-Decides (match_all ∷ n ∷ nodes) i false r =
    run-Decides (wild_exec (n ∷ nodes)) (closed (tokens_of (n ∷ nodes)))
      (wild_exec-Decides (n ∷ nodes) i.1 true r) (not_empty_closed n nodes i.1.0 r)
wild_exec-Decides (match_one k ∷ []) i a r =
    subst (Decides (wild_exec (match_one k ∷ []))) (sym (closed-ones k []))
      (one_chars-Decides k is_end [] i.0 end-Decides)
wild_exec-Decides (match_one k ∷ n ∷ nodes) i a r =
    subst (Decides (wild_exec (match_one k ∷ n ∷ nodes)))
      (sym (closed-ones k (tokens_of (n ∷ nodes))))
      (one_chars-Decides k (wild_exec (n ∷ nodes)) (closed (tokens_of (n ∷ nodes))) i.0
        (wild_exec-Decides (n ∷ nodes) i.1 false (NoRepeat-ones k a _ r i.0)))
wild_exec-Decides (match_specific [] ∷ []) i a r = elim i.0 [ ]
wild_exec-Decides (match_specific (c ∷ cs) ∷ []) i a r =
    subst (Decides (wild_exec (match_specific (c ∷ cs) ∷ []))) (sym (closed-last c cs))
      (specific-Decides (c ∷ cs) (λ s. true) (any_run ∷ []) anything-Decides)
wild_exec-Decides (match_specific cs ∷ n ∷ nodes) i a r =
    let (t, ts, e) = starts n nodes i.1.0 in
    let e' =
      ap (λ us. closed (map literal cs ++ us)) e
      ∙ closed-literals cs t ts
      ∙ ap (λ us. map literal cs ++ closed us) (sym e) in
    subst (Decides (wild_exec (match_specific cs ∷ n ∷ nodes))) (sym e') (
      specific-Decides cs (wild_exec (n ∷ nodes)) (closed (tokens_of (n ∷ nodes)))
        (wild_exec-Decides (n ∷ nodes) i.1 false (NoRepeat-literals cs a _ r i.0)))
