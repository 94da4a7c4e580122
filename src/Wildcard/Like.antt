-- ===== src/Wildcard/Like.antt =====
-- What a pattern of src/utils/utils.c means: `%` stands for any characters, `_` for one, and a
-- backslash takes either literally.
use taos_connector_odbc.Prelude.{
  ℕ, ◌==◌, if◌then◌else◌, Bool, true, false, Option, none, some, List, [], ◌∷◌, ◌≡◌, refl, sym, ap,
  ◌↔◌,
}
use mathlib.Core.Path.{subst}
use taos_connector_odbc.Wildcard.{backslash, percent, underscore, bind}

pub data Token : Type 0 where
  literal : ℕ → Token
  any_one any_run : Token

-- The strings that tokens stand for.
pub data Matches : List Token → List ℕ → Type 0 where
  at_end : Matches [] []
  same : {c : ℕ} {ts : List Token} {s : List ℕ} → Matches ts s → Matches (literal c ∷ ts) (c ∷ s)
  one : {c : ℕ} {ts : List Token} {s : List ℕ} → Matches ts s → Matches (any_one ∷ ts) (c ∷ s)
  stop : {ts : List Token} {s : List ℕ} → Matches ts s → Matches (any_run ∷ ts) s
  more :
      {c : ℕ} {ts : List Token} {s : List ℕ}
      → Matches (any_run ∷ ts) s
      → Matches (any_run ∷ ts) (c ∷ s)

abbrev pub emit : Option Token → List Token → List Token
emit none ts = ts
emit (some t) ts = t ∷ ts

-- The token of a character, if it has one, and whether the next is escaped; `none` is an error.
abbrev pub token_of : Bool → ℕ → Option (Option Token × Bool)
token_of escaping c =
    if c == backslash
    then if escaping then none else some (none, true)
    else if c == percent
    then some (some (if escaping then literal c else any_run), false)
    else if c == underscore
    then some (some (if escaping then literal c else any_one), false)
    else if escaping
    then none
    else some (some (literal c), false)

abbrev pub tokens_from : Bool → List ℕ → Option (List Token)
tokens_from escaping [] = some []
tokens_from escaping (c ∷ cs) =
    bind (token_of escaping c)
      λ (o, escaping'). bind (tokens_from escaping' cs) λ ts. some (emit o ts)

-- The tokens of a pattern; a backslash at its end is ignored.
abbrev pub tokens : List ℕ → Option (List Token)
tokens = tokens_from false

-- Runs of `%` are one; `true` is behind one.
abbrev pub squeeze : Bool → List Token → List Token
squeeze after [] = []
squeeze after (any_run ∷ ts) = if after then squeeze true ts else any_run ∷ squeeze true ts
squeeze after (literal c ∷ ts) = literal c ∷ squeeze false ts
squeeze after (any_one ∷ ts) = any_one ∷ squeeze false ts

-- A pattern that does not end in `%` or `_` is read as if a `%` followed.
abbrev pub closed : List Token → List Token
closed [] = []
closed (any_run ∷ ts) = any_run ∷ closed ts
closed (any_one ∷ ts) = any_one ∷ closed ts
closed (literal c ∷ []) = literal c ∷ any_run ∷ []
closed (literal c ∷ t ∷ ts) = literal c ∷ closed (t ∷ ts)

pub any_string : (s : List ℕ) → Matches (any_run ∷ []) s
any_string [] = stop at_end
any_string (c ∷ s) = more (any_string s)

run_twice :
    (ts : List Token) (s : List ℕ) → Matches (any_run ∷ any_run ∷ ts) s → Matches (any_run ∷ ts) s
run_twice ts s (stop m) = m
run_twice ts (c ∷ s) (more m) = more (run_twice ts s m)

run_map :
    (ts us : List Token)
    → ((s : List ℕ) → Matches ts s → Matches us s)
    → (s : List ℕ) → Matches (any_run ∷ ts) s
    → Matches (any_run ∷ us) s
run_map ts us f s (stop m) = stop (f s m)
run_map ts us f (c ∷ s) (more m) = more (run_map ts us f s m)

literal_map :
    (c : ℕ) (ts us : List Token)
    → ((s : List ℕ) → Matches ts s → Matches us s)
    → {s : List ℕ} → Matches (literal c ∷ ts) s
    → Matches (literal c ∷ us) s
literal_map c ts us f (same m) = same (f _ m)

one_map :
    (ts us : List Token)
    → ((s : List ℕ) → Matches ts s → Matches us s)
    → (s : List ℕ) → Matches (any_one ∷ ts) s
    → Matches (any_one ∷ us) s
one_map ts us f [] m = elim m [ ]
one_map ts us f (c ∷ s) (one m) = one (f s m)

-- Behind a `%`, if `true`.
abbrev behind : Bool → List Token → List Token
behind true ts = any_run ∷ ts
behind false ts = ts

behind_map :
    (after : Bool) (ts us : List Token)
    → ((s : List ℕ) → Matches ts s → Matches us s)
    → (s : List ℕ) → Matches (behind after ts) s
    → Matches (behind after us) s
behind_map true ts us f s m = run_map ts us f s m
behind_map false ts us f s m = f s m

pub from-squeeze :
    (after : Bool) (ts : List Token) (s : List ℕ)
    → Matches (behind after (squeeze after ts)) s
    → Matches (behind after ts) s
from-squeeze after [] s m = m
from-squeeze after (literal c ∷ ts) s m =
    behind_map after _ _ (λ s' m'. literal_map c _ _ (from-squeeze false ts) m') s m
from-squeeze after (any_one ∷ ts) s m =
    behind_map after _ _ (one_map _ _ (from-squeeze false ts)) s m
from-squeeze false (any_run ∷ ts) s m = from-squeeze true ts s m
from-squeeze true (any_run ∷ ts) s m = stop (from-squeeze true ts s m)

pub to-squeeze :
    (after : Bool) (ts : List Token) (s : List ℕ)
    → Matches (behind after ts) s
    → Matches (behind after (squeeze after ts)) s
to-squeeze after [] s m = m
to-squeeze after (literal c ∷ ts) s m =
    behind_map after _ _ (λ s' m'. literal_map c _ _ (to-squeeze false ts) m') s m
to-squeeze after (any_one ∷ ts) s m = behind_map after _ _ (one_map _ _ (to-squeeze false ts)) s m
to-squeeze false (any_run ∷ ts) s m = to-squeeze true ts s m
to-squeeze true (any_run ∷ ts) s m = to-squeeze true ts s (run_twice ts s m)

closed-squeeze :
    (after : Bool) (ts : List Token) → closed (squeeze after ts) ≡ squeeze after (closed ts)
closed-squeeze after [] = refl
closed-squeeze after (literal c ∷ []) = refl
closed-squeeze after (literal c ∷ literal d ∷ ts) =
    ap (λ us. literal c ∷ us) (closed-squeeze false (literal d ∷ ts))
closed-squeeze after (literal c ∷ any_one ∷ ts) =
    ap (λ us. literal c ∷ us) (closed-squeeze false (any_one ∷ ts))
closed-squeeze after (literal c ∷ any_run ∷ ts) =
    ap (λ us. literal c ∷ us) (closed-squeeze false (any_run ∷ ts))
closed-squeeze after (any_one ∷ ts) = ap (λ us. any_one ∷ us) (closed-squeeze false ts)
closed-squeeze false (any_run ∷ ts) = ap (λ us. any_run ∷ us) (closed-squeeze true ts)
closed-squeeze true (any_run ∷ ts) = closed-squeeze true ts

-- Dropping repeated `%` does not change what a pattern means.
pub Matches-squeeze :
    (ts : List Token) (s : List ℕ) → Matches (closed (squeeze false ts)) s ↔ Matches (closed ts) s
Matches-squeeze ts s =
    let e = closed-squeeze false ts in
    (
      λ m. from-squeeze false (closed ts) s (subst (λ us. Matches us s) e m),
      λ m. subst (λ us. Matches us s) (sym e) (to-squeeze false (closed ts) s m),
    )

-- No `%` follows another.
abbrev pub NoRepeat : Bool → List Token → Type 0
NoRepeat after [] = Unit
NoRepeat true (any_run ∷ ts) = ⊥
NoRepeat false (any_run ∷ ts) = NoRepeat true ts
NoRepeat after (literal c ∷ ts) = NoRepeat false ts
NoRepeat after (any_one ∷ ts) = NoRepeat false ts

pub squeeze-NoRepeat : (after : Bool) (ts : List Token) → NoRepeat after (squeeze after ts)
squeeze-NoRepeat after [] = tt
squeeze-NoRepeat after (literal c ∷ ts) = squeeze-NoRepeat false ts
squeeze-NoRepeat after (any_one ∷ ts) = squeeze-NoRepeat false ts
squeeze-NoRepeat false (any_run ∷ ts) = squeeze-NoRepeat true ts
squeeze-NoRepeat true (any_run ∷ ts) = squeeze-NoRepeat true ts
