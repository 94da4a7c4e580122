-- ===== src/Wildcard/Tests.antt =====
-- A concrete pattern for the theorem on wildcards (src/utils/utils.c).
use taos_connector_odbc.Prelude.{ℕ, List, [], ◌∷◌, true, arith}
use taos_connector_odbc.Wildcard.{wild_comp}
use taos_connector_odbc.Wildcard.Like.{tokens}
use taos_connector_odbc.Wildcard.Compiled.{Agrees, wild_comp-Agrees}

-- "a%\__" and "ab_c"
abbrev pattern_text : List ℕ
pattern_text = 97 ∷ 37 ∷ 92 ∷ 95 ∷ 95 ∷ []

abbrev subject : List ℕ
subject = 97 ∷ 98 ∷ 95 ∷ 99 ∷ []

wild_comp-Agrees_example : Agrees (tokens pattern_text) (wild_comp true pattern_text) subject
wild_comp-Agrees_example =
    wild_comp-Agrees pattern_text subject
      (omega arith, (omega arith, (omega arith, (omega arith, tt))))
