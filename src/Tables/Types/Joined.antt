-- ===== src/Tables/Types/Joined.antt =====
-- src/core/tables.c: a list of table types joined by commas is split into them.
use taos_connector_odbc.Prelude.{
  ◌==◌, if◌then◌else◌, false, Option, none, some, List, [], ◌∷◌, ◌++◌, All, ◌≡◌, refl, sym, ap, ◌∙◌,
}
use mathlib.Core.List.{append_assoc, append-nil}
use taos_connector_odbc.Odbc.{Text}
use taos_connector_odbc.Tables.Types.{
  is_space, comma, bind, add_table_type, parse_from, parse_table_type,
}

-- A type of the list: it has a character, no comma, and no space in front.
abbrev pub IsType : Text → Type 0
IsType [] = ⊥
IsType (c ∷ cs) = (is_space c ≡ false) × ((c == comma) ≡ false) × All (λ d. (d == comma) ≡ false) cs

-- The types with commas between them.
abbrev pub joined : List Text → Text
joined [] = []
joined (t ∷ []) = t
joined (t ∷ u ∷ us) = t ++ (comma ∷ joined (u ∷ us))

-- The conversions of all types, if none fails.
abbrev pub convert_all : (Text → Option Text) → List Text → Option (List Text)
convert_all conv [] = some []
convert_all conv (t ∷ ts) = bind (conv t) λ u. bind (convert_all conv ts) λ us. some (u ∷ us)

module _ (conv : Text → Option Text) where
  take_piece :
      (cs rest piece : Text) (types : List Text)
      → All (λ d. (d == comma) ≡ false) cs
      → parse_from conv (some piece) types (cs ++ rest)
        ≡ parse_from conv (some (piece ++ cs)) types rest
  unfolding parse_from
  take_piece [] rest piece types h =
      ap (λ p. parse_from conv (some p) types rest) (sym (append-nil piece))
  take_piece (c ∷ cs) rest piece types h = rw (h.0) (
      take_piece cs rest (piece ++ (c ∷ [])) types h.1
      ∙ ap (λ p. parse_from conv (some p) types rest) (append_assoc piece (c ∷ []) cs))

  take_type :
      (t rest : Text) (types : List Text)
      → IsType t
      → parse_from conv none types (t ++ rest) ≡ parse_from conv (some t) types rest
  unfolding parse_from
  take_type [] rest types h = absurd h
  take_type (c ∷ cs) rest types (space, sep, h) =
      ap
        (λ b.
          parse_from conv (if b then none else if c == comma then none else some (c ∷ [])) types
            (cs ++ rest))
        space
      ∙ ap (λ b. parse_from conv (if b then none else some (c ∷ [])) types (cs ++ rest)) sep
      ∙ take_piece cs rest (c ∷ []) types h

  bind-append :
      (o : Option (List Text)) (u : Text) (types : List Text)
      → bind o (λ us. some ((types ++ (u ∷ [])) ++ us))
        ≡ bind (bind o (λ us. some (u ∷ us))) (λ us. some (types ++ us))
  bind-append none u types = refl
  bind-append (some us) u types = ap some (append_assoc types (u ∷ []) us)

  one_type :
      (o : Option Text) (types : List Text)
      → bind o (λ u. some (types ++ (u ∷ [])))
        ≡ bind (bind o (λ u. bind (some []) (λ us. some (u ∷ us)))) (λ us. some (types ++ us))
  one_type none types = refl
  one_type (some u) types = refl

  more_types :
      (o : Option Text) (types : List Text) (later : List Text → Option (List Text))
      (rest : Option (List Text))
      → ((types' : List Text) → later types' ≡ bind rest (λ us. some (types' ++ us)))
      → bind (bind o (λ u. some (types ++ (u ∷ [])))) later
        ≡ bind (bind o (λ u. bind rest (λ us. some (u ∷ us)))) (λ us. some (types ++ us))
  more_types none types later rest h = refl
  more_types (some u) types later rest h = h (types ++ (u ∷ [])) ∙ bind-append rest u types

  parse_from-joined :
      (t : Text) (ts types : List Text)
      → All IsType (t ∷ ts)
      → parse_from conv none types (joined (t ∷ ts))
        ≡ bind (convert_all conv (t ∷ ts)) (λ us. some (types ++ us))
  unfolding parse_from add_table_type
  parse_from-joined t [] types h =
      ap (parse_from conv none types) (sym (append-nil t))
      ∙ take_type t [] types h.0
      ∙ one_type (conv t) types
  parse_from-joined t (u ∷ us) types h =
      take_type t (comma ∷ joined (u ∷ us)) types h.0
      ∙ more_types (conv t) types (λ types'. parse_from conv none types' (joined (u ∷ us)))
          (convert_all conv (u ∷ us)) (λ types'. parse_from-joined u us types' h.1)

  bind-some : (o : Option (List Text)) → bind o (λ us. some ([] ++ us)) ≡ o
  bind-some none = refl
  bind-some (some us) = refl

  -- The list of table types of SQLTables (_tables_parse_table_type), where memory is there: types that
  -- are not empty, have no comma and do not start with a space, joined by commas, are split into
  -- them again, each converted, and fail if a conversion fails.
  pub parse_table_type-joined :
      (t : Text) (ts : List Text)
      → All IsType (t ∷ ts)
      → parse_table_type conv (joined (t ∷ ts)) ≡ convert_all conv (t ∷ ts)
  unfolding parse_table_type
  parse_table_type-joined t ts h =
      parse_from-joined t ts [] h ∙ bind-some (convert_all conv (t ∷ ts))
