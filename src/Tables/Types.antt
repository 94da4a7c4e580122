-- ===== src/Tables/Types.antt =====
-- _tables_parse_table_type and _tables_add_table_type of src/core/tables.c: the list of table types
-- of SQLTables, separated by commas.
pub mod Joined
use taos_connector_odbc.Prelude.{
  ℕ, ◌==◌, leb, if◌then◌else◌, Bool, true, false, ◌&&◌, ◌||◌, Option, none, some, List, [], ◌∷◌,
  ◌++◌,
}
use taos_connector_odbc.Odbc.{Text}

-- isspace in the C locale.
unfoldable pub is_space : ℕ → Bool
is_space c = c == 32 || (leb 9 c && leb c 13)

abbrev pub comma : ℕ
comma = 44

abbrev pub bind {ℓ κ} : {A : Type ℓ} {B : Type κ} → Option A → (A → Option B) → Option B
bind none f = none
bind (some a) f = f a

-- Appending the converted type to table_types, where `conv` is iconv on a piece; `none` is a
-- failure. A NULL piece asks iconv for its initial state, which converts to nothing.
pub add_table_type : (Text → Option Text) → Option Text → List Text → Option (List Text)
add_table_type conv none types = some (types ++ ([] ∷ []))
add_table_type conv (some piece) types = bind (conv piece) λ t. some (types ++ (t ∷ []))

-- The loop over TableType; `piece` is what stands between `begin` and `p`, if `begin` is set.
pub parse_from : (Text → Option Text) → Option Text → List Text → Text → Option (List Text)
unfolding add_table_type is_space
parse_from conv piece types [] = add_table_type conv piece types
parse_from conv none types (c ∷ cs) =
    parse_from conv (if is_space c then none else if c == comma then none else some (c ∷ [])) types
      cs
parse_from conv (some piece) types (c ∷ cs) =
    let ended =
      bind (add_table_type conv (some piece) types) λ types'. parse_from conv none types' cs in
    let longer = parse_from conv (some (piece ++ (c ∷ []))) types cs in
    if c == comma then ended else longer

-- _tables_parse_table_type where memory is there.
unfoldable pub parse_table_type : (Text → Option Text) → Text → Option (List Text)
unfolding parse_from
parse_table_type conv s = parse_from conv none [] s
