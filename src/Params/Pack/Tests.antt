-- ===== src/Params/Pack/Tests.antt =====
-- Packing three rows at a stride of four bytes, the second of them null.
use taos_connector_odbc.Prelude.{
  ℕ, ◌≡◌, true, false, some, List, [], ◌∷◌, ◌≤◌, length, take, All, refl, arith,
}
use taos_connector_odbc.Prelude.Int.{pos}
use taos_connector_odbc.Params.Pack.{VarRow, varchar, pack_stmt2_var_bind, row_bytes, is_var_type}
use taos_connector_odbc.Params.Pack.Moved.{packed_text}
use taos_connector_odbc.Params.Pack.Packed.{bind_of, pack_stmt2_var_bind-Packed}

abbrev three_rows : List VarRow
three_rows =
    record { is_null = false; bytes = pos 2 }
    ∷ record { is_null = true; bytes = pos 3 }
    ∷ record { is_null = false; bytes = pos 3 }
    ∷ []

abbrev at_stride : List ℕ
at_stride = 1 ∷ 2 ∷ 0 ∷ 0 ∷ 9 ∷ 9 ∷ 9 ∷ 9 ∷ 3 ∷ 4 ∷ 5 ∷ 0 ∷ []

three_rows-fit : All (λ r. row_bytes r ≤ 4) three_rows
unfolding row_bytes
three_rows-fit = (omega arith, (omega arith, (omega arith, tt)))

varchar-is_var : is_var_type varchar ≡ true
unfolding is_var_type
varchar-is_var = refl

pack_stmt2_var_bind-Packed_example :
    (after : List ℕ) × (pack_stmt2_var_bind 4 (bind_of varchar three_rows at_stride)
      ≡ some (bind_of varchar three_rows after))
    × (length after ≡ length at_stride)
    × (take (length (packed_text 4 three_rows 0 at_stride)) after
        ≡ packed_text 4 three_rows 0 at_stride)
pack_stmt2_var_bind-Packed_example =
    pack_stmt2_var_bind-Packed 4 varchar three_rows at_stride varchar-is_var (omega arith)
      three_rows-fit (omega arith)

five_bytes :
    pack_stmt2_var_bind 4 (bind_of varchar three_rows at_stride)
    ≡ some (bind_of varchar three_rows (1 ∷ 2 ∷ 3 ∷ 4 ∷ 5 ∷ 9 ∷ 9 ∷ 9 ∷ 3 ∷ 4 ∷ 5 ∷ 0 ∷ []))
unfolding pack_stmt2_var_bind
five_bytes = refl
