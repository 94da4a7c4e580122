-- ===== src/Buffer/Tests.antt =====
-- A concrete call for the theorems on quoting (src/utils/utils.c).
use taos_connector_odbc.Prelude.{
  ℕ, Bool, true, some, inr, List, [], ◌∷◌, ◌++◌, ◌≡◌, refl, take, drop,
}
use taos_connector_odbc.Buffer.{TextBuffer, quote, buffer_concat_replacement_n}
use taos_connector_odbc.Buffer.Grown.{
  Replaced, quoted, c_string, buffer_concat_replacement_n-Replaced,
}
use taos_connector_odbc.Buffer.Quoted.{
  in_text, read_literal, buffer_concat_replacement_n-read_literal,
}

abbrev empty_buffer : TextBuffer
empty_buffer = record { text = []; sz = 0 }

abbrev always : ℕ → Bool
always n = true

-- "a'b", and zeros behind it.
abbrev name_bytes : List ℕ
name_bytes = 97 ∷ 39 ∷ 98 ∷ 0 ∷ 0 ∷ []

buffer_concat_replacement_n-Replaced_example :
    Replaced always empty_buffer
      (quoted (c_string (take 5 name_bytes)))
      (buffer_concat_replacement_n always empty_buffer name_bytes 5)
buffer_concat_replacement_n-Replaced_example =
    buffer_concat_replacement_n-Replaced always empty_buffer name_bytes 5 (inr refl)

buffer_concat_replacement_n-read_literal_example :
    read_literal in_text (
      drop 0 (buffer_concat_replacement_n always empty_buffer name_bytes 5).0.text
      ++ quote ∷ 44 ∷ [])
    ≡ some (97 ∷ 39 ∷ 98 ∷ [], 44 ∷ [])
unfolding buffer_concat_replacement_n
buffer_concat_replacement_n-read_literal_example =
    buffer_concat_replacement_n-read_literal always empty_buffer name_bytes (44 ∷ []) 5 (inr refl)
      refl (refl, (refl, (refl, tt))) refl
