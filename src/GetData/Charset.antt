-- ===== src/GetData/Charset.antt =====
-- Character sets: iconv_calc of src/utils/utils.c, _stmt_conv_one_character of src/core/stmt.c and
-- the charsets of a connection (src/core/conn.c). Loops run on fuel, a round for each byte.
pub mod Rounds
use taos_connector_odbc.Prelude.{
  ℕ, zero, suc, ◌+◌, ◌-◌, ltb, if◌then◌else◌, not, ◌++◌, Option, none, some, List, [], ◌∷◌, take,
  drop, length, replicate, Bool, true, false,
}
use taos_connector_odbc.Odbc.{Text}
use taos_connector_odbc.GetData.State.{
  Libc, Status, done, irreversible, e2big, illegal, TsdbData, tsdb_nchar, tsdb_json, Charsets,
}

-- conn_get_sqlc_charset_for_col_bind
unfoldable pub sqlc_charset_for_col_bind : Charsets → Text
sqlc_charset_for_col_bind c = elim c.charset_for_col_bind [
  | some charset ↦ charset
  | none ↦ c.sqlc_charset
]

-- fromcode: the server's charset, or that of the column.
unfoldable pub fromcode : {F : Type 0} → TsdbData F → Charsets → Text
fromcode (tsdb_nchar (some encoder) _) c = encoder
fromcode _ c = c.tsdb_charset

-- tocode of SQL_C_CHAR.
unfoldable pub tocode : {F : Type 0} → TsdbData F → Charsets → Text
unfolding sqlc_charset_for_col_bind
tocode (tsdb_nchar _ _) c = c.sqlc_charset
tocode (tsdb_json _) c = c.sqlc_charset
tocode _ c = sqlc_charset_for_col_bind c

-- The outcome of iconv_calc: the fuel does not last, the text cannot be converted, or the number of
-- bytes.
pub data Calc : Type 0 where
  no_fuel cannot : Calc
  total : ℕ → Calc

-- A round that ends in this status and has so many bytes of output, given the rounds on the rest.
add_round : Status → ℕ → Calc → Calc
add_round illegal n rest = cannot
add_round irreversible n rest = cannot
add_round _ n no_fuel = no_fuel
add_round _ n cannot = cannot
add_round _ n (total m) = total (n + m)

-- Does a whole-buffer conversion return (size_t)-1?
abbrev pub stopped : Status → Bool
stopped done = false
stopped irreversible = false
stopped e2big = true
stopped illegal = true

-- The code points of UTF-32LE have 4 bytes, and a residual has room for 64.
abbrev pub utf_32le_size : ℕ
utf_32le_size = 4

abbrev pub residual_size : ℕ
residual_size = 64

module _ (L : Libc) where
  -- The number of bytes that `rest` converts to, in rounds of up to 4096 bytes.
  unfoldable pub iconv_calc : ℕ → Text → Text → List ℕ → Calc
  unfolding add_round
  iconv_calc fuel from to [] = total 0
  iconv_calc zero from to (b ∷ bs) = no_fuel
  iconv_calc (suc fuel) from to (b ∷ bs) =
      let c = L.iconv from to (b ∷ bs) 4096 in
      add_round c.status (length c.output) (iconv_calc fuel from to (drop c.consumed (b ∷ bs)))

  -- The shortest prefix of `rest`, from `n` bytes on, that converts to a code point: its length
  -- and the code point. A round that fails goes on with one byte more than it left.
  one_code_point : ℕ → Text → Text → ℕ → List ℕ → Option (ℕ × List ℕ)
  one_code_point zero from utf_32le n rest = none
  one_code_point (suc fuel) from utf_32le n rest =
      let c = L.iconv from utf_32le (take n rest) utf_32le_size in
      let again = one_code_point fuel from utf_32le (suc (n - c.consumed)) rest in
      if ltb (length rest) n
      then none
      else if stopped c.status
      then again
      else some (c.consumed, c.output)

  -- The code point in the target charset; what it does not fill of its 4 bytes is taken as zeros.
  code_point_to : Text → Text → Option (ℕ × List ℕ) → Option (ℕ × List ℕ)
  code_point_to utf_32le to none = none
  code_point_to utf_32le to (some (n, out)) =
      let c =
        L.iconv utf_32le to (take utf_32le_size (out ++ replicate utf_32le_size 0)) residual_size in
      if stopped c.status then none else some (n, c.output)

  -- One character: how many bytes it takes, and what it converts to.
  unfoldable pub conv_one_character : Text → Text → Text → List ℕ → Option (ℕ × List ℕ)
  unfolding one_code_point code_point_to
  conv_one_character utf_32le from to rest =
      if not (L.iconv_opens from utf_32le)
      then none
      else if not (L.iconv_opens utf_32le to)
      then none
      else code_point_to utf_32le to (one_code_point (suc (length rest)) from utf_32le 1 rest)
