-- ===== src/GetData/Varchar.antt =====
-- Text into numbers: _stmt_varchar_to_int64, _uint64, _float and _double, and
-- _stmt_get_data_copy_varchar of src/core/stmt.c.
pub mod NoNumbers
use taos_connector_odbc.Prelude.{
  ℕ, zero, suc, ◌^◌, ltb, if◌then◌else◌, ◌==◌, ◌&&◌, ◌||◌, not, Bool, true, false, Option, none,
  some, List, [], ◌∷◌,
}
use taos_connector_odbc.Prelude.Int.{ℤ, pos, negsuc, is_neg, low_bits, fits_signed}
use taos_connector_odbc.Odbc.{
  Text, Parsed, SqlReturn, SqlState, sql_success, sql_error, CType, sql_c_bit, sql_c_stinyint,
  sql_c_utinyint, sql_c_sshort, sql_c_ushort, sql_c_slong, sql_c_ulong, sql_c_sbigint,
  sql_c_ubigint, sql_c_float, sql_c_double, sql_c_char, sql_c_wchar, sql_c_binary, hy000, hy001,
}
use taos_connector_odbc.GetData.State.{
  Libc, Value, bits, float_value, double_value, Args, Stmt, put_value, fail,
}
use taos_connector_odbc.GetData.Fixed.{truth}
use taos_connector_odbc.GetData.Char.{Names, copy_buf_to_char, copy_buf_to_wchar}
use taos_connector_odbc.GetData.Binary.{copy_buf_to_binary}

-- A number, or the error that the text gives.
pub data Result (A : Type 0) : Type 0 where
  number : A → Result A
  refused : SqlState → Result A

-- `if (end)`: strtoll and its kin always store the end.
abbrev end_is_set : {A : Type 0} → Parsed A → Bool
end_is_set n = true

-- memchr(s, '-', nr)
has_minus : Text → Bool
has_minus [] = false
has_minus (c ∷ cs) = if c == 45 then true else has_minus cs

-- i64 == 0 || i64 == 1
is_bit : ℤ → Bool
is_bit (pos n) = n == 0 || n == 1
is_bit (negsuc n) = false

module _ (L : Libc) where
  unfoldable pub varchar_to_int64 : Text → Result ℤ
  varchar_to_int64 s =
      let n = L.strtoll s in
      if not (L.cached s)
      then refused hy001
      else if end_is_set n
      then refused hy000
      else if n.erange
      then refused hy000
      else number n.value

  unsigned_of : Text → Result ℤ → Result ℕ
  unfolding has_minus
  unsigned_of s (refused e) = refused e
  unsigned_of s (number v) = if has_minus s then refused hy000 else number (low_bits 64 v)

  unfoldable pub varchar_to_uint64 : Text → Result ℕ
  unfolding unsigned_of varchar_to_int64
  varchar_to_uint64 s = unsigned_of s (varchar_to_int64 s)

  float_of : Text → Parsed L.Float → Result L.Float
  float_of s n =
      if not (L.cached s)
      then refused hy001
      else if end_is_set n
      then refused hy000
      else if L.is_huge n.value && n.erange
      then refused hy000
      else if L.is_float_zero n.value && n.erange
      then refused hy000
      else number n.value

  unfoldable pub varchar_to_float : Text → Result L.Float
  unfolding float_of
  varchar_to_float s = float_of s (L.strtof s)

  unfoldable pub varchar_to_double : Text → Result L.Float
  unfolding float_of
  varchar_to_double s = float_of s (L.strtod s)

  -- The value to store for a number that passes the test.
  within : {A : Type 0} → (A → Bool) → (A → Value L.Float) → Result A → Result (Value L.Float)
  within fits cast (refused e) = refused e
  within fits cast (number v) = if fits v then number (cast v) else refused hy000

  -- The value of a type of a fixed size, or the error; `none` for the other
  -- types.
  unfoldable pub varchar_value : CType → Text → Option (Result (Value L.Float))
  unfolding is_bit within varchar_to_int64 varchar_to_uint64 varchar_to_float varchar_to_double
  varchar_value sql_c_bit s = some (within is_bit (λ v. bits 8 (truth v)) (varchar_to_int64 s))
  varchar_value sql_c_stinyint s =
      some (within (fits_signed 8) (λ v. bits 8 (low_bits 8 v)) (varchar_to_int64 s))
  varchar_value sql_c_utinyint s =
      some (within (λ n. ltb n (2 ^ 8)) (λ n. bits 8 n) (varchar_to_uint64 s))
  varchar_value sql_c_sshort s =
      some (within (fits_signed 16) (λ v. bits 16 (low_bits 16 v)) (varchar_to_int64 s))
  varchar_value sql_c_ushort s =
      some (within (λ n. ltb n (2 ^ 16)) (λ n. bits 16 n) (varchar_to_uint64 s))
  varchar_value sql_c_slong s =
      some (within (fits_signed 32) (λ v. bits 32 (low_bits 32 v)) (varchar_to_int64 s))
  varchar_value sql_c_ulong s =
      some (within (λ n. ltb n (2 ^ 32)) (λ n. bits 32 n) (varchar_to_uint64 s))
  varchar_value sql_c_sbigint s =
      some (within (λ v. true) (λ v. bits 64 (low_bits 64 v)) (varchar_to_int64 s))
  varchar_value sql_c_ubigint s = some (within (λ n. true) (λ n. bits 64 n) (varchar_to_uint64 s))
  varchar_value sql_c_float s = some (within (λ v. true) (λ v. float_value v) (varchar_to_float s))
  varchar_value sql_c_double s =
      some (within (λ v. true) (λ v. double_value v) (varchar_to_double s))
  varchar_value _ s = none

  store_parsed : Result (Value L.Float) → Stmt L.Float → Args → Stmt L.Float × SqlReturn
  store_parsed (refused e) s a = fail e s
  store_parsed (number v) s a = (put_value a.target_value_ptr v s, sql_success)

  -- The types of variable size, where no number is asked for.
  text_or_none : Names → CType → Stmt L.Float → Args → Stmt L.Float × SqlReturn
  text_or_none names sql_c_char s a = copy_buf_to_char L names s a
  text_or_none names sql_c_wchar s a = copy_buf_to_wchar L names s a
  text_or_none names sql_c_binary s a = copy_buf_to_binary s a
  text_or_none names _ s a = fail hy000 s

  -- By the type of the target.
  varchar_as : Names → CType → Text → Stmt L.Float → Args → Stmt L.Float × SqlReturn
  unfolding varchar_value store_parsed text_or_none
  varchar_as names t text s a = elim (varchar_value t text) [
    | some v ↦ store_parsed v s a
    | none ↦ text_or_none names t s a
  ]

  unfoldable pub copy_varchar : Names → Text → Stmt L.Float → Args → Stmt L.Float × SqlReturn
  unfolding varchar_as
  copy_varchar names text s a = varchar_as names a.target_type text s a
