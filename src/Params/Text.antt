-- ===== src/Params/Text.antt =====
-- Text into integers: _stmt_param_conv_sqlc_char_to_tsdb_* and _stmt_param_check_sqlc_char_sql_* of
-- src/core/stmt.c.
pub mod Stored
use taos_connector_odbc.Prelude.{
  ℕ, ◌+◌, ◌==◌, Option, none, some, ltb, if◌then◌else◌, Bool, true, false, not, ◌||◌, length,
}
use taos_connector_odbc.Prelude.Int.{
  ℤ, pos, negsuc, is_zero, is_neg, low_bits, fits_signed, fits_unsigned,
}
use taos_connector_odbc.Odbc.{Text, Pointer, Parsed, SqlReturn, sql_success, hy000, hy001, s22003}
use taos_connector_odbc.Params.State.{
  ParamState, fail, store, put_member, SqlType, sql_bigint, sql_integer, sql_smallint, sql_tinyint,
  sql_bit,
}

-- !!ll
abbrev pub truth : ℤ → ℕ
truth v = if is_zero v then 0 else 1

-- What follows a call of strtoll: `value` is stored as `cast value` if it is in range.
conv_parsed : {A : Type 0} → (A → Bool) → (A → ℕ) → Parsed A → ParamState → ParamState × SqlReturn
conv_parsed fits cast n p =
    let e = n.erange || p.errno_range in
    let p' = record p { errno_range = e } in
    if ltb n.end_pos (length p.str)
    then fail hy000 p'
    else if e
    then fail hy000 p'
    else if not (fits n.value)
    then fail s22003 p'
    else store (cast n.value) p'

module _ (strtoll : Text → Parsed ℤ) (strtoull : Text → Parsed ℕ) where
  unfoldable pub conv_char_bool : ParamState → ParamState × SqlReturn
  unfolding conv_parsed
  conv_char_bool p = conv_parsed (λ v. true) truth (strtoll p.str) p

  unfoldable pub conv_char_tinyint : ParamState → ParamState × SqlReturn
  unfolding conv_parsed
  conv_char_tinyint p = conv_parsed (fits_signed 8) (low_bits 8) (strtoll p.str) p

  unfoldable pub conv_char_utinyint : ParamState → ParamState × SqlReturn
  unfolding conv_parsed
  conv_char_utinyint p = conv_parsed (fits_unsigned 8) (low_bits 8) (strtoll p.str) p

  unfoldable pub conv_char_smallint : ParamState → ParamState × SqlReturn
  unfolding conv_parsed
  conv_char_smallint p = conv_parsed (fits_signed 16) (low_bits 16) (strtoll p.str) p

  unfoldable pub conv_char_usmallint : ParamState → ParamState × SqlReturn
  unfolding conv_parsed
  conv_char_usmallint p = conv_parsed (fits_unsigned 16) (low_bits 16) (strtoll p.str) p

  unfoldable pub conv_char_int : ParamState → ParamState × SqlReturn
  unfolding conv_parsed
  conv_char_int p = conv_parsed (fits_signed 32) (low_bits 32) (strtoll p.str) p

  unfoldable pub conv_char_uint : ParamState → ParamState × SqlReturn
  unfolding conv_parsed
  conv_char_uint p = conv_parsed (fits_unsigned 32) (low_bits 32) (strtoll p.str) p

  unfoldable pub conv_char_bigint : ParamState → ParamState × SqlReturn
  unfolding conv_parsed
  conv_char_bigint p = conv_parsed (λ v. true) (low_bits 64) (strtoll p.str) p

  unfoldable pub conv_char_ubigint : ParamState → ParamState × SqlReturn
  unfolding conv_parsed
  conv_char_ubigint p = conv_parsed (λ v. true) (λ n. low_bits 64 (pos n)) (strtoull p.str) p

-- The types of column that the converters are for.
pub data Target : Type 0 where
  tsdb_bool tsdb_tinyint tsdb_utinyint tsdb_smallint tsdb_usmallint : Target
  tsdb_int tsdb_uint tsdb_bigint tsdb_ubigint : Target

module _ (strtoll : Text → Parsed ℤ) (strtoull : Text → Parsed ℕ) where
  -- The converter for SQL_C_CHAR, SQL_VARCHAR and a type of column.
  unfoldable pub conv_char : Target → ParamState → ParamState × SqlReturn
  conv_char tsdb_bool = conv_char_bool strtoll strtoull
  conv_char tsdb_tinyint = conv_char_tinyint strtoll strtoull
  conv_char tsdb_utinyint = conv_char_utinyint strtoll strtoull
  conv_char tsdb_smallint = conv_char_smallint strtoll strtoull
  conv_char tsdb_usmallint = conv_char_usmallint strtoll strtoull
  conv_char tsdb_int = conv_char_int strtoll strtoull
  conv_char tsdb_uint = conv_char_uint strtoll strtoull
  conv_char tsdb_bigint = conv_char_bigint strtoll strtoull
  conv_char tsdb_ubigint = conv_char_ubigint strtoll strtoull

-- INTW_MIN <= ll && ll <= UINTW_MAX, the two tests of the checks.
above : ℕ → ℤ → Bool
above w (pos n) = not (fits_unsigned w (pos n))
above w (negsuc n) = false

below : ℕ → ℤ → Bool
below w (pos n) = false
below w (negsuc n) = not (fits_signed w (negsuc n))

-- The member of `w` bits, with the flag that says whether it is meant unsigned.
put_number : ℕ → SqlType → ℤ → ParamState → ParamState
put_number w t v p = record p {
  sql_type = t;
  number = put_member w v p.number;
  unsigned = not (fits_signed w v);
}

-- Where strtoll stores the end: in the copy, whose address is `base`.
end_ptr : {A : Type 0} → Pointer → Parsed A → Pointer
end_ptr base n = base + n.end_pos

-- What the checks of text have in common: a copy of the text, at its address if memory is found for
-- it, then `if (end)`, which tests the pointer and not the character there.
check_parsed :
    Option Pointer
    → Parsed ℤ
    → (ℤ → ParamState → ParamState × SqlReturn)
    → ParamState
    → ParamState × SqlReturn
unfolding end_ptr
check_parsed none n rest p = fail hy001 p
check_parsed (some base) n rest p =
    let e = n.erange || p.errno_range in
    let p' = record p { errno_range = e } in
    if not (end_ptr base n == 0)
    then fail hy000 p'
    else if e
    then fail hy000 p'
    else rest n.value p'

check_number : ℕ → SqlType → ℤ → ParamState → ParamState × SqlReturn
unfolding above below put_number
check_number w t v p =
    if above w v
    then fail s22003 p
    else if below w v
    then fail s22003 p
    else (put_number w t v p, sql_success)

module _ (strtoll : Text → Parsed ℤ) (copied : Option Pointer) where
  unfoldable pub check_char_bigint : ParamState → ParamState × SqlReturn
  unfolding check_parsed
  check_char_bigint p =
      check_parsed copied (strtoll p.sqlc_str)
        (λ v p. (
          record p { sql_type = sql_bigint; number = low_bits 64 v; unsigned = false },
          sql_success,
        ))
        p

  unfoldable pub check_char_integer : ParamState → ParamState × SqlReturn
  unfolding check_parsed check_number
  check_char_integer p = check_parsed copied (strtoll p.sqlc_str) (check_number 32 sql_integer) p

  unfoldable pub check_char_smallint : ParamState → ParamState × SqlReturn
  unfolding check_parsed check_number
  check_char_smallint p = check_parsed copied (strtoll p.sqlc_str) (check_number 16 sql_smallint) p

  unfoldable pub check_char_tinyint : ParamState → ParamState × SqlReturn
  unfolding check_parsed check_number
  check_char_tinyint p = check_parsed copied (strtoll p.sqlc_str) (check_number 8 sql_tinyint) p

  unfoldable pub check_char_bit : ParamState → ParamState × SqlReturn
  unfolding check_parsed
  check_char_bit p =
      check_parsed copied (strtoll p.sqlc_str)
        (λ v p. (
          record p { sql_type = sql_bit; number = put_member 8 (pos (truth v)) p.number },
          sql_success,
        ))
        p
