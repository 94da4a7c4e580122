-- ===== src/Params/Tests.antt =====
-- Concrete parameters for the theorems on src/core/stmt.c: a column of two rows.
use taos_connector_odbc.Prelude.{ℕ, ◌-◌, ◌%◌, false, true, some, [], ◌∷◌, ◌≡◌, refl, arith, lt→ltb}
use native.Mathlib.Nat.{mod-lt}
use taos_connector_odbc.Prelude.Int.{ℤ, pos, negsuc, fits_signed, fits_unsigned}
use taos_connector_odbc.Odbc.{Text, Parsed}
use taos_connector_odbc.Params.State.{ParamState, sql_other}
use taos_connector_odbc.Params.Text.{
  tsdb_tinyint, conv_char, check_char_bigint, check_char_integer, check_char_smallint,
  check_char_tinyint, check_char_bit,
}
use taos_connector_odbc.Params.Text.Stored.{
  decode, Outcome, number_of, conv_char-Outcome, Refuses, check_char_fails,
}
use taos_connector_odbc.Params.Numbers.{check_sbigint_integer, conv_integer_int}
use taos_connector_odbc.Params.Row.{run, check_and_conv}
use taos_connector_odbc.Params.Row.Nulls.{Null, check_and_conv-Null}
use taos_connector_odbc.Params.Row.Sbigint.{integer_int, meta, read, answer, sbigint-Outcome}

-- strtoll and strtoull of one decimal digit.
abbrev digit : Text → ℕ
digit [] = 0
digit (c ∷ cs) = (c - 48) % 10

abbrev strtoll_digit : Text → Parsed ℤ
strtoll_digit s = record { value = pos (digit s); end_pos = 1; erange = false }

abbrev strtoull_digit : Text → Parsed ℕ
strtoull_digit s = record { value = digit s; end_pos = 1; erange = false }

strtoll_digit-fits : (s : Text) → fits_signed 64 (strtoll_digit s).value ≡ true
strtoll_digit-fits [] = refl
strtoll_digit-fits (c ∷ cs) =
    lt→ltb ((c - 48) % 10) 9223372036854775808
      (omega (arith, mod-lt (c - 48) {m = 10} (omega arith)))

strtoull_digit-fits : (s : Text) → fits_unsigned 64 (pos (strtoull_digit s).value) ≡ true
strtoull_digit-fits [] = refl
strtoull_digit-fits (c ∷ cs) =
    lt→ltb ((c - 48) % 10) 18446744073709551616
      (omega (arith, mod-lt (c - 48) {m = 10} (omega arith)))

-- The second row; its value is "7" as text and -2 as a number.
abbrev second_row : ParamState
second_row = record {
  i_row = 1;
  i_batch_offset = 0;
  is_subtbl = false;
  sqlc_is_null = false;
  sqlc_i64 = negsuc 1;
  sqlc_str = 55 ∷ [];
  sql_type = sql_other 0;
  number = 0;
  unsigned = false;
  str = 55 ∷ [];
  buffer = 1 ∷ 2 ∷ [];
  is_null = some (true ∷ true ∷ []);
  errno_range = false;
  diags = [];
}

second_row_text : number_of strtoll_digit strtoull_digit tsdb_tinyint second_row ≡ some (pos 7)
unfolding number_of
second_row_text = refl

conv_char-Outcome_example :
    Outcome
      (decode tsdb_tinyint)
      second_row
      (conv_char strtoll_digit strtoull_digit tsdb_tinyint second_row)
      (number_of strtoll_digit strtoull_digit tsdb_tinyint second_row)
conv_char-Outcome_example =
    conv_char-Outcome strtoll_digit strtoull_digit strtoll_digit-fits strtoull_digit-fits
      tsdb_tinyint second_row

check_char_fails_example :
    Refuses second_row (check_char_bigint strtoll_digit (some 4096) second_row)
    × Refuses second_row (check_char_integer strtoll_digit (some 4096) second_row)
    × Refuses second_row (check_char_smallint strtoll_digit (some 4096) second_row)
    × Refuses second_row (check_char_tinyint strtoll_digit (some 4096) second_row)
    × Refuses second_row (check_char_bit strtoll_digit (some 4096) second_row)
check_char_fails_example = check_char_fails strtoll_digit strtoull_digit (some 4096) second_row refl

sbigint-Outcome_example :
    Outcome
      (read integer_int)
      second_row
      (check_and_conv (meta integer_int) second_row)
      (answer integer_int (negsuc 1))
sbigint-Outcome_example = sbigint-Outcome integer_int second_row refl refl refl

-- -2 as an int32_t, in the second row.
second_row_number : (check_and_conv (meta integer_int) second_row).0.buffer ≡ 1 ∷ 4294967294 ∷ []
unfolding check_and_conv meta
second_row_number = refl

-- The second row where its value is null.
abbrev null_second_row : ParamState
null_second_row = record second_row { sqlc_is_null = true }

check_and_conv-Null_example : Null null_second_row (some (true ∷ true ∷ [])) (
    check_and_conv
      (record { check = run check_sbigint_integer; conv = run conv_integer_int })
      null_second_row)
check_and_conv-Null_example =
    check_and_conv-Null (run check_sbigint_integer) (run conv_integer_int) null_second_row
      (λ e. absurd cc) refl refl
