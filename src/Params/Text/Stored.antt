-- ===== src/Params/Text/Stored.antt =====
-- src/core/stmt.c: what the converters of text store, against what the text says.
use taos_connector_odbc.Prelude.{
  ℕ, suc, ◌==◌, arith, ltb, if◌then◌else◌, Bool, true, false, ◌||◌, length, Option, none, some, ◌≡◌,
  refl, set, Bool-cases, inl, inr, sym,
}
use taos_connector_odbc.Prelude.Int.{
  ℤ, pos, low_bits, as_signed, fits_signed, fits_unsigned, as_signed-low_bits,
  low_bits-fits_unsigned,
}
use taos_connector_odbc.Odbc.{Text, Pointer, Parsed, SqlReturn, sql_success, sql_error}
use taos_connector_odbc.Params.State.{ParamState, index}
use taos_connector_odbc.Params.Text.{
  Target, tsdb_bool, tsdb_tinyint, tsdb_utinyint, tsdb_smallint, tsdb_usmallint, tsdb_int,
  tsdb_uint, tsdb_bigint, tsdb_ubigint, truth, conv_parsed, end_ptr, check_parsed, conv_char,
  conv_char_bool, conv_char_tinyint, conv_char_utinyint, conv_char_smallint, conv_char_usmallint,
  conv_char_int, conv_char_uint, conv_char_bigint, conv_char_ubigint, check_char_bigint,
  check_char_integer, check_char_smallint, check_char_tinyint, check_char_bit,
}

-- How a column reads an element, what it makes of an integer, and which integers it takes.
pub decode : Target → ℕ → ℤ
decode tsdb_bool = pos
decode tsdb_tinyint = as_signed 8
decode tsdb_utinyint = pos
decode tsdb_smallint = as_signed 16
decode tsdb_usmallint = pos
decode tsdb_int = as_signed 32
decode tsdb_uint = pos
decode tsdb_bigint = as_signed 64
decode tsdb_ubigint = pos

meaning : Target → ℤ → ℤ
meaning tsdb_bool v = pos (truth v)
meaning t v = v

range : Target → ℤ → Bool
range tsdb_bool v = true
range tsdb_tinyint v = fits_signed 8 v
range tsdb_utinyint v = fits_unsigned 8 v
range tsdb_smallint v = fits_signed 16 v
range tsdb_usmallint v = fits_unsigned 16 v
range tsdb_int v = fits_signed 32 v
range tsdb_uint v = fits_unsigned 32 v
range tsdb_bigint v = fits_signed 64 v
range tsdb_ubigint v = fits_unsigned 64 v

-- The integer that the text stands for, if all of it was read without overflow.
accepted : Bool → Bool → Bool → ℤ → Option ℤ
accepted left e fits m = if left then none else if e then none else if fits then some m else none

-- The outcome that fits an answer: the element is stored and nothing else, or nothing is stored
-- and one diagnostic is appended.
unfoldable pub Outcome : (ℕ → ℤ) → ParamState → ParamState × SqlReturn → Option ℤ → Type 0
Outcome read p out (some m) =
    (out.1 ≡ sql_success) × (e : ℕ) × (read e ≡ m) × (out.0.buffer ≡ set p.buffer (index p) e)
Outcome read p out none =
    (out.1 ≡ sql_error) × (out.0.buffer ≡ p.buffer) × (length out.0.diags ≡ suc (length p.diags))

conv_parsed-Outcome :
    {A : Type 0} (fits : A → Bool) (cast : A → ℕ) (n : Parsed A) (read : ℕ → ℤ) (in_range : Bool)
    (m : ℤ) (p : ParamState)
    → fits n.value ≡ in_range
    → (in_range ≡ true → read (cast n.value) ≡ m)
    → Outcome read p
        (conv_parsed fits cast n p)
        (accepted (ltb n.end_pos (length p.str)) (n.erange || p.errno_range) in_range m)
unfolding Outcome accepted conv_parsed
conv_parsed-Outcome fits cast n read in_range m p same right =
    elim (Bool-cases (ltb n.end_pos (length p.str))) [
      | inl e ↦ rw e (refl, refl, refl)
      | inr e ↦ rw e (elim (Bool-cases (n.erange || p.errno_range)) [
        | inl e ↦ rw e (refl, refl, refl)
        | inr e ↦
            rw (e, same)
              (elim (Bool-cases in_range) [
                | inl e' ↦ rw e' (refl, cast n.value, right e', refl)
                | inr e' ↦ rw e' (refl, refl, refl)
              ])
      ])
    ]

abbrev pub NotNull : Option Pointer → Type 0
NotNull none = Unit
NotNull (some base) = (base == 0) ≡ false

-- An error with one diagnostic, where the parameter's number and the column's elements stay.
abbrev pub Refuses : ParamState → ParamState × SqlReturn → Type 0
Refuses p (p', sr) =
    (sr ≡ sql_error)
    × (p'.number ≡ p.number)
    × (p'.buffer ≡ p.buffer)
    × (length p'.diags ≡ suc (length p.diags))

end_ptr-not_null :
    (base : Pointer) (n : Parsed ℤ) → (base == 0) ≡ false → (end_ptr base n == 0) ≡ false
unfolding end_ptr
end_ptr-not_null base n h = ground (arith, h)

check_parsed-Refuses :
    (copied : Option Pointer) (n : Parsed ℤ) (p : ParamState)
    → NotNull copied
    → (rest : ℤ → ParamState → ParamState × SqlReturn) → Refuses p (check_parsed copied n rest p)
unfolding check_parsed
check_parsed-Refuses none n p h rest = (refl, refl, refl, refl)
check_parsed-Refuses (some base) n p h rest =
    rw (end_ptr-not_null base n h) (refl, refl, refl, refl)

module _ (strtoll : Text → Parsed ℤ) (strtoull : Text → Parsed ℕ) where
  parsed : Target → Text → Parsed ℤ
  parsed tsdb_ubigint s = record {
    value = pos (strtoull s).value;
    end_pos = (strtoull s).end_pos;
    erange = (strtoull s).erange;
  }
  parsed t s = strtoll s

  -- The answer that the text of the parameter calls for.
  unfoldable pub number_of : Target → ParamState → Option ℤ
  unfolding parsed range meaning accepted
  number_of t p =
      let n = parsed t p.str in
      accepted (ltb n.end_pos (length p.str)) (n.erange || p.errno_range) (range t n.value)
        (meaning t n.value)

  -- A parameter of text for a column of integers, where strtoll and strtoull, which are parameters
  -- here, return numbers of 64 bits: when the one that is called stops at the end of the text, errno
  -- is not ERANGE, from this call or from one before, and the number that it returns is in the
  -- column's range, then the conversion succeeds and the row's element is that number (for a BOOL
  -- column 1 or 0) and no other element changes; otherwise it fails with one diagnostic and the
  -- column stays as it is.
  pub conv_char-Outcome :
      ((s : Text) → fits_signed 64 (strtoll s).value ≡ true)
      → ((s : Text) → fits_unsigned 64 (pos (strtoull s).value) ≡ true)
      → (t : Target) (p : ParamState)
      → Outcome (decode t) p (conv_char strtoll strtoull t p) (number_of t p)
  unfolding conv_char number_of parsed range meaning decode conv_char_bool conv_char_tinyint
      conv_char_utinyint conv_char_smallint conv_char_usmallint conv_char_int conv_char_uint
      conv_char_bigint conv_char_ubigint
  conv_char-Outcome h hu tsdb_bool p =
      conv_parsed-Outcome (λ v. true) truth (strtoll p.str) pos true _ p refl (λ _. refl)
  conv_char-Outcome h hu tsdb_tinyint p =
      conv_parsed-Outcome (fits_signed 8) (low_bits 8) (strtoll p.str) (as_signed 8) _ _ p refl
        (as_signed-low_bits 7 _).1
  conv_char-Outcome h hu tsdb_utinyint p =
      conv_parsed-Outcome (fits_unsigned 8) (low_bits 8) (strtoll p.str) pos _ _ p refl
        (low_bits-fits_unsigned 8 _).1
  conv_char-Outcome h hu tsdb_smallint p =
      conv_parsed-Outcome (fits_signed 16) (low_bits 16) (strtoll p.str) (as_signed 16) _ _ p refl
        (as_signed-low_bits 15 _).1
  conv_char-Outcome h hu tsdb_usmallint p =
      conv_parsed-Outcome (fits_unsigned 16) (low_bits 16) (strtoll p.str) pos _ _ p refl
        (low_bits-fits_unsigned 16 _).1
  conv_char-Outcome h hu tsdb_int p =
      conv_parsed-Outcome (fits_signed 32) (low_bits 32) (strtoll p.str) (as_signed 32) _ _ p refl
        (as_signed-low_bits 31 _).1
  conv_char-Outcome h hu tsdb_uint p =
      conv_parsed-Outcome (fits_unsigned 32) (low_bits 32) (strtoll p.str) pos _ _ p refl
        (low_bits-fits_unsigned 32 _).1
  conv_char-Outcome h hu tsdb_bigint p =
      conv_parsed-Outcome (λ v. true) (low_bits 64) (strtoll p.str) (as_signed 64) _ _ p
        (sym (h p.str)) (as_signed-low_bits 63 _).1
  conv_char-Outcome h hu tsdb_ubigint p =
      conv_parsed-Outcome (λ v. true) (λ n. low_bits 64 (pos n)) (strtoull p.str) pos _ _ p
        (sym (hu p.str)) (low_bits-fits_unsigned 64 _).1

  -- No text passes a check of SQL_C_CHAR as a number: wherever the copy of the text is, but at NULL,
  -- and whether there is memory for it, _stmt_param_check_sqlc_char_sql_bigint, _integer, _smallint,
  -- _tinyint and _bit fail on every text with one diagnostic, and leave the parameter's number and
  -- the column's elements.
  pub check_char_fails :
      (copied : Option Pointer) (p : ParamState)
      → NotNull copied
      → Refuses p (check_char_bigint strtoll copied p)
        × Refuses p (check_char_integer strtoll copied p)
        × Refuses p (check_char_smallint strtoll copied p)
        × Refuses p (check_char_tinyint strtoll copied p)
        × Refuses p (check_char_bit strtoll copied p)
  unfolding check_char_bigint check_char_integer check_char_smallint check_char_tinyint
      check_char_bit
  check_char_fails copied p h =
      let refuses = check_parsed-Refuses copied (strtoll p.sqlc_str) p h in
      (refuses _, refuses _, refuses _, refuses _, refuses _)
