-- ===== src/Params/Row/Sbigint.antt =====
-- src/core/stmt.c: 64-bit integers through a checker and a converter into narrower columns.
use taos_connector_odbc.Prelude.{
  ℕ, suc, ◌/◌, ◌^◌, ◌<◌, if◌then◌else◌, Bool, true, false, Option, none, some, List, ◌≡◌, refl, sym,
  ap, ◌∙◌, Bool-cases, inl, inr, arith, suc,
}
use taos_connector_odbc.Prelude.Int.{
  ℤ, pos, negsuc, low_bits, as_signed, fits_signed, as_signed-low_bits,
}
use mathlib.Core.Path.{subst}
use native.Mathlib.Nat.{mod-lt, mod-eq_of_lt, add-mul-mod_self_right, one-le-pow}
use taos_connector_odbc.Params.State.{
  ParamState, put_member, member, SqlType, sql_integer, sql_smallint, sql_tinyint,
}
use taos_connector_odbc.Params.Text.{truth}
use taos_connector_odbc.Params.Text.Stored.{Outcome}
use taos_connector_odbc.Params.Numbers.{
  check_sbigint, check_sbigint_integer, check_sbigint_smallint, check_sbigint_tinyint, read_number,
  conv_number, conv_integer_int, conv_smallint_smallint, conv_tinyint_tinyint, conv_tinyint_bool,
}
use taos_connector_odbc.Params.Row.{
  run, Meta, param_check, param_conv, put_null, conv_param_data, conv_if_checked, check_and_conv,
}

low_bits_lt : (w : ℕ) (v : ℤ) → low_bits w v < 2 ^ w
low_bits_lt w (pos n) = mod-lt n {m = 2 ^ w} (one-le-pow w 2 (omega arith))
low_bits_lt w (negsuc n) = omega (arith, one-le-pow w 2 (omega arith))

-- The other bytes of the union do not disturb a member.
member-put_member : (w : ℕ) (v : ℤ) (old : ℕ) → member w (put_member w v old) ≡ low_bits w v
member-put_member w v old =
    add-mul-mod_self_right (low_bits w v) (old / 2 ^ w) (2 ^ w) ∙ mod-eq_of_lt (low_bits_lt w v)

-- The widths and the pairs of a checker and a converter.
pub data Narrow : Type 0 where
  integer_int smallint_smallint tinyint_tinyint tinyint_bool : Narrow

unfoldable pub meta : Narrow → Meta
unfolding check_sbigint_integer check_sbigint_smallint check_sbigint_tinyint conv_integer_int
    conv_smallint_smallint conv_tinyint_tinyint conv_tinyint_bool
meta integer_int = record { check = run check_sbigint_integer; conv = run conv_integer_int }
meta smallint_smallint = record {
  check = run check_sbigint_smallint;
  conv = run conv_smallint_smallint;
}
meta tinyint_tinyint = record { check = run check_sbigint_tinyint; conv = run conv_tinyint_tinyint }
meta tinyint_bool = record { check = run check_sbigint_tinyint; conv = run conv_tinyint_bool }

-- How the column reads an element.
unfoldable pub read : Narrow → ℕ → ℤ
read integer_int = as_signed 32
read smallint_smallint = as_signed 16
read tinyint_tinyint = as_signed 8
read tinyint_bool = pos

in_range : ℕ → ℤ → ℤ → Option ℤ
in_range w v m = if fits_signed w v then some m else none

-- What the column is to hold for the integer, if it is in range.
unfoldable pub answer : Narrow → ℤ → Option ℤ
unfolding in_range
answer integer_int v = in_range 32 v v
answer smallint_smallint v = in_range 16 v v
answer tinyint_tinyint v = in_range 8 v v
answer tinyint_bool v = in_range 8 v (pos (truth v))

-- Reading back what the check put, in a state that did not raise the flag.
pub read_back :
    (k old : ℕ) (u : Bool) (v : ℤ)
    → u ≡ false
    → fits_signed (suc k) v ≡ true
    → (if u
        then pos (member (suc k) (put_member (suc k) v old))
        else as_signed (suc k) (member (suc k) (put_member (suc k) v old)))
      ≡ v
read_back k old true v e fits = absurd (cc)
read_back k old false v e fits =
    ap (as_signed (suc k)) (member-put_member (suc k) v old) ∙ (as_signed-low_bits k v).1 fits

-- The state after a successful check.
abbrev pub checked : ℕ → SqlType → ParamState → ParamState
checked w t p = record p { sql_type = t; number = put_member w p.sqlc_i64 p.number }

converted :
    (w : ℕ) (t : SqlType) (cast : ℤ → ℕ) (o : Option (List Bool)) (p : ParamState)
    → read_number w (checked w t p) ≡ p.sqlc_i64
    → fits_signed w p.sqlc_i64 ≡ true
    → (r : ℕ → ℤ) (m : ℤ) → r (cast p.sqlc_i64) ≡ m
    → Outcome r p (conv_number w cast (put_null false o (checked w t p))) (some m)
unfolding Outcome conv_number put_null read_number
converted w t cast none p e fits r m right = rw (e, fits) (refl, cast p.sqlc_i64, right, refl)
converted w t cast (some flags) p e fits r m right =
    rw (e, fits) (refl, cast p.sqlc_i64, right, refl)

-- A value of a column that is not null, in a state that did not raise the flag.
plain : ParamState → ParamState
plain p = record p { unsigned = false; is_subtbl = false; sqlc_is_null = false }

to_plain :
    (p : ParamState)
    → p.unsigned ≡ false
    → p.is_subtbl ≡ false
    → p.sqlc_is_null ≡ false
    → p ≡ plain p
unfolding plain
to_plain p signed table here =
    λ i. record p { unsigned = signed i; is_subtbl = table i; sqlc_is_null = here i }

unfoldable pub pair_of : ℕ → SqlType → (ℤ → ℕ) → Meta
pair_of w t cast = record { check = run (check_sbigint w t); conv = run (conv_number w cast) }

-- A checker and the converter for it.
plain-Outcome :
    (k : ℕ) (t : SqlType) (cast : ℤ → ℕ) (r : ℕ → ℤ) (m : ℤ) (p : ParamState)
    → (fits_signed (suc k) p.sqlc_i64 ≡ true → r (cast p.sqlc_i64) ≡ m)
    → Outcome r
        (plain p)
        (check_and_conv (pair_of (suc k) t cast) (plain p))
        (in_range (suc k) p.sqlc_i64 m)
unfolding pair_of plain in_range check_and_conv param_check check_sbigint conv_if_checked
    conv_param_data param_conv Outcome read_number
plain-Outcome k t cast r m p right = elim (Bool-cases (fits_signed (suc k) p.sqlc_i64)) [
  | inl fits ↦ rw fits (
      converted (suc k) t cast p.is_null (plain p) (read_back k p.number false p.sqlc_i64 refl fits)
        fits r m (right fits))
  | inr fits ↦ rw fits (refl, refl, refl)
]

pair-Outcome :
    (k : ℕ) (t : SqlType) (cast : ℤ → ℕ) (r : ℕ → ℤ) (m : ℤ) (p : ParamState)
    → (fits_signed (suc k) p.sqlc_i64 ≡ true → r (cast p.sqlc_i64) ≡ m)
    → p ≡ plain p
    → Outcome r p (check_and_conv (pair_of (suc k) t cast) p) (in_range (suc k) p.sqlc_i64 m)
unfolding plain
pair-Outcome k t cast r m p right e =
    subst
      (λ q. Outcome r q (check_and_conv (pair_of (suc k) t cast) q) (in_range (suc k) q.sqlc_i64 m))
      (sym e) (plain-Outcome k t cast r m p right)

-- A 64-bit integer for a narrower column, of a value that is not null and in a state that did
-- not raise the flag for unsigned numbers: when the number fits the SQL type's signed range, it is
-- stored as the row's element (for a BOOL column as 1 or 0) and no other element changes;
-- otherwise the row fails with one diagnostic and the column stays as it is.
pub sbigint-Outcome :
    (c : Narrow) (p : ParamState)
    → p.unsigned ≡ false
    → p.is_subtbl ≡ false
    → p.sqlc_is_null ≡ false
    → Outcome (read c) p (check_and_conv (meta c) p) (answer c p.sqlc_i64)
unfolding meta read answer pair_of check_sbigint_integer check_sbigint_smallint
    check_sbigint_tinyint conv_integer_int conv_smallint_smallint conv_tinyint_tinyint
    conv_tinyint_bool
sbigint-Outcome integer_int p signed table here =
    pair-Outcome 31 sql_integer (low_bits 32) (as_signed 32) _ p (as_signed-low_bits 31 _).1
      (to_plain p signed table here)
sbigint-Outcome smallint_smallint p signed table here =
    pair-Outcome 15 sql_smallint (low_bits 16) (as_signed 16) _ p (as_signed-low_bits 15 _).1
      (to_plain p signed table here)
sbigint-Outcome tinyint_tinyint p signed table here =
    pair-Outcome 7 sql_tinyint (low_bits 8) (as_signed 8) _ p (as_signed-low_bits 7 _).1
      (to_plain p signed table here)
sbigint-Outcome tinyint_bool p signed table here =
    pair-Outcome 7 sql_tinyint truth pos _ p (λ _. refl) (to_plain p signed table here)
