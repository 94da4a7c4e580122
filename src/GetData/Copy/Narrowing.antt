-- ===== src/GetData/Copy/Narrowing.antt =====
-- src/core/stmt.c: what an integer column leaves in a target of a fixed size.
use taos_connector_odbc.Prelude.{ℕ, Bool, Option, none, some, ◌≡◌, refl, sym, ap, ◌∙◌, ◌↔◌, true}
use mathlib.Core.Path.{subst}
use taos_connector_odbc.Prelude.Int.{
  ℤ, pos, as_signed, fits_signed, fits_unsigned, as_signed-low_bits, low_bits-fits_unsigned,
}
use taos_connector_odbc.Odbc.{
  CType, sql_c_tinyint, sql_c_short, sql_c_long, sql_c_stinyint, sql_c_utinyint, sql_c_sshort,
  sql_c_ushort, sql_c_slong, sql_c_ulong, sql_c_sbigint, sql_c_ubigint, SqlReturn, sql_success,
}
use taos_connector_odbc.GetData.State.{Libc, Stmt, Args, Value, bits, put_value}
use taos_connector_odbc.GetData.Fixed.{integer_bits}
use taos_connector_odbc.GetData.Char.{Names}
use taos_connector_odbc.GetData.Copy.{copy_int64, copy_uint64, copy_stamp_or_text, copy_text}

-- The types of integers; the plain ones are SQL_C_TINYINT, SQL_C_SHORT and SQL_C_LONG, which are
-- signed.
pub data Sized : Type 0 where
  int8 uint8 int16 uint16 int32 uint32 int64 uint64 : Sized
  plain_int8 plain_int16 plain_int32 : Sized

unfoldable pub ctype : Sized → CType
ctype int8 = sql_c_stinyint
ctype uint8 = sql_c_utinyint
ctype int16 = sql_c_sshort
ctype uint16 = sql_c_ushort
ctype int32 = sql_c_slong
ctype uint32 = sql_c_ulong
ctype int64 = sql_c_sbigint
ctype uint64 = sql_c_ubigint
ctype plain_int8 = sql_c_tinyint
ctype plain_int16 = sql_c_short
ctype plain_int32 = sql_c_long

-- The bits of the application's variable.
pub width : Sized → ℕ
width int8 = 8
width uint8 = 8
width int16 = 16
width uint16 = 16
width int32 = 32
width uint32 = 32
width int64 = 64
width uint64 = 64
width plain_int8 = 8
width plain_int16 = 16
width plain_int32 = 32

-- The integer that the application reads from the target's bits.
pub read : Sized → ℕ → ℤ
read int8 = as_signed 8
read uint8 = pos
read int16 = as_signed 16
read uint16 = pos
read int32 = as_signed 32
read uint32 = pos
read int64 = as_signed 64
read uint64 = pos
read plain_int8 = as_signed 8
read plain_int16 = as_signed 16
read plain_int32 = as_signed 32

pub fits : Sized → ℤ → Bool
fits int8 = fits_signed 8
fits uint8 = fits_unsigned 8
fits int16 = fits_signed 16
fits uint16 = fits_unsigned 16
fits int32 = fits_signed 32
fits uint32 = fits_unsigned 32
fits int64 = fits_signed 64
fits uint64 = fits_unsigned 64
fits plain_int8 = fits_signed 8
fits plain_int16 = fits_signed 16
fits plain_int32 = fits_signed 32

-- What a call leaves: success, and one write of the target's size, with a value that is the
-- column's exactly if it fits.
pub record Narrowed {F : Type 0} (k : Sized) (v : ℤ) (p : ℕ) (before : Stmt F)
    (out : Stmt F × SqlReturn) : Type 0 where
  pub stored : ℕ
  pub success : out.1 ≡ sql_success
  pub written : out.0 ≡ put_value p (bits (width k) stored) before
  pub exact : (read k stored ≡ v) ↔ (fits k v ≡ true)

-- The assignment of one type, and when it keeps the value.
stored-Narrowed :
    {F : Type 0} (k : Sized) (v : ℤ) (e : ℕ) (p : ℕ) (s : Stmt F)
    → (read k e ≡ v) ↔ (fits k v ≡ true)
    → Narrowed k v p s (put_value p (bits (width k) e) s, sql_success)
stored-Narrowed k v e p s exact = record {
  stored = e;
  success = refl;
  written = refl;
  exact = exact;
}

-- A column's number: an int64_t or a uint64_t.
pub data Number : Type 0 where
  signed : ℤ → Number
  unsigned : ℕ → Number

pub value : Number → ℤ
value (signed v) = v
value (unsigned n) = pos n

module _ (L : Libc) (names : Names) where
  -- _stmt_get_data_copy_int64 and _stmt_get_data_copy_uint64
  pub copy_integer : Number → Stmt L.Float → Args → Stmt L.Float × SqlReturn
  copy_integer (signed v) = copy_int64 L names v
  copy_integer (unsigned n) = copy_uint64 L names n

  integer-Narrowed :
      (k : Sized) (v : ℤ) (s : Stmt L.Float) (p : ℕ)
      → (x : Value L.Float) × (integer_bits (ctype k) v ≡ some x)
        × Narrowed k v p s (put_value p x s, sql_success)
  unfolding integer_bits ctype read fits width
  integer-Narrowed int8 v s p = (_, refl, stored-Narrowed int8 v _ p s (as_signed-low_bits 7 v))
  integer-Narrowed uint8 v s p =
      (_, refl, stored-Narrowed uint8 v _ p s (low_bits-fits_unsigned 8 v))
  integer-Narrowed int16 v s p = (_, refl, stored-Narrowed int16 v _ p s (as_signed-low_bits 15 v))
  integer-Narrowed uint16 v s p =
      (_, refl, stored-Narrowed uint16 v _ p s (low_bits-fits_unsigned 16 v))
  integer-Narrowed int32 v s p = (_, refl, stored-Narrowed int32 v _ p s (as_signed-low_bits 31 v))
  integer-Narrowed uint32 v s p =
      (_, refl, stored-Narrowed uint32 v _ p s (low_bits-fits_unsigned 32 v))
  integer-Narrowed int64 v s p = (_, refl, stored-Narrowed int64 v _ p s (as_signed-low_bits 63 v))
  integer-Narrowed uint64 v s p =
      (_, refl, stored-Narrowed uint64 v _ p s (low_bits-fits_unsigned 64 v))
  integer-Narrowed plain_int8 v s p =
      (_, refl, stored-Narrowed plain_int8 v _ p s (as_signed-low_bits 7 v))
  integer-Narrowed plain_int16 v s p =
      (_, refl, stored-Narrowed plain_int16 v _ p s (as_signed-low_bits 15 v))
  integer-Narrowed plain_int32 v s p =
      (_, refl, stored-Narrowed plain_int32 v _ p s (as_signed-low_bits 31 v))

  copy_integer-assigned :
      (n : Number) (x : Value L.Float) (s : Stmt L.Float) (a : Args)
      → integer_bits a.target_type (value n) ≡ some x
      → copy_integer n s a ≡ (put_value a.target_value_ptr x s, sql_success)
  unfolding copy_integer copy_int64 copy_uint64 value
  copy_integer-assigned (signed v) x s a e =
      ap
        (λ (o : Option (Value L.Float)). elim o [
          | some y ↦ (put_value a.target_value_ptr y s, sql_success)
          | none ↦ copy_stamp_or_text L names a.target_type v 0 s a
        ])
        e
  copy_integer-assigned (unsigned n) x s a e =
      ap
        (λ (o : Option (Value L.Float)). elim o [
          | some y ↦ (put_value a.target_value_ptr y s, sql_success)
          | none ↦ copy_text L names a.target_type s a
        ])
        e

  -- An integer column, signed or unsigned, read into an integer type of ODBC always succeeds and
  -- reports nothing: it writes as many bits as the type has to the application's variable and nothing
  -- else, and what the application reads back is the column's value exactly when the type has it.
  pub copy_integer-Narrowed :
      (k : Sized) (n : Number) (s : Stmt L.Float) (a : Args)
      → a.target_type ≡ ctype k
      → Narrowed k (value n) a.target_value_ptr s (copy_integer n s a)
  copy_integer-Narrowed k n s a e =
      let (x, made, fine) = integer-Narrowed k (value n) s a.target_value_ptr in
      subst (Narrowed k (value n) a.target_value_ptr s)
        (sym (
          copy_integer-assigned n x s a
            (ap (λ t. integer_bits {F = L.Float} t (value n)) e ∙ made)))
        fine
