-- ===== src/GetData/Varchar/NoNumbers.antt =====
-- src/core/stmt.c: columns of text are not read as numbers.
use taos_connector_odbc.Prelude.{suc, Bool, true, false, ◌≡◌, length}
use taos_connector_odbc.Odbc.{
  CType, SqlReturn, sql_error, SqlState, sql_c_bit, sql_c_tinyint, sql_c_short, sql_c_long,
  sql_c_stinyint, sql_c_utinyint, sql_c_sshort, sql_c_ushort, sql_c_slong, sql_c_ulong,
  sql_c_sbigint, sql_c_ubigint, sql_c_float, sql_c_double,
}
use taos_connector_odbc.GetData.State.{Libc, Stmt}
use taos_connector_odbc.GetData.Varchar.{Result, refused}

-- The types of numbers.
unfoldable pub is_number : CType → Bool
is_number sql_c_bit = true
is_number sql_c_tinyint = true
is_number sql_c_short = true
is_number sql_c_long = true
is_number sql_c_stinyint = true
is_number sql_c_utinyint = true
is_number sql_c_sshort = true
is_number sql_c_ushort = true
is_number sql_c_slong = true
is_number sql_c_ulong = true
is_number sql_c_sbigint = true
is_number sql_c_ubigint = true
is_number sql_c_float = true
is_number sql_c_double = true
is_number _ = false

Refused : {A : Type 0} → Result A → Type 0
Refused {A} r = (e : SqlState) × (r ≡ refused e)

module _ (L : Libc) where
  -- What is refused is stored nowhere.
  pub Failed : Stmt L.Float → Stmt L.Float × SqlReturn → Type 0
  Failed s out =
      (out.1 ≡ sql_error) × (out.0.writes ≡ s.writes) × (length out.0.diags ≡ suc (length s.diags))
