-- ===== src/Odbc.antt =====
-- ODBC's return codes, C data types and C strings, which inc/ and src/inc/ take from the system's
-- headers.
use taos_connector_odbc.Prelude.{ℕ, ◌+◌, ◌-◌, List, take, Bool}

-- The SQLRETURN values that the driver returns.
pub data SqlReturn : Type 0 where
  sql_success sql_success_with_info sql_no_data sql_error : SqlReturn

-- A C string is the list of its bytes without the terminator.
abbrev pub Text : Type 0
Text = List ℕ

-- What `snprintf(buf, size, "%s", s)` leaves in `buf`; it returns the length of `s`.
abbrev pub printed : ℕ → Text → Text
printed size s = take (size - 1) s

-- A number that strtoll, strtoull, strtof or strtod read: where it stopped (`end`, which it always
-- stores), and whether it sets errno to ERANGE.
pub record Parsed (A : Type 0) : Type 0 where
  pub value : A
  pub end_pos : ℕ
  pub erange : Bool

-- An address; 0 is NULL.
abbrev pub Pointer : Type 0
Pointer = ℕ

-- The SQL_C_* codes that the driver names, and any other code.
pub data CType : Type 0 where
  sql_c_bit sql_c_tinyint sql_c_stinyint sql_c_utinyint : CType
  sql_c_short sql_c_sshort sql_c_ushort : CType
  sql_c_long sql_c_slong sql_c_ulong sql_c_sbigint sql_c_ubigint : CType
  sql_c_float sql_c_double sql_c_char sql_c_wchar sql_c_binary sql_c_type_timestamp : CType
  other : ℕ → CType

-- A number for each type, to compare them.
unfoldable pub type_code : CType → ℕ
type_code sql_c_bit = 0
type_code sql_c_tinyint = 1
type_code sql_c_stinyint = 2
type_code sql_c_utinyint = 3
type_code sql_c_short = 4
type_code sql_c_sshort = 5
type_code sql_c_ushort = 6
type_code sql_c_long = 7
type_code sql_c_slong = 8
type_code sql_c_ulong = 9
type_code sql_c_sbigint = 10
type_code sql_c_ubigint = 11
type_code sql_c_float = 12
type_code sql_c_double = 13
type_code sql_c_char = 14
type_code sql_c_wchar = 15
type_code sql_c_binary = 16
type_code sql_c_type_timestamp = 17
type_code (other n) = 18 + n

-- The SQLSTATEs of the diagnostics that the driver appends.
pub data SqlState : Type 0 where
  hy000 hy001 hy024 hy109 : SqlState
  s01000 s01004 s01s02 s07002 s07009 s22002 s22003 s25s01 s25s02 : SqlState
