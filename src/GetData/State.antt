-- ===== src/GetData/State.antt =====
-- The state of _stmt_get_data_impl of src/core/stmt.c: get_data_ctx_t and the parts of stmt_t and
-- conn_t that it reads (src/core/internal.h), tsdb_data_t (inc/taos_helpers.h), and the C library.
use taos_connector_odbc.Prelude.{
  ℕ, ◌==◌, if◌then◌else◌, Bool, Option, none, some, List, [], ◌∷◌, ◌≡◌, refl, ◌∙◌, Bool-cases, inl,
  inr,
}
use taos_connector_odbc.Prelude.Int.{ℤ, pos, negsuc}
use taos_connector_odbc.Odbc.{
  Text, Parsed, Pointer, CType, SqlReturn, sql_success_with_info, sql_error, SqlState, s01004,
}

-- How one call of iconv on whole buffers ends.
pub data Status : Type 0 where
  done irreversible e2big illegal : Status

pub record Converted : Type 0 where
  pub consumed : ℕ
  pub output : List ℕ
  pub status : Status

-- struct tm and the fraction, as a SQL_TIMESTAMP_STRUCT takes them.
pub record Tm : Type 0 where
  pub year : ℕ
  pub month : ℕ
  pub day : ℕ
  pub hour : ℕ
  pub minute : ℕ
  pub second : ℕ

-- What the code takes from the C library. Texts that name charsets are opaque.
pub record Libc : Type 1 where
  -- double, to which every float is widened.
  pub Float : Type 0
  -- (uintW_t)v, as a bit pattern.
  pub float_bits : ℕ → Float → ℕ
  -- (float)v, widened again.
  pub narrow : Float → Float
  pub print_int : ℤ → Text
  pub print_float : Float → Text
  -- _stmt_varchar_cache has its memory, where the text is not followed by a terminator.
  pub cached : Text → Bool
  pub strtoll : Text → Parsed ℤ
  pub strtof : Text → Parsed Float
  pub strtod : Text → Parsed Float
  -- fabs(v) == HUGE_VAL, fpclassify(v) == FP_ZERO
  pub is_huge : Float → Bool
  pub is_float_zero : Float → Bool
  -- localtime_r, and "%04d-%02d-%02d %02d:%02d:%02d.%0*d" with the width of the fraction.
  pub localtime : ℤ → Option Tm
  pub print_stamp : Tm → ℕ → ℕ → Text
  -- iconv_open succeeds, and iconv from a fresh state: from, to, input, room for output.
  pub iconv_opens : Text → Text → Bool
  pub iconv : Text → Text → List ℕ → ℕ → Converted

-- tsdb_data_t: a value of a column, by its type.
pub data TsdbData (F : Type 0) : Type 0 where
  tsdb_null : TsdbData F
  tsdb_bool tsdb_utinyint tsdb_usmallint tsdb_uint tsdb_ubigint : ℕ → TsdbData F
  tsdb_tinyint tsdb_smallint tsdb_int tsdb_bigint : ℤ → TsdbData F
  tsdb_float tsdb_double : F → TsdbData F
  tsdb_varchar tsdb_json : Text → TsdbData F
  -- The encoder that the server names, if any.
  tsdb_nchar : Option Text → Text → TsdbData F
  tsdb_timestamp : ℤ → ℕ → TsdbData F
  tsdb_varbinary tsdb_geometry : List ℕ → TsdbData F
  tsdb_other : TsdbData F

-- get_data_ctx_t. `pos` is `none` for (const char*)-1, else the `nr` bytes that are left;
-- `residual` holds the `end` bytes of the converted character, `curr` of which are delivered.
pub record Ctx (F : Type 0) : Type 0 where
  pub col_or_param_num : ℕ
  pub target_type : CType
  pub tsdb : TsdbData F
  pub residual : List ℕ
  pub curr : ℕ
  pub pos : Option (List ℕ)

-- stmt_get_data_args_t
pub record Args : Type 0 where
  pub col_or_param_num : ℕ
  pub target_type : CType
  pub target_value_ptr : Pointer
  pub buffer_length : ℤ
  pub str_len_ptr : Pointer
  pub ind_ptr : Pointer

-- A value stored in the application's buffer.
pub data Value (F : Type 0) : Type 0 where
  bits : ℕ → ℕ → Value F
  float_value double_value : F → Value F
  bytes : List ℕ → Value F
  timestamp_value : Tm → ℕ → Value F

pub data Write (F : Type 0) : Type 0 where
  length_at : Pointer → ℤ → Write F
  value_at : Pointer → Value F → Write F

pub record Charsets : Type 0 where
  pub sqlc_charset : Text
  pub tsdb_charset : Text
  pub charset_for_col_bind : Option Text

-- The statement: the writes into the application's memory and the diagnostics, newest first.
pub record Stmt (F : Type 0) : Type 0 where
  pub ctx : Ctx F
  pub no_total : Bool
  pub charsets : Charsets
  pub writes : List (Write F)
  pub diags : List SqlState

abbrev pub sql_null_data : ℤ
sql_null_data = negsuc 0

abbrev pub sql_no_total : ℤ
sql_no_total = negsuc 3

module _ {F : Type 0} where
  -- The SQLLEN at `p` after the writes, if one of them was there.
  abbrev pub length_of : Pointer → List (Write F) → Option ℤ
  length_of p [] = none
  length_of p (length_at q n ∷ ws) = if q == p then some n else length_of p ws
  length_of p (value_at q v ∷ ws) = length_of p ws

  abbrev pub value_of : Pointer → List (Write F) → Option (Value F)
  value_of p [] = none
  value_of p (length_at q n ∷ ws) = value_of p ws
  value_of p (value_at q v ∷ ws) = if q == p then some v else value_of p ws

  -- `if (p) *p = n`
  unfoldable pub put_length : Pointer → ℤ → Stmt F → Stmt F
  put_length p n s = if p == 0 then s else record s { writes = length_at p n ∷ s.writes }

  abbrev pub put_value : Pointer → Value F → Stmt F → Stmt F
  put_value p v s = record s { writes = value_at p v ∷ s.writes }

  abbrev pub append_err : SqlState → Stmt F → Stmt F
  append_err e s = record s { diags = e ∷ s.diags }

  -- An error with its diagnostic.
  abbrev pub fail : SqlState → Stmt F → Stmt F × SqlReturn
  fail e s = (append_err e s, sql_error)

  -- *IndPtr, then *StrLenPtr, which may be the same address.
  unfoldable pub put_lengths : Args → ℤ → ℤ → Stmt F → Stmt F
  unfolding put_length
  put_lengths a ind len s = put_length a.str_len_ptr len (put_length a.ind_ptr ind s)

  -- _stmt_return_SQL_SUCCESS_WITH_INFO
  unfoldable pub return_with_info : Stmt F → Args → ℕ → Stmt F × SqlReturn
  return_with_info s a nr_remains =
      let s' =
        put_lengths a (if s.no_total then sql_no_total else pos 0)
          (if s.no_total then sql_no_total else pos nr_remains) s in
      (append_err s01004 s', sql_success_with_info)

  -- Storing lengths leaves the context and the values stored before.
  put_length_frame :
      (p q : Pointer) (n : ℤ) (s : Stmt F)
      → ((put_length q n s).ctx ≡ s.ctx)
        × (value_of p (put_length q n s).writes ≡ value_of p s.writes)
        × ((put_length q n s).no_total ≡ s.no_total)
        × ((put_length q n s).charsets ≡ s.charsets)
  unfolding put_length
  put_length_frame p q n s = elim (Bool-cases (q == 0)) [
    | inl null ↦ rw null (refl, refl, refl, refl)
    | inr set ↦ rw set (refl, refl, refl, refl)
  ]

  pub put_lengths_frame :
      (p : Pointer) (a : Args) (m n : ℤ) (s : Stmt F)
      → ((put_lengths a m n s).ctx ≡ s.ctx)
        × (value_of p (put_lengths a m n s).writes ≡ value_of p s.writes)
        × ((put_lengths a m n s).no_total ≡ s.no_total)
        × ((put_lengths a m n s).charsets ≡ s.charsets)
  unfolding put_lengths
  put_lengths_frame p a m n s =
      let (c, v, t, h) = put_length_frame p a.str_len_ptr n (put_length a.ind_ptr m s) in
      let (c', v', t', h') = put_length_frame p a.ind_ptr m s in (c ∙ c', v ∙ v', t ∙ t', h ∙ h')

  pub return_with_info_frame :
      (p : Pointer) (s : Stmt F) (a : Args) (n : ℕ)
      → ((return_with_info s a n).1 ≡ sql_success_with_info)
        × ((return_with_info s a n).0.ctx ≡ s.ctx)
        × (value_of p (return_with_info s a n).0.writes ≡ value_of p s.writes)
  unfolding return_with_info
  return_with_info_frame p s a n = let (c, v, t, h) = put_lengths_frame p a _ _ s in (refl, c, v)
