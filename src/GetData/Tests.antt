-- ===== src/GetData/Tests.antt =====
-- Concrete calls for the theorems on SQLGetData (src/core/stmt.c), over a small C library.
use taos_connector_odbc.Prelude.{
  ℕ, ◌+◌, ◌%◌, ◌^◌, true, false, none, some, List, [], ◌∷◌, length, ◌≡◌, refl, arith, inl,
}
use taos_connector_odbc.Prelude.Int.{pos, pos_part}
use taos_connector_odbc.Odbc.{sql_no_data, sql_c_binary, sql_c_utinyint, sql_c_slong}
use taos_connector_odbc.GetData.State.{Libc, done, tsdb_varchar, Args, Stmt}
use taos_connector_odbc.GetData.Charset.{iconv_calc}
use taos_connector_odbc.GetData.Charset.Rounds.{ended, iconv_calc-rounds}
use taos_connector_odbc.GetData.Char.{Names}
use taos_connector_odbc.GetData.Parts.{read_all}
use taos_connector_odbc.GetData.Binary.{
  copy_buf_to_binary, copy_varbinary_to_binary, copy_geometry_to_binary,
}
use taos_connector_odbc.GetData.Binary.Delivery.{copy_buf_to_binary-read_all, blob-read_all}
use taos_connector_odbc.GetData.Binary.Drained.{copy_buf_to_binary-no_data, blob-no_data}
use taos_connector_odbc.GetData.Copy.Narrowing.{
  Narrowed, ctype, uint8, signed, value, copy_integer, copy_integer-Narrowed,
}
use taos_connector_odbc.GetData.Session.{Base}
use taos_connector_odbc.GetData.Session.Binary.{call, varchar_as_binary-read_all}

-- Numbers stand for floats; conversion between charsets copies the bytes.
abbrev pub toy : Libc
toy = record {
  Float = ℕ;
  float_bits = λ w n. n % 2 ^ w;
  narrow = λ n. n;
  print_int = λ v. (48 + pos_part v) ∷ [];
  print_float = λ n. (48 + n) ∷ [];
  cached = λ s. true;
  strtoll = λ s. record { value = pos 7; end_pos = length s; erange = false };
  strtof = λ s. record { value = 7; end_pos = length s; erange = false };
  strtod = λ s. record { value = 7; end_pos = length s; erange = false };
  is_huge = λ n. false;
  is_float_zero = λ n. false;
  localtime = λ t. none;
  print_stamp = λ tm w n. [];
  iconv_opens = λ from to. true;
  iconv = λ from to bs room. record { consumed = length bs; output = bs; status = done };
}

abbrev pub toy_names : Names
toy_names = record { utf_32le = 1 ∷ []; utf_16le = 2 ∷ [] }

-- A column of five bytes of which nothing is delivered.
abbrev five : List ℕ
five = 104 ∷ 101 ∷ 108 ∷ 108 ∷ 111 ∷ []

abbrev into_two : Args
into_two = record {
  col_or_param_num = 1;
  target_type = sql_c_binary;
  target_value_ptr = 4096;
  buffer_length = pos 2;
  str_len_ptr = 8192;
  ind_ptr = 8192;
}

abbrev five_pending : Stmt ℕ
five_pending = record {
  ctx = record {
    col_or_param_num = 1;
    target_type = sql_c_binary;
    tsdb = tsdb_varchar five;
    residual = [];
    curr = 0;
    pos = some five;
  };
  no_total = false;
  charsets = record { sqlc_charset = []; tsdb_charset = []; charset_for_col_bind = none };
  writes = [];
  diags = [];
}

copy_buf_to_binary-read_all_example :
    read_all 6 (λ s. copy_buf_to_binary s into_two) 4096 five_pending ≡ some five
copy_buf_to_binary-read_all_example =
    copy_buf_to_binary-read_all into_two 1 refl five_pending five refl

blob-read_all_example :
    (read_all 6 (λ s. copy_varbinary_to_binary s into_two) 4096 five_pending ≡ some five)
    × (read_all 6 (λ s. copy_geometry_to_binary s into_two) 4096 five_pending ≡ some five)
blob-read_all_example = blob-read_all into_two 1 refl five_pending five refl

-- The same column before any call, behind an implementation that has it as column 3.
abbrev third_column : Base ℕ
third_column = record { get_data = λ i. some (tsdb_varchar five); get_col_count = some 3 }

varchar_as_binary-read_all_example :
    read_all 6 (call toy toy_names [] [] third_column 3 4096 1 8192) 4096 five_pending ≡ some five
varchar_as_binary-read_all_example =
    varchar_as_binary-read_all toy toy_names [] [] third_column 3 4096 1 8192 five_pending five refl
      refl

abbrev as_utinyint : Args
as_utinyint = record into_two { target_type = sql_c_utinyint }

-- 300 does not fit into a byte.
copy_integer-Narrowed_example :
    Narrowed uint8
      (value (signed (pos 300)))
      4096
      five_pending
      (copy_integer toy toy_names (signed (pos 300)) five_pending as_utinyint)
unfolding ctype
copy_integer-Narrowed_example =
    copy_integer-Narrowed toy toy_names uint8 (signed (pos 300)) five_pending as_utinyint refl

abbrev as_slong : Args
as_slong = record into_two { target_type = sql_c_slong }

iconv_calc-rounds_example : ended (iconv_calc toy 5 (1 ∷ []) (2 ∷ []) five) ≡ true
iconv_calc-rounds_example =
    iconv_calc-rounds toy (1 ∷ []) (2 ∷ []) (λ b bs. inl (omega arith)) 5 five (omega arith)

abbrev into_eight : Args
into_eight = record into_two { buffer_length = pos 8 }

copy_buf_to_binary-no_data_example :
    copy_buf_to_binary (copy_buf_to_binary five_pending into_eight).0 into_two
    ≡ ((copy_buf_to_binary five_pending into_eight).0, sql_no_data)
unfolding copy_buf_to_binary
copy_buf_to_binary-no_data_example =
    copy_buf_to_binary-no_data five_pending into_eight into_two refl

blob-no_data_example :
    (copy_varbinary_to_binary (copy_varbinary_to_binary five_pending into_eight).0 into_two
      ≡ ((copy_varbinary_to_binary five_pending into_eight).0, sql_no_data))
    × (copy_geometry_to_binary (copy_geometry_to_binary five_pending into_eight).0 into_two
        ≡ ((copy_geometry_to_binary five_pending into_eight).0, sql_no_data))
unfolding copy_varbinary_to_binary copy_geometry_to_binary
blob-no_data_example = blob-no_data five_pending into_eight into_two refl refl
