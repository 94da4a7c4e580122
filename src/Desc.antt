-- ===== src/Desc.antt =====
-- src/core/desc.c: the descriptors that hold the application's column and parameter bindings
-- (struct descriptor_s of src/core/internal.h). Of a record the fields that binding a column
-- writes are kept. `none` as a result is a read outside the records, which C leaves undefined.
pub mod Bindings
mod Tests
use taos_connector_odbc.Prelude.{
  ℕ, zero, suc, ◌+◌, ◌-◌, ◌*◌, ◌/◌, ◌==◌, leb, ltb, if◌then◌else◌, not, Bool, true, false, Option,
  none, some, List, [], ◌∷◌, ◌++◌, set, get_elem?, replicate, map,
}
use taos_connector_odbc.Prelude.Int.{ℤ, pos}
use taos_connector_odbc.Odbc.{
  SqlReturn, sql_success, sql_error, Pointer, CType, other, SqlState, hy000, hy001, sql_c_bit,
  sql_c_tinyint, sql_c_stinyint, sql_c_utinyint, sql_c_short, sql_c_sshort, sql_c_ushort,
  sql_c_long, sql_c_slong, sql_c_ulong, sql_c_sbigint, sql_c_ubigint, sql_c_float, sql_c_double,
  sql_c_char, sql_c_wchar, sql_c_binary,
}

pub record DescRecord : Type 0 where
  pub desc_length : ℕ
  pub desc_precision : ℕ
  pub desc_scale : ℕ
  pub desc_type : CType
  pub desc_concise_type : CType
  pub desc_octet_length : ℤ
  pub desc_data_ptr : Pointer
  pub desc_indicator_ptr : Pointer
  pub desc_octet_length_ptr : Pointer
  pub bound : Bool

pub record DescHeader : Type 0 where
  pub desc_array_size : ℕ
  pub desc_array_status_ptr : Pointer
  pub desc_bind_offset_ptr : Pointer
  pub desc_bind_type : ℕ
  pub desc_rows_processed_ptr : Pointer
  pub desc_count : ℕ

pub record Descriptor : Type 0 where
  pub header : DescHeader
  pub records : List DescRecord
  pub cap : ℕ

-- What memset leaves of a record.
abbrev pub zeroed : DescRecord
zeroed = record {
  desc_length = 0;
  desc_precision = 0;
  desc_scale = 0;
  desc_type = other 0;
  desc_concise_type = other 0;
  desc_octet_length = pos 0;
  desc_data_ptr = 0;
  desc_indicator_ptr = 0;
  desc_octet_length_ptr = 0;
  bound = false;
}

abbrev pub sql_bind_by_column : ℕ
sql_bind_by_column = 0

pub desc_header_init : DescHeader
desc_header_init = record {
  desc_array_size = 1;
  desc_array_status_ptr = 0;
  desc_bind_offset_ptr = 0;
  desc_bind_type = sql_bind_by_column;
  desc_rows_processed_ptr = 0;
  desc_count = 0;
}

-- A descriptor of a statement that calloc made.
pub descriptor_init : Descriptor
unfolding desc_header_init
descriptor_init = record { header = desc_header_init; records = []; cap = 0 }

-- The loop of descriptor_reclaim_buffers over the first `n` records.
unbind_first : ℕ → List DescRecord → List DescRecord
unbind_first zero rs = rs
unbind_first (suc n) [] = []
unbind_first (suc n) (r ∷ rs) = record r { bound = false } ∷ unbind_first n rs

pub descriptor_reclaim_buffers : Descriptor → Descriptor
unfolding unbind_first
descriptor_reclaim_buffers d = record d { records = unbind_first d.header.desc_count d.records }

-- memset(records, 0, sizeof(*records) * n)
clear_first : ℕ → List DescRecord → List DescRecord
clear_first zero rs = rs
clear_first (suc n) [] = []
clear_first (suc n) (r ∷ rs) = zeroed ∷ clear_first n rs

-- _stmt_unbind_cols of src/core/stmt.c, SQLFreeStmt with SQL_UNBIND.
pub unbind_cols : Descriptor → Descriptor
unfolding clear_first
unbind_cols d = record d {
  header = record (d.header) { desc_count = 0 };
  records = clear_first d.cap d.records;
}

-- `realloc_ok` is the outcome of the realloc, if one is made.
pub descriptor_keep : Bool → Descriptor → ℕ → Descriptor × SqlReturn × List SqlState
descriptor_keep realloc_ok d nr =
    let cap = (nr + 15) / 16 * 16 in
    if leb nr d.cap
    then (d, sql_success, [])
    else if realloc_ok
    then (
      record d { records = d.records ++ replicate (cap - d.cap) zeroed; cap = cap },
      sql_success,
      [],
    )
    else (d, sql_error, hy001 ∷ [])

-- The index of the record of column `col`; column 0 has none.
abbrev pub slot : ℕ → Option ℕ
slot zero = none
slot (suc i) = some i

-- The record of column `col`.
pub col_record : Descriptor → ℕ → Option DescRecord
col_record d zero = none
col_record d (suc i) = get_elem? d.records i

-- A write to the record of column `col`.
set_record : Descriptor → ℕ → DescRecord → Descriptor
set_record d zero r = d
set_record d (suc i) r = record d { records = set d.records i r }

set_count : ℕ → Descriptor → Descriptor
set_count n d = record d { header = record (d.header) { desc_count = n } }

pub unbind_col : Descriptor → ℕ → Option Descriptor
unfolding col_record set_record set_count
unbind_col d col =
    let count = d.header.desc_count in
    if ltb count col then some d else elim (col_record d col) [
      | none ↦ none
      | some r ↦
          let d' = set_record d col (record r { bound = false }) in
          if not r.bound
          then some d
          else if ltb col count
          then some d'
          else some (set_count (count - 1) d')
    ]

-- A fixed-size type: its size in bytes is the length and the octet length.
fixed : ℕ → CType → DescRecord
fixed size t = record zeroed {
  desc_length = size;
  desc_type = t;
  desc_concise_type = t;
  desc_octet_length = pos size;
}

-- A type of variable size: the octet length is that of the application's buffer.
sized : ℤ → CType → DescRecord
sized buffer_length t = record zeroed {
  desc_type = t;
  desc_concise_type = t;
  desc_octet_length = buffer_length;
}

-- The switch on the target type of descriptor_bind_col; `none` is its default case.
pub target_record : CType → ℤ → Option DescRecord
unfolding fixed sized
target_record sql_c_bit len = some (fixed 1 sql_c_bit)
target_record sql_c_tinyint len = some (fixed 1 sql_c_tinyint)
target_record sql_c_stinyint len = some (fixed 1 sql_c_stinyint)
target_record sql_c_utinyint len = some (fixed 1 sql_c_utinyint)
target_record sql_c_short len = some (fixed 2 sql_c_short)
target_record sql_c_sshort len = some (fixed 2 sql_c_sshort)
target_record sql_c_ushort len = some (fixed 2 sql_c_ushort)
target_record sql_c_long len = some (fixed 4 sql_c_long)
target_record sql_c_slong len = some (fixed 4 sql_c_slong)
target_record sql_c_ulong len = some (fixed 4 sql_c_ulong)
target_record sql_c_sbigint len = some (fixed 8 sql_c_sbigint)
target_record sql_c_ubigint len = some (fixed 8 sql_c_ubigint)
target_record sql_c_float len = some (fixed 4 sql_c_float)
target_record sql_c_double len = some (fixed 8 sql_c_double)
target_record sql_c_char len = some (sized len sql_c_char)
target_record sql_c_wchar len = some (sized len sql_c_wchar)
target_record sql_c_binary len = some (sized len sql_c_binary)
target_record _ len = none

-- The arguments of SQLBindCol.
pub record BindCol : Type 0 where
  pub column_number : ℕ
  pub target_type : CType
  pub target_value_ptr : Pointer
  pub buffer_length : ℤ
  pub str_len_or_ind_ptr : Pointer

-- What a call leaves: the descriptor, the return code, and the diagnostics appended to the owner.
pub record Bound : Type 0 where
  pub descriptor : Descriptor
  pub returns : SqlReturn
  pub diags : List SqlState

with_pointers : BindCol → DescRecord → DescRecord
with_pointers a r = record r {
  desc_data_ptr = a.target_value_ptr;
  desc_indicator_ptr = a.str_len_or_ind_ptr;
  desc_octet_length_ptr = a.str_len_or_ind_ptr;
  bound = true;
}

raise_count : ℕ → Descriptor → Descriptor
unfolding set_count
raise_count col d = if ltb d.header.desc_count col then set_count col d else d

-- descriptor_bind_col behind descriptor_keep: the record is cleared, then filled in.
fill_record : Descriptor → BindCol → Option DescRecord → Bound
unfolding set_record raise_count with_pointers
fill_record d a none = record {
  descriptor = set_record d a.column_number zeroed;
  returns = sql_error;
  diags = hy000 ∷ [];
}
fill_record d a (some r) = record {
  descriptor = raise_count a.column_number (set_record d a.column_number (with_pointers a r));
  returns = sql_success;
  diags = [];
}

bind_kept : Descriptor × SqlReturn × List SqlState → BindCol → Option Bound
unfolding fill_record
bind_kept (d, sql_success, diags) a = elim (col_record d a.column_number) [
  | none ↦ none
  | some _ ↦ some (fill_record d a (target_record a.target_type a.buffer_length))
]
bind_kept (d, _, diags) a = some (record { descriptor = d; returns = sql_error; diags = diags })

unbound : Option Descriptor → Option Bound
unbound none = none
unbound (some d) = some (record { descriptor = d; returns = sql_success; diags = [] })

pub descriptor_bind_col : Bool → Descriptor → BindCol → Option Bound
unfolding bind_kept unbound
descriptor_bind_col realloc_ok d a =
    if a.target_value_ptr == 0
    then unbound (unbind_col d a.column_number)
    else bind_kept (descriptor_keep realloc_ok d a.column_number) a

-- stmt_bind_col of src/core/stmt.c, over the statement's current ARD.
pub stmt_bind_col : Bool → Descriptor → BindCol → Option Bound
stmt_bind_col realloc_ok ard a =
    if a.column_number == 0
    then some (record { descriptor = ard; returns = sql_error; diags = hy000 ∷ [] })
    else descriptor_bind_col realloc_ok ard a
