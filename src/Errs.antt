-- ===== src/Errs.antt =====
-- src/core/errs.c: the diagnostic records of a handle (struct errs_s of src/core/internal.h).
-- Both intrusive lists are lists; a node moves between them with its stale contents.
pub mod Records
mod Tests
use taos_connector_odbc.Prelude.{
  ℕ, zero, suc, ◌+◌, ◌==◌, if◌then◌else◌, Bool, true, false, Option, none, some, List, [], ◌∷◌,
  ◌++◌, take, length, ◌&&◌,
}
use taos_connector_odbc.Prelude.Int.{ℤ, pos}
use taos_connector_odbc.Odbc.{SqlReturn, sql_success, sql_no_data, Text, printed}

-- struct err_s: `estr` is what its `buf` holds.
pub record Err : Type 0 where
  pub err : ℤ
  pub sql_state : Text
  pub estr : Text

-- The part of conn_t that `conn_data_source` reads.
pub record DataSource : Type 0 where
  pub dsn : Option Text
  pub driver : Option Text

pub record Errs : Type 0 where
  pub errs : List Err
  pub frees : List Err
  pub count : ℕ
  pub connected_conn : Option DataSource

-- `__FILE__` after tod_basename, the digits of `__LINE__`, and `__func__`.
pub record Site : Type 0 where
  pub file : Text
  pub line : Text
  pub func : Text

-- The arguments of one call of errs_append.
pub record Diag : Type 0 where
  pub site : Site
  pub sql_state : Text
  pub e : ℤ
  pub estr : Text

pub errs_init : Option DataSource → Errs
errs_init conn = record { errs = []; frees = []; count = 0; connected_conn = conn }

or_else : Option Text → Text → Text
or_else none d = d
or_else (some t) d = t

pub conn_data_source : Option DataSource → Text
unfolding or_else
conn_data_source none = []
conn_data_source (some c) = or_else c.dsn (or_else c.driver [])

-- "[vendor][component][data source]file[line]:func(): estr"
pub message : Text → Text → Text → Site → Text → Text
message vendor component source at estr =
    (b'[' ∷ vendor)
    ++ ((b']' ∷ b'[' ∷ component)
        ++ ((b']' ∷ b'[' ∷ source)
            ++ ((b']' ∷ at.file)
                ++ ((b'[' ∷ at.line)
                    ++ ((b']' ∷ b':' ∷ at.func) ++ ((b'(' ∷ b')' ∷ b':' ∷ b' ' ∷ []) ++ estr))))))

-- The sizes of `buf` and `sql_state` in struct err_s.
abbrev pub buf_size : ℕ
buf_size = 1024

abbrev pub sql_state_size : ℕ
sql_state_size = 6

module _ (vendor component : Text) where
  pub err_set_x : Text → Diag → Err
  err_set_x source d = record {
    err = d.e;
    sql_state = take sql_state_size d.sql_state;
    estr = printed buf_size (message vendor component source d.site d.estr);
  }

  fresh : Err
  fresh = record { err = pos 0; sql_state = []; estr = [] }

  -- The first node of `frees` is filled in and moved to the end of `errs`.
  fill_first : Errs → Diag → List Err → Errs
  fill_first s d [] = s
  fill_first s d (node ∷ rest) = record s {
    errs = s.errs ++ err_set_x (conn_data_source s.connected_conn) d ∷ [];
    frees = rest;
    count = s.count + 1;
  }

  -- `calloc_ok` is the outcome of the calloc that an empty `frees` asks for.
  pub errs_append_x : Bool → Errs → Diag → Errs
  unfolding fill_first fresh
  errs_append_x calloc_ok s d = elim s.frees [
    | [] ↦ if calloc_ok then fill_first s d (fresh ∷ []) else s
    | node ∷ rest ↦ fill_first s d (node ∷ rest)
  ]

  -- A run of calls of errs_append, each with the outcome of its calloc.
  pub append_all : Errs → List (Bool × Diag) → Errs
  append_all s [] = s
  append_all s ((calloc_ok, d) ∷ ds) = append_all (errs_append_x calloc_ok s d) ds

pub errs_clr_x : Errs → Errs
errs_clr_x s = elim s.errs [
  | [] ↦ s
  | e ∷ es ↦ record s { errs = []; frees = s.frees ++ (e ∷ es); count = 0 }
]

pub errs_release_x : Errs → Errs
errs_release_x s = record { errs = []; frees = []; count = 0; connected_conn = none }

-- The loop of the errs_get_diag_*: the entry at which the counter `i` meets `rec_number`.
find_rec : ℕ → ℕ → List Err → Option Err
find_rec rec_number i [] = none
find_rec rec_number i (p ∷ ps) = if i == rec_number then some p else find_rec rec_number (i + 1) ps

-- What errs_get_diag_rec_x stores through the pointers that are not NULL.
pub record DiagRec : Type 0 where
  pub sql_state : Text
  pub native_error : ℤ
  pub message_text : Text
  pub text_length : ℕ

pub lookup_rec : Errs → ℕ → Option Err
unfolding find_rec
lookup_rec s rec_number =
    if rec_number == 0
    then none
    else elim s.errs [ [] ↦ none | p ∷ ps ↦ find_rec rec_number 1 (p ∷ ps) ]

-- A field of the record, as SQLGetDiagField stores it: its text and its whole length.
pub record DiagField : Type 0 where
  pub info : Text
  pub string_length : ℕ

pub returned {ℓ} : {A : Type ℓ} → Option Err → (Err → A) → SqlReturn × Option A
returned none out = (sql_no_data, none)
returned (some p) out = (sql_success, some (out p))

pub diag_rec : ℕ → Err → DiagRec
diag_rec buffer_length p = record {
  sql_state = take sql_state_size p.sql_state;
  native_error = p.err;
  message_text = printed buffer_length p.estr;
  text_length = length p.estr;
}

pub errs_get_diag_rec_x : Errs → ℕ → ℕ → SqlReturn × Option DiagRec
unfolding lookup_rec returned
errs_get_diag_rec_x s rec_number buffer_length =
    returned (lookup_rec s rec_number) (diag_rec buffer_length)

pub errs_get_diag_field_sqlstate_x : Errs → ℕ → ℕ → SqlReturn × Option DiagField
unfolding lookup_rec returned
errs_get_diag_field_sqlstate_x s rec_number buffer_length = returned (lookup_rec s rec_number) λ p.
    record {
      info = printed buffer_length (take 6 p.sql_state);
      string_length = length (take 6 p.sql_state);
    }

abbrev pub iso_9075 : Text
iso_9075 = b'I' ∷ b'S' ∷ b'O' ∷ b' ' ∷ b'9' ∷ b'0' ∷ b'7' ∷ b'5' ∷ []

abbrev pub odbc_3_0 : Text
odbc_3_0 = b'O' ∷ b'D' ∷ b'B' ∷ b'C' ∷ b' ' ∷ b'3' ∷ b'.' ∷ b'0' ∷ []

-- "ODBC 3.0" for the states that begin with IM, "ISO 9075" for all others.
pub class_origin : Text → Text
class_origin [] = iso_9075
class_origin (a ∷ []) = iso_9075
class_origin (a ∷ b ∷ rest) = if (a == b'I') && (b == b'M') then odbc_3_0 else iso_9075

pub errs_get_diag_field_class_origin_x : Errs → ℕ → ℕ → SqlReturn × Option DiagField
unfolding lookup_rec returned
errs_get_diag_field_class_origin_x s rec_number buffer_length =
    returned (lookup_rec s rec_number) λ p. record {
      info = printed buffer_length (class_origin p.sql_state);
      string_length = length (class_origin p.sql_state);
    }

pub errs_get_diag_field_subclass_origin_x : Errs → ℕ → ℕ → SqlReturn × Option DiagField
unfolding errs_get_diag_field_class_origin_x
errs_get_diag_field_subclass_origin_x s rec_number buffer_length =
    errs_get_diag_field_class_origin_x s rec_number buffer_length
