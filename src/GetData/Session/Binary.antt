-- ===== src/GetData/Session/Binary.antt =====
-- src/core/stmt.c: a VARCHAR column read as SQL_C_BINARY by calls of SQLGetData.
use taos_connector_odbc.Prelude.{
  ℕ, suc, ◌==◌, Bool, true, false, Option, none, some, List, length, ◌≡◌, refl, sym, ap, ◌∙◌, arith,
  ==_iff,
}
use taos_connector_odbc.Prelude.Int.{pos}
use taos_connector_odbc.Odbc.{Text, Pointer, sql_c_binary, SqlReturn, type_code}
use taos_connector_odbc.GetData.State.{Libc, Ctx, Stmt, Args, TsdbData, tsdb_varchar}
use taos_connector_odbc.GetData.Char.{Names}
use taos_connector_odbc.GetData.Parts.{Part, read_all, read_all-Part, read_all-same}
use taos_connector_odbc.GetData.Binary.{copy_buf_to_binary}
use taos_connector_odbc.GetData.Binary.Delivery.{copy_buf_to_binary-Part}
use taos_connector_odbc.GetData.Copy.{get_data_copy, copy_data, target_is_text}
use taos_connector_odbc.GetData.Varchar.{copy_varchar}
use mathlib.Core.Path.{subst}
use taos_connector_odbc.GetData.Session.{
  Base, get_data_x, start_column, prepare_ctx, copy_if_prepared, copy_if_same_type, pending_of,
  set_pending, prepare_column,
}

-- The bytes that are pending for a VARCHAR column, where a series of calls is under way.
varchar_pos : {F : Type 0} → TsdbData F → Option (List ℕ) → Option (List ℕ)
varchar_pos (tsdb_varchar t) p = p
varchar_pos _ p = none

gate : {F : Type 0} → Bool → Bool → TsdbData F → Option (List ℕ) → Option (List ℕ)
unfolding varchar_pos
gate false b d p = none
gate true false d p = none
gate true true d p = varchar_pos d p

varchar_pos-inv :
    {F : Type 0} (d : TsdbData F) (p : Option (List ℕ)) (bs : List ℕ)
    → varchar_pos d p ≡ some bs
    → (t : Text) × (d ≡ tsdb_varchar t) × (p ≡ some bs)
unfolding varchar_pos
varchar_pos-inv (tsdb_varchar t) p bs e = (t, refl, e)
varchar_pos-inv _ p bs e = absurd cc

gate-inv :
    {F : Type 0} (x y : Bool) (d : TsdbData F) (p : Option (List ℕ)) (bs : List ℕ)
    → gate x y d p ≡ some bs
    → (x ≡ true) × (y ≡ true) × (t : Text) × (d ≡ tsdb_varchar t) × (p ≡ some bs)
unfolding gate
gate-inv false y d p bs e = absurd cc
gate-inv true false d p bs e = absurd cc
gate-inv true true d p bs e =
    let (t, is_varchar, left) = varchar_pos-inv d p bs e in (refl, refl, t, is_varchar, left)

module _ (L : Libc) (names : Names) (true_text : Text) (false_text : Text) (base : Base L.Float)
    (num : ℕ) (p : Pointer) (n : ℕ) (ind : Pointer) where
  -- The arguments of each call: a buffer of suc n bytes at p.
  abbrev pub binary_args : Args
  binary_args = record {
    col_or_param_num = num;
    target_type = sql_c_binary;
    target_value_ptr = p;
    buffer_length = pos (suc n);
    str_len_ptr = ind;
    ind_ptr = ind;
  }

  abbrev pub call : Stmt L.Float → Stmt L.Float × SqlReturn
  call s = get_data_x L names true_text false_text base s binary_args

  left_in : Ctx L.Float → Option (List ℕ)
  unfolding gate type_code
  left_in c = gate (c.col_or_param_num == num) (type_code c.target_type == 16) c.tsdb c.pos

  -- A call within the series is a delivery of bytes.
  call-copy :
      (s : Stmt L.Float) (t : Text)
      → (s.ctx.col_or_param_num == num) ≡ true
      → (type_code s.ctx.target_type == 16) ≡ true
      → s.ctx.tsdb ≡ tsdb_varchar t
      → call s ≡ copy_buf_to_binary s binary_args
  unfolding get_data_x copy_if_same_type get_data_copy copy_data copy_varchar type_code
  call-copy s t here same d = rw (here, same) (ap (λ d. copy_data L names d s binary_args) d)

  call-Part :
      (s : Stmt L.Float) (pending : List ℕ)
      → left_in s.ctx ≡ some pending
      → Part p pending (λ s. left_in s.ctx) (call s)
  unfolding left_in gate varchar_pos
  call-Part s pending e =
      let (here, same, t, d, left) = gate-inv _ _ _ _ _ e in
      subst (λ out. Part p pending (λ s. left_in s.ctx) out) (sym (call-copy s t here same d))
        (copy_buf_to_binary-Part left_in binary_args n refl s pending left
          (λ l. keeps l here same d))
    where
      keeps :
          (l : List ℕ) {t : Text}
          → (s.ctx.col_or_param_num == num) ≡ true
          → (type_code s.ctx.target_type == 16) ≡ true
          → s.ctx.tsdb ≡ tsdb_varchar t
          → gate
              (s.ctx.col_or_param_num == num)
              (type_code s.ctx.target_type == 16)
              s.ctx.tsdb
              (some l)
            ≡ some l
      keeps l here same d = rw (here, same) (ap (λ d. varchar_pos d (some l)) d)

  -- The state after the preparation of the column.
  prepared : Text → Stmt L.Float → Stmt L.Float
  prepared t s = record s {
    ctx = record (s.ctx) {
      col_or_param_num = num;
      target_type = sql_c_binary;
      tsdb = tsdb_varchar t;
      pos = some t;
    };
  }

  call-prepared :
      (s : Stmt L.Float) (t : Text)
      → (s.ctx.col_or_param_num == num) ≡ false
      → base.get_data num ≡ some (tsdb_varchar t)
      → call s ≡ call (prepared t s)
  unfolding get_data_x copy_if_prepared prepare_ctx start_column prepared prepare_column set_pending
      pending_of target_is_text
  call-prepared s t new column = rw (new, column, (==_iff num num).1 refl) refl

  -- Calls of SQLGetData (_stmt_get_data_x) with SQL_C_BINARY and a buffer of at least one byte, on
  -- a VARCHAR column that no call has begun, until one succeeds without information: the parts
  -- that they deliver are the bytes of the column, in order, and there are at most as many calls
  -- as bytes and one more.
  pub varchar_as_binary-read_all :
      (s : Stmt L.Float) (t : Text)
      → (s.ctx.col_or_param_num == num) ≡ false
      → base.get_data num ≡ some (tsdb_varchar t)
      → read_all (suc (length t)) call p s ≡ some t
  unfolding left_in gate varchar_pos prepared
  varchar_as_binary-read_all s t new column =
      read_all-same call p s (prepared t s) (call-prepared s t new column) (suc (length t))
      ∙ read_all-Part call p (λ s. left_in s.ctx) call-Part (suc (length t)) (prepared t s) t
          (rw ((==_iff num num).1 refl) refl) (omega arith)
