-- ===== src/Fetch/Rows/Cells.antt =====
-- src/core/stmt.c: filling a row reads each bound column into the row's element of its arrays.
use taos_connector_odbc.Prelude.{
  ℕ, suc, ◌+◌, ◌*◌, ◌%◌, ◌^◌, leb, ltb, ◌==◌, if◌then◌else◌, not, ◌&&◌, ◌||◌, Bool, true, false,
  List, [], ◌∷◌, take, ◌≡◌, refl, sym, ap, ◌∙◌, Bool-cases, inl, inr, arith,
}
use taos_connector_odbc.Prelude.Int.{ℤ, pos, low_bits}
use taos_connector_odbc.Odbc.{
  Text, Pointer, SqlReturn, sql_success, sql_success_with_info, sql_no_data, sql_error,
}
use taos_connector_odbc.Desc.{DescRecord, DescHeader, Descriptor}
use taos_connector_odbc.GetData.State.{Libc, Args, Stmt}
use taos_connector_odbc.GetData.Char.{Names}
use taos_connector_odbc.GetData.Session.{Base, get_data_x}
use taos_connector_odbc.Fetch.Rows.{get_data_ctx_reset, fill_col, fill_cols, fill_row}

-- Element `i` of an array of elements of `size` bytes at `ptr`, which lies `offset` bytes further;
-- NULL stays NULL.
pub element : Pointer → ℕ → ℤ → ℕ → Pointer
element ptr offset size i = if ptr == 0 then 0 else (ptr + offset + low_bits 64 size * i) % 2 ^ 64

-- The number at DESC_BIND_OFFSET_PTR, if there is one.
pub bind_offset : (Pointer → ℤ) → Pointer → ℕ
bind_offset memory ptr = if ptr == 0 then 0 else low_bits 64 (memory ptr)

-- The columns to read of the records from `i` on: bound to memory, within DESC_COUNT.
pub bound_columns : ℕ → ℕ → List DescRecord → List (ℕ × DescRecord)
bound_columns count i [] = []
bound_columns count i (r ∷ rs) =
    let later = bound_columns count (suc i) rs in
    if ltb i count && (r.bound && not (r.desc_data_ptr == 0)) then (i, r) ∷ later else later

module _ (L : Libc) (names : Names) (true_text : Text) (false_text : Text) (memory : Pointer → ℤ)
    (ard : Descriptor) (ird : DescHeader) where
  -- SQLGetData of a column into its element for row `i_row`, with the length and the indicator, of 8
  -- bytes each, into theirs.
  pub cell_args : ℕ → ℕ → DescRecord → Args
  unfolding element bind_offset
  cell_args i_row i_col r =
      let offset = bind_offset memory ard.header.desc_bind_offset_ptr in
      record {
        col_or_param_num = suc i_col;
        target_type = r.desc_concise_type;
        target_value_ptr = element r.desc_data_ptr offset r.desc_octet_length i_row;
        buffer_length = r.desc_octet_length;
        str_len_ptr = element r.desc_octet_length_ptr offset (pos 8) i_row;
        ind_ptr = element r.desc_indicator_ptr offset (pos 8) i_row;
      }

  -- Behind a column: a failure ends the row.
  pub next_column :
      Bool
      → (Bool → Stmt L.Float → Stmt L.Float × SqlReturn)
      → Stmt L.Float × SqlReturn
      → Stmt L.Float × SqlReturn
  next_column info later (s, sql_success) = later info (get_data_ctx_reset s)
  next_column info later (s, sql_success_with_info) = later true (get_data_ctx_reset s)
  next_column info later (s, sql_no_data) = (get_data_ctx_reset s, sql_error)
  next_column info later (s, sql_error) = (get_data_ctx_reset s, sql_error)

  pub read_columns :
      Base L.Float → ℕ → Bool → List (ℕ × DescRecord) → Stmt L.Float → Stmt L.Float × SqlReturn
  unfolding next_column cell_args
  read_columns base i_row info [] s = (s, if info then sql_success_with_info else sql_success)
  read_columns base i_row info ((i_col, r) ∷ cs) s =
      next_column info (λ info' s'. read_columns base i_row info' cs s')
        (get_data_x L names true_text false_text base s (cell_args i_row i_col r))

  -- A row by its bound columns.
  pub read_row : Base L.Float → ℕ → Stmt L.Float → Stmt L.Float × SqlReturn
  unfolding read_columns
  read_row base i_row s =
      read_columns base i_row false
        (bound_columns ard.header.desc_count 0 (take ard.cap ard.records)) s

  fill : Base L.Float → ℕ → Bool → ℕ → List DescRecord → Stmt L.Float → Stmt L.Float × SqlReturn
  fill = fill_cols L names true_text false_text memory ard ird

  filled_column :
      (base : Base L.Float) (i_row i_col : ℕ) (info : Bool) (rs : List DescRecord)
      (cs : List (ℕ × DescRecord)) (out : Stmt L.Float × SqlReturn)
      → ((info' : Bool) (s' : Stmt L.Float)
          → fill base i_row info' i_col rs s' ≡ read_columns base i_row info' cs s')
      → (elim out.1 [
        | sql_success ↦ fill base i_row info i_col rs (get_data_ctx_reset out.0)
        | sql_success_with_info ↦ fill base i_row true i_col rs (get_data_ctx_reset out.0)
        | sql_no_data ↦ (get_data_ctx_reset out.0, sql_error)
        | sql_error ↦ (get_data_ctx_reset out.0, sql_error)
      ])
        ≡ next_column info (λ info' s'. read_columns base i_row info' cs s') out
  unfolding next_column
  filled_column base i_row i_col info rs cs (s, sql_success) h = h info (get_data_ctx_reset s)
  filled_column base i_row i_col info rs cs (s, sql_success_with_info) h =
      h true (get_data_ctx_reset s)
  filled_column base i_row i_col info rs cs (s, sql_no_data) h = refl
  filled_column base i_row i_col info rs cs (s, sql_error) h = refl

  fill-skipped :
      (base : Base L.Float) (i_row i_col : ℕ) (info : Bool) (r : DescRecord) (rs : List DescRecord)
      (s : Stmt L.Float)
      → (leb ard.header.desc_count i_col || (not r.bound || (r.desc_data_ptr == 0))) ≡ true
      → fill base i_row info i_col (r ∷ rs) s ≡ fill base i_row info (suc i_col) rs s
  unfolding fill fill_cols
  fill-skipped base i_row i_col info r rs s e =
      let out = fill_col L names true_text false_text memory ard ird base i_row i_col r s in
      ap
        (λ (b : Bool). elim b [
          | true ↦ fill base i_row info (suc i_col) rs s
          | false ↦ elim out.1 [
            | sql_success ↦ fill base i_row info (suc i_col) rs (get_data_ctx_reset out.0)
            | sql_success_with_info ↦ fill base i_row true (suc i_col) rs (get_data_ctx_reset out.0)
            | sql_no_data ↦ (get_data_ctx_reset out.0, sql_error)
            | sql_error ↦ (get_data_ctx_reset out.0, sql_error)
          ]
        ])
        e

  fill_col-read :
      (base : Base L.Float) (i_row i_col : ℕ) (r : DescRecord) (s : Stmt L.Float)
      → (leb ard.header.desc_count i_col || (r.desc_data_ptr == 0)) ≡ false
      → fill_col L names true_text false_text memory ard ird base i_row i_col r s
        ≡ get_data_x L names true_text false_text base s (cell_args i_row i_col r)
  unfolding fill_col cell_args element bind_offset
  fill_col-read base i_row i_col r s e =
      ap
        (λ (b : Bool).
          if b
          then (s, sql_success)
          else get_data_x L names true_text false_text base s (cell_args i_row i_col r))
        e

  fill-column :
      (base : Base L.Float) (i_row i_col : ℕ) (info : Bool) (r : DescRecord) (rs : List DescRecord)
      (s : Stmt L.Float) (cs : List (ℕ × DescRecord))
      → (leb ard.header.desc_count i_col || (not r.bound || (r.desc_data_ptr == 0))) ≡ false
      → (leb ard.header.desc_count i_col || (r.desc_data_ptr == 0)) ≡ false
      → ((info' : Bool) (s' : Stmt L.Float)
          → fill base i_row info' (suc i_col) rs s' ≡ read_columns base i_row info' cs s')
      → fill base i_row info i_col (r ∷ rs) s ≡ read_columns base i_row info ((i_col, r) ∷ cs) s
  unfolding fill fill_cols read_columns
  fill-column base i_row i_col info r rs s cs e e' later =
      let out = fill_col L names true_text false_text memory ard ird base i_row i_col r s in
      ap
        (λ (b : Bool). elim b [
          | true ↦ fill base i_row info (suc i_col) rs s
          | false ↦ elim out.1 [
            | sql_success ↦ fill base i_row info (suc i_col) rs (get_data_ctx_reset out.0)
            | sql_success_with_info ↦ fill base i_row true (suc i_col) rs (get_data_ctx_reset out.0)
            | sql_no_data ↦ (get_data_ctx_reset out.0, sql_error)
            | sql_error ↦ (get_data_ctx_reset out.0, sql_error)
          ]
        ])
        e
      ∙ filled_column base i_row (suc i_col) info rs cs out later
      ∙ ap (next_column info (λ info' s'. read_columns base i_row info' cs s'))
          (fill_col-read base i_row i_col r s e')

  fill_cols-read_columns :
      (base : Base L.Float) (i_row i_col : ℕ) (info : Bool) (rs : List DescRecord)
      (s : Stmt L.Float)
      → fill base i_row info i_col rs s
        ≡ read_columns base i_row info (bound_columns ard.header.desc_count i_col rs) s
  unfolding fill fill_cols read_columns bound_columns
  fill_cols-read_columns base i_row i_col info [] s = refl
  fill_cols-read_columns base i_row i_col info (r ∷ rs) s =
      let later = λ (info' : Bool) (s' : Stmt L.Float).
        fill_cols-read_columns base i_row (suc i_col) info' rs s' in
      let cs = bound_columns ard.header.desc_count (suc i_col) rs in
      let pick = λ (b : Bool). read_columns base i_row info (if b then (i_col, r) ∷ cs else cs) s in
      elim (Bool-cases
        (ltb i_col ard.header.desc_count && (r.bound && not (r.desc_data_ptr == 0)))) [
          | inl wanted ↦
              fill-column base i_row i_col info r rs s cs (ground arith) (ground arith) later
              ∙ sym (ap pick wanted)
          | inr unwanted ↦
              fill-skipped base i_row i_col info r rs s (ground arith)
              ∙ later info s
              ∙ sym (ap pick unwanted)
        ]

  pub fill_row-read_row :
      (base : Base L.Float) (i_row : ℕ) (s : Stmt L.Float)
      → fill_row L names true_text false_text memory ard ird base i_row s ≡ read_row base i_row s
  unfolding fill_row read_row fill
  fill_row-read_row base i_row s =
      fill_cols-read_columns base i_row 0 false (take ard.cap ard.records) s
