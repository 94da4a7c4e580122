-- ===== src/Params/Batches/Rows/Converted.antt =====
-- src/core/stmt.c: when a column of parameters converts its rows to the values that they stand for.
use taos_connector_odbc.Prelude.{
  ℕ, ◌+◌, ◌≤◌, ◌<◌, Bool, true, false, Option, none, some, length, get_elem?, ◌≡◌, ◌≢◌,
}
use taos_connector_odbc.Odbc.{SqlReturn, sql_error}
use taos_connector_odbc.Params.State.{ParamState, index}
use taos_connector_odbc.Params.Batches.Rows.{Bind, Column, unload, passes, cell}

abbrev pub element : Option ℕ → Option (Option ℕ)
element none = none
element (some v) = some (some v)

abbrev pub entry_of : Option Bool → Option ℕ → Option (Option ℕ)
entry_of none v = none
entry_of (some true) v = some none
entry_of (some false) v = element v

-- What TDengine reads of row `j` of a batch: `some none` is NULL.
abbrev pub entry : Bind → ℕ → Option (Option ℕ)
entry b j = entry_of (get_elem? b.flags j) (get_elem? b.elements j)

-- A state in which a row of a column is converted.
pub record Usable (p : ParamState) : Type 0 where
  pub signed : p.unsigned ≡ false
  pub column : p.is_subtbl ≡ false
  pub flagged : p.is_null ≡ some (unload p).flags
  pub from : p.i_batch_offset ≤ p.i_row
  pub in_flags : index p < length (unload p).flags
  pub in_elements : index p < length p.buffer

-- What a row leaves alone.
pub record Kept (p p' : ParamState) : Type 0 where
  pub signed : p'.unsigned ≡ false
  pub column : p'.is_subtbl ≡ false
  pub flagged : p'.is_null ≡ some (unload p').flags
  pub offset : p'.i_batch_offset ≡ p.i_batch_offset
  pub flags_length : length (unload p').flags ≡ length (unload p).flags
  pub elements_length : length p'.buffer ≡ length p.buffer
  pub others : (j : ℕ) → j ≢ index p → entry (unload p') j ≡ entry (unload p) j

-- The answer for a row that stands for a value, NULL included, and for one that does not.
abbrev pub Answered : Bool → ParamState → ParamState × SqlReturn → Option (Option ℕ) → Type 0
Answered strict p out (some v) =
    (passes strict out.1 ≡ true) × (entry (unload out.0) (index p) ≡ some v)
Answered strict p out none = out.1 ≡ sql_error

-- The column stores what its rows stand for, and fails exactly where that is nothing.
abbrev pub Converts : Bool → Column → (ℕ → Option (Option ℕ)) → Type 0
Converts strict col value =
    (p : ParamState)
    → Usable p
    → Kept p (cell col p).0 × Answered strict p (cell col p) (value p.i_row)

-- The state between two rows of a batch of `n` from row `offset` on.
pub record Steady (offset n : ℕ) (p : ParamState) : Type 0 where
  pub signed : p.unsigned ≡ false
  pub column : p.is_subtbl ≡ false
  pub flagged : p.is_null ≡ some (unload p).flags
  pub at_offset : p.i_batch_offset ≡ offset
  pub flags_room : n ≤ length (unload p).flags
  pub elements_room : n ≤ length p.buffer

-- The first `m` rows of the batch are the values.
abbrev pub Holds : (ℕ → Option (Option ℕ)) → ℕ → Bind → ℕ → Type 0
Holds value offset b m =
    (j : ℕ) → j < m → (v : Option ℕ) × (value (offset + j) ≡ some v) × (entry b j ≡ some v)
