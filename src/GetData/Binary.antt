-- ===== src/GetData/Binary.antt =====
-- Delivery of bytes in parts, to SQL_C_BINARY: _stmt_get_data_copy_buf_to_binary and its variants
-- for VARBINARY and GEOMETRY columns, of src/core/stmt.c.
pub mod Delivery
pub mod Drained
use taos_connector_odbc.Prelude.{
  ℕ, zero, suc, ◌-◌, ltb, if◌then◌else◌, ◌==◌, ◌||◌, Option, none, some, List, [], take, drop,
  length, min,
}
use taos_connector_odbc.Prelude.Int.{ℤ, pos, negsuc, is_neg, pos_part}
use taos_connector_odbc.Odbc.{SqlReturn, sql_success, sql_no_data, s01004, hy000}
use taos_connector_odbc.GetData.State.{
  Ctx, Args, Stmt, bytes, put_value, put_lengths, fail, return_with_info,
}

module _ {F : Type 0} where
  abbrev pub set_pos : Option (List ℕ) → Stmt F → Stmt F
  set_pos p s = record s { ctx = record (s.ctx) { pos = p } }

  -- memcpy of what fits into `n` bytes of the target, then the lengths: of a part `remains` is
  -- reported, of the last part its own length.
  deliver : Stmt F → Args → ℕ → List ℕ → ℕ → Stmt F × SqlReturn
  unfolding return_with_info
  deliver s a n rest remains =
      let s' = put_value a.target_value_ptr (bytes (take n rest)) s in
      if ltb n (length rest)
      then return_with_info (set_pos (some (drop n rest)) s') a remains
      else (set_pos none (put_lengths a (pos 0) (pos (length rest)) s'), sql_success)

  binary_from : Option (List ℕ) → ℤ → Stmt F → Args → Stmt F × SqlReturn
  unfolding deliver
  binary_from none _ s a = (s, sql_no_data)
  binary_from (some rest) (negsuc n) s a = fail s01004 s
  binary_from (some rest) (pos zero) s a = fail s01004 s
  binary_from (some rest) (pos (suc n)) s a = deliver s a (suc n) rest (length rest)

  unfoldable pub copy_buf_to_binary : Stmt F → Args → Stmt F × SqlReturn
  unfolding binary_from
  copy_buf_to_binary s a = binary_from s.ctx.pos a.buffer_length s a

  -- The variants for blobs take a buffer of no bytes too, and report as remaining what is left
  -- behind the part.
  blob_from : Option (List ℕ) → ℤ → Stmt F → Args → Stmt F × SqlReturn
  unfolding deliver
  blob_from none _ s a = (s, sql_no_data)
  blob_from (some rest) (negsuc n) s a = fail hy000 s
  blob_from (some rest) (pos n) s a = deliver s a n rest (length rest - n)

  unfoldable pub copy_varbinary_to_binary : Stmt F → Args → Stmt F × SqlReturn
  unfolding blob_from
  copy_varbinary_to_binary s a = blob_from s.ctx.pos a.buffer_length s a

  unfoldable pub copy_geometry_to_binary : Stmt F → Args → Stmt F × SqlReturn
  unfolding blob_from
  copy_geometry_to_binary s a = blob_from s.ctx.pos a.buffer_length s a
