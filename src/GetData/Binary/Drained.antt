-- ===== src/GetData/Binary/Drained.antt =====
-- src/core/stmt.c: SQLGetData into SQL_C_BINARY behind the last part.
use taos_connector_odbc.Prelude.{
  ℕ, zero, suc, ◌-◌, ltb, Option, none, some, List, length, ◌≡◌, ap, refl, Bool-cases, inl, inr,
  drop, take,
}
use taos_connector_odbc.Prelude.Int.{ℤ, pos, negsuc}
use taos_connector_odbc.Odbc.{sql_success, sql_no_data}
use taos_connector_odbc.GetData.State.{Args, Stmt, bytes, put_value, return_with_info_frame}
use taos_connector_odbc.GetData.Binary.{
  set_pos, deliver, binary_from, blob_from, copy_buf_to_binary, copy_varbinary_to_binary,
  copy_geometry_to_binary,
}

module _ {F : Type 0} where
  -- A call that succeeds leaves nothing pending.
  deliver-none :
      (s : Stmt F) (a : Args) (n : ℕ) (rest : List ℕ) (remains : ℕ)
      → (deliver s a n rest remains).1 ≡ sql_success
      → (deliver s a n rest remains).0.ctx.pos ≡ none
  unfolding deliver
  deliver-none s a n rest remains = elim (Bool-cases (ltb n (length rest))) [
    | inl more ↦ rw more (λ h.
        let s' =
          set_pos (some (drop n rest)) (put_value a.target_value_ptr (bytes (take n rest)) s) in
        let (r, c, v) = return_with_info_frame a.target_value_ptr s' a remains in absurd (cc))
    | inr fits ↦ rw fits (λ h. refl)
  ]

  binary_from-none :
      (o : Option (List ℕ)) (l : ℤ) (s : Stmt F) (a : Args)
      → (binary_from o l s a).1 ≡ sql_success
      → (binary_from o l s a).0.ctx.pos ≡ none
  unfolding binary_from
  binary_from-none none l s a h = absurd cc
  binary_from-none (some rest) (negsuc n) s a h = absurd cc
  binary_from-none (some rest) (pos zero) s a h = absurd cc
  binary_from-none (some rest) (pos (suc n)) s a h = deliver-none s a (suc n) rest (length rest) h

  blob_from-none :
      (o : Option (List ℕ)) (l : ℤ) (s : Stmt F) (a : Args)
      → (blob_from o l s a).1 ≡ sql_success
      → (blob_from o l s a).0.ctx.pos ≡ none
  unfolding blob_from
  blob_from-none none l s a h = absurd cc
  blob_from-none (some rest) (negsuc n) s a h = absurd cc
  blob_from-none (some rest) (pos n) s a h = deliver-none s a n rest (length rest - n) h

  -- Behind a call for SQL_C_BINARY that succeeds, with whatever buffer, the next one reports
  -- SQL_NO_DATA and changes nothing.
  pub copy_buf_to_binary-no_data :
      (s : Stmt F) (a b : Args)
      → (copy_buf_to_binary s a).1 ≡ sql_success
      → copy_buf_to_binary (copy_buf_to_binary s a).0 b ≡ ((copy_buf_to_binary s a).0, sql_no_data)
  unfolding copy_buf_to_binary binary_from
  copy_buf_to_binary-no_data s a b h =
      let s' = (copy_buf_to_binary s a).0 in
      ap (λ o. binary_from o b.buffer_length s' b)
        (binary_from-none s.ctx.pos a.buffer_length s a h)

  -- Behind calls for SQL_C_BINARY that succeed on VARBINARY and GEOMETRY columns the next ones report
  -- SQL_NO_DATA and change nothing.
  pub blob-no_data :
      (s : Stmt F) (a b : Args)
      → (copy_varbinary_to_binary s a).1 ≡ sql_success
      → (copy_geometry_to_binary s a).1 ≡ sql_success
      → (copy_varbinary_to_binary (copy_varbinary_to_binary s a).0 b
          ≡ ((copy_varbinary_to_binary s a).0, sql_no_data))
        × (copy_geometry_to_binary (copy_geometry_to_binary s a).0 b
            ≡ ((copy_geometry_to_binary s a).0, sql_no_data))
  unfolding copy_varbinary_to_binary copy_geometry_to_binary blob_from
  blob-no_data s a b varbinary geometry = (
    ap (λ o. blob_from o b.buffer_length (copy_varbinary_to_binary s a).0 b)
        (blob_from-none s.ctx.pos a.buffer_length s a varbinary),
    ap (λ o. blob_from o b.buffer_length (copy_geometry_to_binary s a).0 b)
        (blob_from-none s.ctx.pos a.buffer_length s a geometry),
  )
