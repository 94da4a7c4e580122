-- ===== src/GetData/Binary/Delivery.antt =====
-- src/core/stmt.c: SQLGetData into SQL_C_BINARY, part by part.
use taos_connector_odbc.Prelude.{
  ℕ, suc, Option, ◌-◌, ltb, some, List, [], ◌++◌, take, drop, length, ◌≡◌, refl, arith, ltb→lt, ap,
  ◌∙◌, take-append-drop, length-drop, take_all, Bool-cases, inl, inr,
}
use mathlib.Core.List.{append-nil}
use mathlib.Core.Path.{subst₂, sym}
use taos_connector_odbc.Prelude.Int.{pos}
use taos_connector_odbc.Odbc.{Pointer}
use taos_connector_odbc.GetData.State.{
  Ctx, Args, Stmt, bytes, put_value, put_lengths, value_of, put_lengths_frame,
  return_with_info_frame,
}
use taos_connector_odbc.GetData.Parts.{Part, read_all, read_all-Part, received}
use taos_connector_odbc.GetData.Binary.{
  copy_buf_to_binary, copy_varbinary_to_binary, copy_geometry_to_binary, binary_from, blob_from,
  deliver, set_pos,
}

module _ {F : Type 0} where
  deliver-Part :
      (f : Ctx F → Option (List ℕ)) (a : Args) (n remains : ℕ) (s : Stmt F) (pending : List ℕ)
      → ((l : List ℕ) → f (record (s.ctx) { pos = some l }) ≡ some l)
      → Part a.target_value_ptr pending (λ s. f s.ctx) (deliver s a (suc n) pending remains)
  unfolding deliver
  deliver-Part f a n remains s pending keeps = elim (Bool-cases (ltb (suc n) (length pending))) [
    | inl more ↦ rw more (
        let s' =
          set_pos (some (drop (suc n) pending)) (put_value p (bytes (take (suc n) pending)) s) in
        let (r, c, v) = return_with_info_frame p s' a remains in
        record {
          left = drop (suc n) pending;
          split =
              ap (λ o. received o ++ drop (suc n) pending) (v ∙ seen s (take (suc n) pending))
              ∙ take-append-drop (suc n) pending;
          last = inr (
            r,
            ap f c ∙ keeps (drop (suc n) pending),
            omega (arith, length-drop (suc n) pending, ltb→lt _ _ more),
          );
        })
    | inr fits ↦ rw fits (record {
      left = [];
      split =
          append-nil (
            received (
              value_of p
                (put_lengths a (pos 0) (pos (length pending))
                  (put_value p (bytes (take (suc n) pending)) s)).writes))
          ∙ ap received (
              (put_lengths_frame p a (pos 0) (pos (length pending))
                (put_value p (bytes (take (suc n) pending)) s)).1
              ∙ seen s (take (suc n) pending))
          ∙ take_all (suc n) pending (ground arith);
      last = inl (refl, refl);
    })
  ]
    where
      p : Pointer
      p = a.target_value_ptr

      seen :
          (s : Stmt F) (bs : List ℕ)
          → value_of p (put_value p (bytes bs) s).writes ≡ some (bytes bs)
      seen s bs = ground arith

  -- The same of a whole call, for any part of the context that shows what is pending.
  pub copy_buf_to_binary-Part :
      (f : Ctx F → Option (List ℕ)) (a : Args) (n : ℕ)
      → a.buffer_length ≡ pos (suc n)
      → (s : Stmt F) (pending : List ℕ) → s.ctx.pos ≡ some pending
      → ((l : List ℕ) → f (record (s.ctx) { pos = some l }) ≡ some l)
      → Part a.target_value_ptr pending (λ s. f s.ctx) (copy_buf_to_binary s a)
  unfolding copy_buf_to_binary binary_from
  copy_buf_to_binary-Part f a n size s pending e keeps =
      subst₂ (λ o l. Part a.target_value_ptr pending (λ s. f s.ctx) (binary_from o l s a)) (sym e)
        (sym size) (deliver-Part f a n (length pending) s pending keeps)

  -- SQLGetData of a column as SQL_C_BINARY, called again and again with a buffer of at least one
  -- byte, delivers every byte of the column in order, with as many calls as bytes and one more.
  pub copy_buf_to_binary-read_all :
      (a : Args) (n : ℕ)
      → a.buffer_length ≡ pos (suc n)
      → (s : Stmt F) (pending : List ℕ) → s.ctx.pos ≡ some pending
      → read_all (suc (length pending)) (λ s. copy_buf_to_binary s a) a.target_value_ptr s
        ≡ some pending
  copy_buf_to_binary-read_all a n size s pending e =
      read_all-Part (λ s. copy_buf_to_binary s a) a.target_value_ptr (λ s. s.ctx.pos)
        (λ s pending e. copy_buf_to_binary-Part (λ c. c.pos) a n size s pending e (λ l. refl))
        (suc (length pending)) s pending e (omega arith)

  -- The same of SQLGetData of a VARBINARY or GEOMETRY column as SQL_C_BINARY with a buffer of at least
  -- one byte: every byte is delivered in order, with as many calls as bytes and one more.
  pub blob-read_all :
      (a : Args) (n : ℕ)
      → a.buffer_length ≡ pos (suc n)
      → (s : Stmt F) (pending : List ℕ) → s.ctx.pos ≡ some pending
      → (read_all (suc (length pending)) (λ s. copy_varbinary_to_binary s a) a.target_value_ptr s
          ≡ some pending)
        × (read_all (suc (length pending)) (λ s. copy_geometry_to_binary s a) a.target_value_ptr s
            ≡ some pending)
  unfolding copy_varbinary_to_binary copy_geometry_to_binary blob_from
  blob-read_all a n size s pending e = (
    read_all-Part (λ s. copy_varbinary_to_binary s a) a.target_value_ptr (λ s. s.ctx.pos) part
        (suc (length pending)) s pending e (omega arith),
    read_all-Part (λ s. copy_geometry_to_binary s a) a.target_value_ptr (λ s. s.ctx.pos) part
        (suc (length pending)) s pending e (omega arith),
  )
    where
      part :
          (s : Stmt F) (pending : List ℕ)
          → s.ctx.pos ≡ some pending
          → Part a.target_value_ptr pending
              (λ s. s.ctx.pos)
              (blob_from s.ctx.pos a.buffer_length s a)
      part s pending e =
          subst₂ (λ o l. Part a.target_value_ptr pending (λ s. s.ctx.pos) (blob_from o l s a))
            (sym e) (sym size)
            (deliver-Part (λ c. c.pos) a n (length pending - suc n) s pending (λ l. refl))
