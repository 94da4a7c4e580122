-- ===== src/GetData/Char.antt =====
-- Delivery of text in parts: _stmt_get_data_copy_buf_to_char and _stmt_get_data_copy_buf_to_wchar of
-- src/core/stmt.c. A call delivers what is left of the character cut by the call before (the
-- residual), then converts, and keeps the character at the end that no longer fits.
use taos_connector_odbc.Prelude.{
  ℕ, zero, suc, ◌+◌, ◌-◌, ◌*◌, ◌/◌, ltb, leb, if◌then◌else◌, ◌||◌, not, Bool, true, false, Option,
  none, some, List, [], ◌∷◌, ◌++◌, take, drop, length, replicate, min,
}
use taos_connector_odbc.Prelude.Int.{ℤ, pos}
use taos_connector_odbc.Odbc.{Text, SqlReturn, sql_success, sql_no_data, sql_error, hy000}
use taos_connector_odbc.GetData.State.{
  Libc, Args, Stmt, illegal, Status, bytes, put_value, put_lengths, fail, return_with_info,
}
use taos_connector_odbc.GetData.Charset.{
  Calc, no_fuel, cannot, total, iconv_calc, conv_one_character, fromcode, tocode,
}

-- The names of the charsets that the source writes out.
pub record Names : Type 0 where
  pub utf_32le : Text
  pub utf_16le : Text

-- What "%.*s" prints.
abbrev pub until_nul : List ℕ → List ℕ
until_nul [] = []
until_nul (zero ∷ bs) = []
until_nul (suc b ∷ bs) = suc b ∷ until_nul bs

module _ (L : Libc) (names : Names) where
  -- After the conversion: the bytes `sent` are in the target with a terminator of `unit` bytes.
  finish : ℕ → List ℕ → ℕ → List ℕ → List ℕ → ℕ → Stmt L.Float → Args → Stmt L.Float × SqlReturn
  finish unit sent nr_remains left residual curr s a =
      let c = s.ctx in
      let s' = put_value a.target_value_ptr (bytes (sent ++ replicate unit 0)) s in
      if ltb 0 (length left) || ltb curr (length residual)
      then return_with_info
          (record s' { ctx = record c { pos = some left; residual = residual; curr = curr } }) a
          nr_remains
      else (
        put_lengths a (pos 0) (pos (length sent))
            (record s' { ctx = record c { pos = none; residual = residual; curr = curr } }),
        sql_success,
      )

  -- The character behind what was converted, as much of it as fits into `room` in whole units.
  cut_character :
      ℕ
      → List ℕ
      → ℕ
      → ℕ
      → List ℕ
      → Option (ℕ × List ℕ)
      → Stmt L.Float
      → Args
      → Stmt L.Float × SqlReturn
  unfolding finish
  cut_character unit sent room nr_remains left none s a =
      fail hy000 (put_value a.target_value_ptr (bytes (sent ++ replicate unit 0)) s)
  cut_character unit sent room nr_remains left (some (consumed, residual)) s a =
      let n = min (length residual) (room / unit * unit) in
      finish unit (sent ++ take n residual) nr_remains (drop consumed left) residual n s a

  -- Conversion of the bytes `rest` behind the flushed ones, into `room` bytes.
  convert_rest :
      ℕ → Text → Text → List ℕ → ℕ → ℕ → List ℕ → Stmt L.Float → Args → Stmt L.Float × SqlReturn
  unfolding cut_character finish conv_one_character
  convert_rest unit from to flushed room nr_remains rest s a =
      let c = L.iconv from to rest room in
      let sent = flushed ++ c.output in
      let left = drop c.consumed rest in
      if is_illegal c.status
      then fail hy000 (put_value a.target_value_ptr (bytes sent) s)
      else if ltb 0 (length left)
      then cut_character unit sent (room - length c.output) nr_remains left
          (conv_one_character L names.utf_32le from to left) s a
      else finish unit sent nr_remains [] s.ctx.residual (length s.ctx.residual) s a
    where
      is_illegal : Status → Bool
      is_illegal illegal = true
      is_illegal _ = false

  -- A part of the residual that fills the buffer.
  flush : ℕ → ℕ → List ℕ → ℕ → Stmt L.Float → Args → Stmt L.Float × SqlReturn
  flush unit n residual nr_remains s a =
      let c = s.ctx in
      return_with_info
        (record (put_value a.target_value_ptr (bytes (take n residual ++ replicate unit 0)) s) {
          ctx = record c { curr = c.curr + n };
        })
        a nr_remains

  -- A buffer of no bytes, or of the terminator only.
  char_small : ℤ → ℕ → Stmt L.Float → Args → Stmt L.Float × SqlReturn
  char_small (pos zero) nr_remains s a = return_with_info s a nr_remains
  char_small _ nr_remains s a =
      return_with_info (put_value a.target_value_ptr (bytes (0 ∷ [])) s) a nr_remains

  -- `size` is BufferLength, above 1.
  char_large : ℕ → Text → Text → ℕ → List ℕ → Stmt L.Float → Args → Stmt L.Float × SqlReturn
  unfolding flush convert_rest
  char_large size from to nr_remains rest s a =
      let residual = until_nul (drop s.ctx.curr s.ctx.residual) in
      let n = length residual in
      if leb size n
      then flush 1 (size - 1) residual nr_remains s a
      else convert_rest 1 from to residual (size - n - 1) nr_remains rest s a

  char_sized : ℤ → Text → Text → ℕ → List ℕ → Stmt L.Float → Args → Stmt L.Float × SqlReturn
  unfolding char_small char_large
  char_sized (pos (suc (suc n))) from to nr_remains rest s a =
      char_large (suc (suc n)) from to nr_remains rest s a
  char_sized n from to nr_remains rest s a = char_small n nr_remains s a

  -- After iconv_calc.
  char_counted : Text → Text → Calc → List ℕ → Stmt L.Float → Args → Stmt L.Float × SqlReturn
  unfolding char_sized
  char_counted from to no_fuel rest s a = (s, sql_error)
  char_counted from to cannot rest s a = fail hy000 s
  char_counted from to (total n) rest s a =
      char_sized a.buffer_length from to (n + (length s.ctx.residual - s.ctx.curr)) rest s a

  char_from : Option (List ℕ) → Stmt L.Float → Args → Stmt L.Float × SqlReturn
  unfolding char_counted iconv_calc fromcode tocode
  char_from none s a = (s, sql_no_data)
  char_from (some rest) s a =
      let from = fromcode s.ctx.tsdb s.charsets in
      let to = tocode s.ctx.tsdb s.charsets in
      if not (L.iconv_opens from to)
      then fail hy000 s
      else char_counted from to (iconv_calc L (length rest) from to rest) rest s a

  unfoldable pub copy_buf_to_char : Stmt L.Float → Args → Stmt L.Float × SqlReturn
  unfolding char_from
  copy_buf_to_char s a = char_from s.ctx.pos s a

  -- Wide characters: two bytes each, in whole ones.
  wchar_small : ℤ → ℕ → Stmt L.Float → Args → Stmt L.Float × SqlReturn
  wchar_small (pos (suc (suc zero))) nr_remains s a =
      return_with_info (put_value a.target_value_ptr (bytes (0 ∷ 0 ∷ [])) s) a nr_remains
  wchar_small _ nr_remains s a = return_with_info s a nr_remains

  -- `size` is BufferLength, above 2.
  wchar_large : ℕ → Text → Text → ℕ → List ℕ → Stmt L.Float → Args → Stmt L.Float × SqlReturn
  unfolding flush convert_rest
  wchar_large size from to nr_remains rest s a =
      let residual = drop s.ctx.curr s.ctx.residual in
      let n = length residual in
      if ltb (size - 2) n
      then flush 2 ((size - 2) / 2 * 2) residual nr_remains s a
      else convert_rest 2 from to residual (size - n - 2) nr_remains rest s a

  wchar_sized : ℤ → Text → Text → ℕ → List ℕ → Stmt L.Float → Args → Stmt L.Float × SqlReturn
  unfolding wchar_small wchar_large
  wchar_sized (pos (suc (suc (suc n)))) from to nr_remains rest s a =
      wchar_large (suc (suc (suc n))) from to nr_remains rest s a
  wchar_sized n from to nr_remains rest s a = wchar_small n nr_remains s a

  wchar_counted : Text → Text → Calc → List ℕ → Stmt L.Float → Args → Stmt L.Float × SqlReturn
  unfolding wchar_sized
  wchar_counted from to no_fuel rest s a = (s, sql_error)
  wchar_counted from to cannot rest s a = fail hy000 s
  wchar_counted from to (total n) rest s a =
      wchar_sized a.buffer_length from to (n + (length s.ctx.residual - s.ctx.curr)) rest s a

  wchar_from : Option (List ℕ) → Stmt L.Float → Args → Stmt L.Float × SqlReturn
  unfolding wchar_counted iconv_calc fromcode
  wchar_from none s a = (s, sql_no_data)
  wchar_from (some rest) s a =
      let from = fromcode s.ctx.tsdb s.charsets in
      if not (L.iconv_opens from names.utf_16le)
      then fail hy000 s
      else wchar_counted from names.utf_16le (iconv_calc L (length rest) from names.utf_16le rest)
          rest s a

  unfoldable pub copy_buf_to_wchar : Stmt L.Float → Args → Stmt L.Float × SqlReturn
  unfolding wchar_from
  copy_buf_to_wchar s a = wchar_from s.ctx.pos s a
