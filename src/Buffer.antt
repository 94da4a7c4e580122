-- ===== src/Buffer.antt =====
-- src/utils/utils.c: growing text buffers (buffer_t of src/inc/utils.h), and the quoting of names
-- for the SQL texts that the catalog functions build.
pub mod Grown
pub mod Quoted
mod Tests
use taos_connector_odbc.Prelude.{
  ℕ, zero, suc, ◌+◌, ◌*◌, ◌/◌, ◌==◌, leb, if◌then◌else◌, Bool, true, false, List, [], ◌∷◌, ◌++◌,
  length, take, replicate,
}

-- The first `nr` bytes of `base`, and `sz`; a zero follows the text.
pub record TextBuffer : Type 0 where
  pub text : List ℕ
  pub sz : ℕ

abbrev pub quote : ℕ
quote = 39

-- The text behind what is there, if there is room.
append_if : TextBuffer × Bool → List ℕ → TextBuffer × Bool
append_if (b, true) s = (record b { text = b.text ++ s }, true)
append_if (b, false) s = (b, false)

-- strncpy: the bytes up to a zero, then zeros.
abbrev pub strncpy : ℕ → List ℕ → List ℕ
strncpy zero s = []
strncpy (suc n) [] = replicate (suc n) 0
strncpy (suc n) (c ∷ s) = if c == 0 then replicate (suc n) 0 else c ∷ strncpy n s

and_then : TextBuffer × Bool → (TextBuffer → TextBuffer × Bool) → TextBuffer × Bool
and_then (b, true) f = f b
and_then (b, false) f = (b, false)

-- `str->nr = old_nr` after a failure.
roll_back : ℕ → TextBuffer × Bool → TextBuffer × Bool
roll_back old_nr (b, true) = (b, true)
roll_back old_nr (b, false) = (record b { text = take old_nr b.text }, false)

-- 0 is `true`, -1 is `false`. `realloc_ok` is the outcome of a realloc to a size.
module _ (realloc_ok : ℕ → Bool) where
  pub buffer_expand : TextBuffer → ℕ → TextBuffer × Bool
  buffer_expand b n =
      let size = (length b.text + n + 15) / 16 * 16 in
      if leb (length b.text + n) b.sz
      then (b, true)
      else if realloc_ok size
      then (record b { sz = size }, true)
      else (b, false)

  pub buffer_copy_n : TextBuffer → List ℕ → TextBuffer × Bool
  unfolding buffer_expand append_if
  buffer_copy_n b mem = append_if (buffer_expand (record b { text = [] }) (suc (length mem))) mem

  pub buffer_concat_n : TextBuffer → List ℕ → ℕ → TextBuffer × Bool
  unfolding buffer_expand append_if
  buffer_concat_n b s len = append_if (buffer_expand b (suc len)) (strncpy len s)

  -- `if (p > s)`
  concat_span : TextBuffer → List ℕ → TextBuffer × Bool
  unfolding buffer_concat_n
  concat_span b [] = (b, true)
  concat_span b (c ∷ cs) = buffer_concat_n b (c ∷ cs) (length (c ∷ cs))

  -- The loop of _buffer_concat_replacement_n from `p` on; `span` lies between `s` and `p`.
  pub replace_from : List ℕ → List ℕ → TextBuffer → TextBuffer × Bool
  unfolding concat_span and_then
  replace_from [] span b = concat_span b span
  replace_from (c ∷ rest) span b =
      let further = replace_from rest (span ++ c ∷ []) b in
      let replaced =
        and_then (and_then (concat_span b span) λ b1. buffer_concat_n b1 (quote ∷ quote ∷ []) 2)
          (replace_from rest []) in
      if c == 0 then concat_span b span else if c == quote then replaced else further

  unfoldable pub buffer_concat_replacement_n : TextBuffer → List ℕ → ℕ → TextBuffer × Bool
  unfolding replace_from roll_back
  buffer_concat_replacement_n b s len = roll_back (length b.text) (replace_from (take len s) [] b)
