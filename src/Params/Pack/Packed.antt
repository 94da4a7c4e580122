-- ===== src/Params/Pack/Packed.antt =====
-- src/core/stmt.c: the rows of a column of variable length stand together after packing.
use taos_connector_odbc.Prelude.{
  ℕ, suc, ◌+◌, ◌-◌, ◌*◌, ◌≤◌, ◌<◌, ◌==◌, leb, if◌then◌else◌, not, ◌||◌, true, false, Option, none,
  some, List, [], ◌∷◌, ◌++◌, length, take, drop, All, length-take, length-drop, length-append, ◌≡◌,
  refl, sym, ap, ◌∙◌, Bool-cases, inl, inr, arith, ==_iff,
}
use mathlib.Core.Path.{subst}
use mathlib.Core.List.{append_assoc, append-nil}
use taos_connector_odbc.Params.Pack.{
  TsdbType, VarRow, VarBind, row_bytes, move_row, pack_rows, is_var_type, pack_stmt2_var_bind,
}
use taos_connector_odbc.Params.Pack.Moved.{
  zero_plus, packed_text, Moved, move_row-Moved, packed_text-agree,
}

abbrev Fits : ℕ → List VarRow → Type 0
Fits stride rs = All (λ r. row_bytes r ≤ stride) rs

-- One turn of the loop.
turn_Moved :
    (dst src n : ℕ) (buf : List ℕ)
    → dst ≤ src
    → src + n ≤ length buf
    → (buf' : List ℕ) × ((if n == 0 then some buf else move_row dst src n buf) ≡ some buf')
      × Moved dst src n buf buf'
turn_Moved dst src n buf h room = elim (Bool-cases (n == 0)) [
  | inl none_left ↦
      let zero_bytes = (==_iff n 0).0 none_left in
      rw none_left (
        buf,
        refl,
        record {
          same_length = refl;
          front =
              subst (λ k. take (dst + k) buf ≡ take dst buf ++ take k (drop src buf))
                (sym zero_bytes)
                (ap (λ k. take k buf) (plus_zero dst) ∙ sym (append-nil (take dst buf)));
          behind = λ k. refl;
        },
      )
  | inr some_left ↦ rw some_left (move_row-Moved dst src n buf h room)
]
  where
    plus_zero : (m : ℕ) → m + 0 ≡ m
    plus_zero m = omega arith

-- The state behind the loop from row `i` on, where `dst` bytes were packed before.
pub record Packed (dst : ℕ) (text buf : List ℕ) (out : Option (List ℕ)) : Type 0 where
  pub after : List ℕ
  pub returns : out ≡ some after
  pub same_length : length after ≡ length buf
  pub together : take (dst + length text) after ≡ take dst buf ++ text

pack_rows-Packed :
    (stride : ℕ) (rs : List VarRow) (i dst : ℕ) (buf : List ℕ)
    → Fits stride rs
    → dst ≤ stride * i
    → stride * i + stride * length rs ≤ length buf
    → Packed dst (packed_text stride rs i buf) buf (pack_rows stride rs i dst buf)
unfolding pack_rows packed_text
pack_rows-Packed stride [] i dst buf fits h room = record {
  after = buf;
  returns = refl;
  same_length = refl;
  together = ap (λ k. take k buf) plus_zero ∙ sym (append-nil (take dst buf));
}
  where
    plus_zero : dst + 0 ≡ dst
    plus_zero = omega arith
pack_rows-Packed stride (r ∷ rs) i dst buf fits h room =
    let (buf1, moves, m) =
      turn_Moved dst (stride * i) (row_bytes r) buf h (omega (arith, fits.0)) in
    let rest =
      pack_rows-Packed stride rs (suc i) (dst + row_bytes r) buf1 fits.1 (omega (arith, fits.0))
        (omega (arith, m.same_length)) in
    let agree = packed_text-agree stride rs (suc i) buf buf1 (behind buf1 m) in
    record {
      after = rest.after;
      returns =
          ap
            (λ o. elim o [
              | none ↦ none
              | some b ↦ pack_rows stride rs (suc i) (dst + row_bytes r) b
            ])
            moves
          ∙ rest.returns;
      same_length = rest.same_length ∙ m.same_length;
      together =
          ap (λ k. take k rest.after) sizes
          ∙ subst
              (λ ts.
                take (dst + row_bytes r + length ts) rest.after
                ≡ take (dst + row_bytes r) buf1 ++ ts)
              agree rest.together
          ∙ ap (λ front. front ++ packed_text stride rs (suc i) buf) m.front
          ∙ append_assoc (take dst buf) row (packed_text stride rs (suc i) buf);
    }
  where
    row : List ℕ
    row = take (row_bytes r) (drop (stride * i) buf)

    sizes :
        dst
          + length (take (row_bytes r) (drop (stride * i) buf) ++ packed_text stride rs (suc i) buf)
        ≡ dst + row_bytes r + length (packed_text stride rs (suc i) buf)
    sizes = omega (
      arith,
      length-append row (packed_text stride rs (suc i) buf),
      length-take (row_bytes r) (drop (stride * i) buf),
      length-drop (stride * i) buf,
      fits.0,
    )

    further : dst + row_bytes r + (stride * suc i - (dst + row_bytes r)) ≡ stride * suc i
    further = omega (arith, fits.0)

    behind :
        (buf1 : List ℕ)
        → Moved dst (stride * i) (row_bytes r) buf buf1
        → drop (stride * suc i) buf1 ≡ drop (stride * suc i) buf
    behind buf1 m =
        subst (λ k. drop k buf1 ≡ drop k buf) (further)
          (m.behind (stride * suc i - (dst + row_bytes r)))

-- A column with a buffer and lengths.
abbrev pub bind_of : TsdbType → List VarRow → List ℕ → VarBind
bind_of t rows buf = record { buffer_type = t; buffer = some buf; has_lengths = true; rows = rows }

many : (n : ℕ) → 1 < n → (leb n 1 || not true) ≡ false
many n h = ground arith

-- _stmt_pack_stmt2_var_bind of a column of variable length with a buffer and lengths, of two rows or
-- more, where no row is longer than the stride and the buffer has a stride for each: no memcpy
-- overlaps, and the buffer keeps its size and starts with the bytes of the rows that are not null,
-- in order and without gaps.
pub pack_stmt2_var_bind-Packed :
    (stride : ℕ) (t : TsdbType) (rows : List VarRow) (buf : List ℕ)
    → is_var_type t ≡ true
    → 1 < length rows
    → All (λ r. row_bytes r ≤ stride) rows
    → stride * length rows ≤ length buf
    → (after : List ℕ) × (pack_stmt2_var_bind stride (bind_of t rows buf)
        ≡ some (bind_of t rows after))
      × (length after ≡ length buf)
      × (take (length (packed_text stride rows 0 buf)) after ≡ packed_text stride rows 0 buf)
unfolding pack_stmt2_var_bind
pack_stmt2_var_bind-Packed stride t rows buf var more fits room = (
  p.after,
  rw (var, many (length rows) more)
      (ap (λ o. elim o [ none ↦ none | some after ↦ some (bind_of t rows after) ]) p.returns),
  p.same_length,
  subst (λ k. take k p.after ≡ packed_text stride rows 0 buf)
      (zero_plus (length (packed_text stride rows 0 buf))) p.together,
)
  where
    p : Packed 0 (packed_text stride rows 0 buf) buf (pack_rows stride rows 0 0 buf)
    p = pack_rows-Packed stride rows 0 0 buf fits (omega arith) (omega arith)
