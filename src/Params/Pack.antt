-- ===== src/Params/Pack.antt =====
-- _stmt_stmt2_is_var_type and _stmt_pack_stmt2_var_bind of src/core/stmt.c: before a batch is bound,
-- the rows of a column of variable length, which stand at a stride, are moved together. `none` is a
-- memcpy of overlapping regions, which C leaves undefined.
pub mod Moved
pub mod Packed
mod Tests
use taos_connector_odbc.Prelude.{
  ℕ, suc, ◌+◌, ◌*◌, ◌==◌, leb, if◌then◌else◌, not, Bool, true, false, ◌||◌, Option, none, some,
  List, [], ◌∷◌, ◌++◌, length, take, drop,
}
use taos_connector_odbc.Prelude.Int.{ℤ, pos, negsuc}

-- The codes of a TDengine column that the function tells apart.
pub data TsdbType : Type 0 where
  varchar nchar json varbinary blob mediumblob geometry : TsdbType
  fixed_size : ℕ → TsdbType

pub is_var_type : TsdbType → Bool
is_var_type (fixed_size n) = false
is_var_type _ = true

-- A row of the arrays `is_null` and `length`.
pub record VarRow : Type 0 where
  pub is_null : Bool
  pub bytes : ℤ

-- TAOS_STMT2_BIND of such a column: the array `length` may be missing.
pub record VarBind : Type 0 where
  pub buffer_type : TsdbType
  pub buffer : Option (List ℕ)
  pub has_lengths : Bool
  pub rows : List VarRow

-- The bytes that a row counts for.
pub row_bytes : VarRow → ℕ
row_bytes r = if r.is_null then 0 else elim r.bytes [ pos n ↦ n | negsuc n ↦ 0 ]

-- memmove(buf + dst, buf + src, n)
pub memmove : ℕ → ℕ → ℕ → List ℕ → List ℕ
memmove dst src n buf = take dst buf ++ (take n (drop src buf) ++ drop (dst + n) buf)

-- memcpy, on regions that do not overlap.
pub memcpy : ℕ → ℕ → ℕ → List ℕ → Option (List ℕ)
unfolding memmove
memcpy dst src n buf =
    if leb (dst + n) src
    then some (memmove dst src n buf)
    else if leb (src + n) dst
    then some (memmove dst src n buf)
    else none

-- Moving a row of `n` bytes down.
pub move_row : ℕ → ℕ → ℕ → List ℕ → Option (List ℕ)
unfolding memcpy
move_row dst src n buf =
    if dst == src
    then some buf
    else if leb (dst + n) src
    then memcpy dst src n buf
    else some (memmove dst src n buf)

-- The loop from row `i` on; `dst` bytes are packed.
pub pack_rows : ℕ → List VarRow → ℕ → ℕ → List ℕ → Option (List ℕ)
unfolding move_row row_bytes
pack_rows stride [] i dst buf = some buf
pack_rows stride (r ∷ rs) i dst buf =
    let n = row_bytes r in
    let moved = if n == 0 then some buf else move_row dst (stride * i) n buf in
    elim moved [ none ↦ none | some buf' ↦ pack_rows stride rs (suc i) (dst + n) buf' ]

pub pack_stmt2_var_bind : ℕ → VarBind → Option VarBind
unfolding is_var_type pack_rows
pack_stmt2_var_bind stride b =
    if not (is_var_type b.buffer_type)
    then some b
    else if leb (length b.rows) 1 || not b.has_lengths
    then some b
    else elim b.buffer [
      | none ↦ some b
      | some buf ↦ elim (pack_rows stride b.rows 0 0 buf) [
        | none ↦ none
        | some buf' ↦ some (record b { buffer = some buf' })
      ]
    ]
