-- ===== src/Hex.antt =====
-- common/auxiliary.c: bytes as hexadecimal text, tod_hexify and tod_hex2bytes. A buffer is given by
-- its size; `none` is NULL with errno set.
pub mod RoundTrip
mod Tests
use taos_connector_odbc.Prelude.{
  ℕ, zero, suc, ◌+◌, ◌-◌, ◌*◌, ◌/◌, ◌%◌, leb, ltb, if◌then◌else◌, ◌==◌, ◌||◌, Option, none, some,
  List, [], ◌∷◌, length,
}
use taos_connector_odbc.Odbc.{Text}

-- a | b, on the `k` low bits.
abbrev pub bit_or : ℕ → ℕ → ℕ → ℕ
bit_or zero a b = 0
bit_or (suc k) a b = 2 * bit_or k (a / 2) (b / 2) + (if a % 2 == 1 || b % 2 == 1 then 1 else 0)

-- _hex_map: the value of a digit, and '_' for any other byte.
unfoldable pub hex_map : ℕ → ℕ
hex_map c =
    if ltb c 48
    then 95
    else if ltb c 58
    then c - 48
    else if ltb c 65
    then 95
    else if ltb c 71
    then c - 55
    else if ltb c 97
    then 95
    else if ltb c 103
    then c - 87
    else 95

-- digits[v]
unfoldable pub digit : ℕ → ℕ
digit v = if ltb v 10 then 48 + v else 87 + v

-- (v1 << 4) | v2, as a uint8_t.
unfoldable pub byte_of : ℕ → ℕ → ℕ
unfolding hex_map
byte_of c1 c2 = bit_or 8 (hex_map c1 * 16) (hex_map c2)

-- tod_hex2bytes_unsafe reads two digits a round; of an odd number the last is not read here, and
-- tod_hex2bytes refuses it.
unfoldable pub hex2bytes_unsafe : Text → List ℕ
unfolding byte_of
hex2bytes_unsafe [] = []
hex2bytes_unsafe (c ∷ []) = []
hex2bytes_unsafe (c1 ∷ c2 ∷ hex) = byte_of c1 c2 ∷ hex2bytes_unsafe hex

-- tod_hex2bytes into a buffer of `n` bytes.
unfoldable pub hex2bytes : ℕ → Text → Option (List ℕ)
unfolding hex2bytes_unsafe
hex2bytes n hex =
    if length hex % 2 == 1
    then none
    else if leb n (length hex / 2)
    then none
    else some (hex2bytes_unsafe hex)

-- The loop of tod_hexify.
unfoldable pub hexify_bytes : List ℕ → Text
unfolding digit
hexify_bytes [] = []
hexify_bytes (c ∷ bin) = digit (c / 16) ∷ digit (c % 16) ∷ hexify_bytes bin

-- tod_hexify into a buffer of `nr` bytes.
unfoldable pub hexify : ℕ → List ℕ → Option Text
unfolding hexify_bytes
hexify nr bin = if leb (nr / 2) (length bin) then none else some (hexify_bytes bin)
