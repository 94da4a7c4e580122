-- ===== src/Hex/RoundTrip.antt =====
-- common/auxiliary.c: tod_hex2bytes undoes tod_hexify.
use taos_connector_odbc.Prelude.{
  ℕ, suc, ◌+◌, ◌*◌, ◌/◌, ◌%◌, ◌<◌, leb, ◌==◌, some, List, [], ◌∷◌, length, ◌≡◌, refl, ap, ◌∙◌,
  arith, All, Bool-cases, false, inl, inr,
}
use native.Mathlib.Nat.{mul-div_cancel_left}
use taos_connector_odbc.Odbc.{Text}
use taos_connector_odbc.Hex.{
  bit_or, hex_map, digit, byte_of, hex2bytes_unsafe, hex2bytes, hexify_bytes, hexify,
}

hex_map-digit : (v : ℕ) → v < 16 → hex_map (digit v) ≡ v
unfolding hex_map digit
hex_map-digit v h = ground arith

or_zero : (a : ℕ) → a < 16 → bit_or 4 a 0 ≡ a
or_zero a h = ground arith

-- Where one number is even, the lowest bit is the other's.
or_even : (k a b : ℕ) → bit_or (suc k) (2 * a) b ≡ 2 * bit_or k a (b / 2) + b % 2
or_even k a b =
    rw (mul-div_cancel_left a {n = 2} (omega arith))
      (elim (Bool-cases (b % 2 == 1)) [ inl odd ↦ ground arith | inr even ↦ ground arith ])

nibbles : (a b : ℕ) → a < 16 → b < 16 → bit_or 8 (a * 16) b ≡ a * 16 + b
nibbles a b h k = omega (
  arith,
  ap (λ n. bit_or 8 n b) shifted,
  or_even 7 (2 * (2 * (2 * a))) b,
  or_even 6 (2 * (2 * a)) (b / 2),
  or_even 5 (2 * a) (b / 2 / 2),
  or_even 4 a (b / 2 / 2 / 2),
  ap (λ n. bit_or 4 a n) none_left,
  or_zero a h,
)
  where
    shifted : a * 16 ≡ 2 * (2 * (2 * (2 * a)))
    shifted = omega arith

    none_left : b / 2 / 2 / 2 / 2 ≡ 0
    none_left = omega arith

byte_of-digit : (c : ℕ) → c < 256 → byte_of (digit (c / 16)) (digit (c % 16)) ≡ c
unfolding byte_of
byte_of-digit c h =
    rw (hex_map-digit (c / 16) (omega arith), hex_map-digit (c % 16) (omega arith))
      (nibbles (c / 16) (c % 16) (omega arith) (omega arith) ∙ omega arith)

unsafe-hexify : (bin : List ℕ) → All (λ c. c < 256) bin → hex2bytes_unsafe (hexify_bytes bin) ≡ bin
unfolding hex2bytes_unsafe hexify_bytes
unsafe-hexify [] h = refl
unsafe-hexify (c ∷ bin) (low, rest) = rw (byte_of-digit c low, unsafe-hexify bin rest) refl

length-hexify : (bin : List ℕ) → length (hexify_bytes bin) ≡ 2 * length bin
unfolding hexify_bytes
length-hexify [] = refl
length-hexify (c ∷ bin) = omega (arith, length-hexify bin)

-- Of bytes that fit with a terminator into the buffer of tod_hexify and into that of
-- tod_hex2bytes, the text that the first makes is turned back into the bytes by the second.
pub hex2bytes-hexify :
    (nr n : ℕ) (bin : List ℕ)
    → All (λ c. c < 256) bin
    → length bin < nr / 2
    → length bin < n
    → (text : Text) × (hexify nr bin ≡ some text) × (hex2bytes n text ≡ some bin)
unfolding hexify hex2bytes
hex2bytes-hexify nr n bin bytes fits room =
    (hexify_bytes bin, ground arith, rw (even, roomy) (ap some (unsafe-hexify bin bytes)))
  where
    even : (length (hexify_bytes bin) % 2 == 1) ≡ false
    even = rw (length-hexify bin) (ground arith)

    roomy : leb n (length (hexify_bytes bin) / 2) ≡ false
    roomy = rw (length-hexify bin) (ground arith)
