-- ===== src/Prelude/Int.antt =====
-- Signed integers over the native numbers, and C's casts to machine integers of `w` bits.
use taos_connector_odbc.Prelude.{
  ℕ, suc, ◌-◌, ◌*◌, ◌%◌, ◌^◌, ◌<◌, ◌≡◌, Bool, true, false, arith, ltb, if◌then◌else◌, ◌==◌, ◌↔◌,
}
use native.Mathlib.Nat.{mod-lt, mod-eq_of_lt, pow-suc, one-le-pow}

-- `negsuc n` is -(n + 1).
pub data ℤ : Type 0 where
  pos : ℕ → ℤ
  negsuc : ℕ → ℤ

abbrev pub pos_part : ℤ → ℕ
pos_part (pos n) = n
pos_part (negsuc n) = 0

abbrev pub is_zero : ℤ → Bool
is_zero (pos n) = n == 0
is_zero (negsuc n) = false

abbrev pub is_neg : ℤ → Bool
is_neg (pos n) = false
is_neg (negsuc n) = true

-- (uintW_t)v, the bit pattern that any cast of v to W bits stores.
abbrev pub low_bits : ℕ → ℤ → ℕ
low_bits w (pos n) = n % 2 ^ w
low_bits w (negsuc n) = 2 ^ w - 1 - n % 2 ^ w

-- What the pattern `p` means as an intW_t.
abbrev pub as_signed : ℕ → ℕ → ℤ
as_signed w p = if ltb p (2 ^ (w - 1)) then pos p else negsuc (2 ^ w - 1 - p)

-- INTW_MIN <= v && v <= INTW_MAX
abbrev pub fits_signed : ℕ → ℤ → Bool
fits_signed w (pos n) = ltb n (2 ^ (w - 1))
fits_signed w (negsuc n) = ltb n (2 ^ (w - 1))

-- 0 <= v && v <= UINTW_MAX
abbrev pub fits_unsigned : ℕ → ℤ → Bool
fits_unsigned w (pos n) = ltb n (2 ^ w)
fits_unsigned w (negsuc n) = false

-- The same over half the range, `h`, and its double.
signed_value : ℕ → ℕ → ℕ → ℤ
signed_value h m p = if ltb p h then pos p else negsuc (m - 1 - p)

signed_value-pos :
    (h m n : ℕ) → 0 < h → m ≡ 2 * h → (signed_value h m (n % m) ≡ pos n) ↔ (ltb n h ≡ true)
unfolding signed_value
signed_value-pos h m n p e = (
  λ q. ground (arith, mod-lt n {m = m}),
  λ q. ground (arith, mod-lt n {m = m}, mod-eq_of_lt {n = n} {m = m}),
)

signed_value-negsuc :
    (h m n : ℕ)
    → 0 < h
    → m ≡ 2 * h
    → (signed_value h m (m - 1 - n % m) ≡ negsuc n) ↔ (ltb n h ≡ true)
unfolding signed_value
signed_value-negsuc h m n p e = (
  λ q. ground (arith, mod-lt n {m = m}),
  λ q. ground (arith, mod-lt n {m = m}, mod-eq_of_lt {n = n} {m = m}),
)

half_range : (k : ℕ) → 2 ^ suc k ≡ 2 * 2 ^ k
half_range k = omega (arith, pow-suc 2 k)

suc-sub-one : (k : ℕ) → suc k - 1 ≡ k
suc-sub-one k = omega arith

-- A signed cast keeps exactly the values in range.
pub as_signed-low_bits :
    (k : ℕ) (v : ℤ) → (as_signed (suc k) (low_bits (suc k) v) ≡ v) ↔ (fits_signed (suc k) v ≡ true)
unfolding signed_value
as_signed-low_bits k (pos n) =
    rw suc-sub-one
      (signed_value-pos (2 ^ k) (2 ^ suc k) n (one-le-pow k 2 (omega arith)) (half_range k))
as_signed-low_bits k (negsuc n) =
    rw suc-sub-one
      (signed_value-negsuc (2 ^ k) (2 ^ suc k) n (one-le-pow k 2 (omega arith)) (half_range k))

-- An unsigned cast keeps exactly the values in range.
pub low_bits-fits_unsigned : (w : ℕ) (v : ℤ) → (pos (low_bits w v) ≡ v) ↔ (fits_unsigned w v ≡ true)
low_bits-fits_unsigned w (pos n) = (
  λ q. ground (arith, mod-lt n {m = 2 ^ w}, one-le-pow w 2),
  λ q. ground (arith, mod-eq_of_lt {n = n} {m = 2 ^ w}),
)
low_bits-fits_unsigned w (negsuc n) = (λ q. cc, λ q. cc)
