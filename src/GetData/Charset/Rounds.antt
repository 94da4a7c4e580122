-- ===== src/GetData/Charset/Rounds.antt =====
-- src/utils/utils.c: the rounds of iconv_calc.
use taos_connector_odbc.Prelude.{
  ℕ, zero, suc, ◌<◌, ◌≤◌, Bool, true, false, List, [], ◌∷◌, drop, length, length-drop, ◌≡◌, refl,
  arith, ◌⊎◌, inl, inr,
}
use taos_connector_odbc.Odbc.{Text}
use taos_connector_odbc.GetData.State.{Libc, Status, done, irreversible, e2big, illegal}
use taos_connector_odbc.GetData.Charset.{Calc, no_fuel, cannot, total, add_round, iconv_calc}

-- Whether the fuel was enough.
pub ended : Calc → Bool
ended no_fuel = false
ended cannot = true
ended (total n) = true

add_round-ended :
    (st : Status) (n : ℕ) (rest : Calc) → ended rest ≡ true → ended (add_round st n rest) ≡ true
unfolding add_round ended
add_round-ended illegal n rest h = refl
add_round-ended irreversible n rest h = refl
add_round-ended done n no_fuel h = h
add_round-ended done n cannot h = refl
add_round-ended done n (total m) h = refl
add_round-ended e2big n no_fuel h = h
add_round-ended e2big n cannot h = refl
add_round-ended e2big n (total m) h = refl

module _ (L : Libc) where
  -- If iconv, given input and a buffer of 4096 bytes, takes a byte or finds the input illegal, then
  -- iconv_calc ends: a round for each byte is enough for it to return a number of bytes or a failure.
  pub iconv_calc-rounds :
      (from to : Text)
      → ((b : ℕ) (bs : List ℕ)
          → (0 < (L.iconv from to (b ∷ bs) 4096).consumed)
            ⊎ ((L.iconv from to (b ∷ bs) 4096).status ≡ illegal))
      → (fuel : ℕ) (rest : List ℕ) → length rest ≤ fuel
      → ended (iconv_calc L fuel from to rest) ≡ true
  unfolding iconv_calc add_round ended
  iconv_calc-rounds from to progress fuel [] h = refl
  iconv_calc-rounds from to progress zero (b ∷ bs) h = absurd (omega arith)
  iconv_calc-rounds from to progress (suc fuel) (b ∷ bs) h =
      let c = L.iconv from to (b ∷ bs) 4096 in
      elim (progress b bs) [
        | inl taken ↦ add_round-ended c.status (length c.output) _ (
            iconv_calc-rounds from to progress fuel (drop c.consumed (b ∷ bs))
              (omega (arith, length-drop c.consumed (b ∷ bs))))
        | inr bad ↦ rw bad refl
      ]
