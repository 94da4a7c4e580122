-- ===== src/Hex/Tests.antt =====
-- Runs of common/auxiliary.c on a few bytes.
use taos_connector_odbc.Prelude.{ℕ, List, some, [], ◌∷◌, ◌≡◌, refl, arith}
use taos_connector_odbc.Odbc.{Text}
use taos_connector_odbc.Hex.{hexify, hex2bytes}
use taos_connector_odbc.Hex.RoundTrip.{hex2bytes-hexify}

-- 0a ff
abbrev two_bytes : List ℕ
two_bytes = 10 ∷ 255 ∷ []

two_bytes_text : hexify 8 two_bytes ≡ some (48 ∷ 97 ∷ 102 ∷ 102 ∷ [])
unfolding hexify
two_bytes_text = refl

hex2bytes-hexify_example :
    (text : Text) × (hexify 8 two_bytes ≡ some text) × (hex2bytes 4 text ≡ some two_bytes)
hex2bytes-hexify_example =
    hex2bytes-hexify 8 4 two_bytes (omega arith, (omega arith, tt)) (omega arith) (omega arith)
