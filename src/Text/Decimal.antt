-- ===== src/Text/Decimal.antt =====
-- Decimal numerals, as `Display` writes the unsigned integers.
use fastrapi.Prelude.{ℕ, zero, suc, ◌+◌, ◌/◌, ◌%◌, [], ◌∷◌, ◌++◌, if◌then◌else◌, ltb}
use fastrapi.Text.{Str}

-- On fuel: a number that is at most the fuel is written in full.
unfoldable pub decimal_from : ℕ → ℕ → Str
decimal_from zero n = (n % 10 + b'0') ∷ []
decimal_from (suc fuel) n =
    let rest = decimal_from fuel (n / 10) in
    if ltb n 10 then (n + b'0') ∷ [] else rest ++ (n % 10 + b'0') ∷ []

unfoldable pub decimal : ℕ → Str
unfolding decimal_from
decimal n = decimal_from n n
