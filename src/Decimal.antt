-- ===== src/Decimal.antt =====
-- `{}` of an unsigned number: its decimal digits.
use acip_sidecar.Prelude.{ℕ, zero, suc, ◌+◌, ◌/◌, ◌%◌, [], ◌∷◌, ltb, if◌then◌else◌}
use acip_sidecar.Text.{Text}

-- Each round divides by ten, so the number itself is fuel enough.
digits_onto : ℕ → ℕ → Text → Text
digits_onto zero n acc = (b'0' + n % 10) ∷ acc
digits_onto (suc fuel) n acc =
    let rest = digits_onto fuel (n / 10) ((b'0' + n % 10) ∷ acc) in
    if ltb n 10 then (b'0' + n) ∷ acc else rest

unfoldable pub to_decimal : ℕ → Text
unfolding digits_onto
to_decimal n = digits_onto n n []
