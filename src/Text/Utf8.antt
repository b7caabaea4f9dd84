-- ===== src/Text/Utf8.antt =====
-- The UTF-8 encoding of texts.
pub mod RoundTrip
use acip_sidecar.Prelude.{ℕ, ◌<◌, ◌≤◌, length, ap, ◌≡◌, refl, List, [], ◌∷◌, ◌++◌, arith, All}
use acip_sidecar.Text.{Text, encode, as_bytes}

encode-injective :
    (c d : ℕ) (s t : List ℕ)
    → c < 0x110000
    → d < 0x110000
    → encode c ++ s ≡ encode d ++ t
    → (c ≡ d) × (s ≡ t)
unfolding encode
encode-injective c d s t p q h = ground arith

abbrev pub InRange : Text → Type 0
InRange = All (λ c. c < 0x110000)

as_bytes-filled : (c : ℕ) (s : Text) → 1 ≤ length (as_bytes (c ∷ s))
unfolding as_bytes encode
as_bytes-filled c s = ground arith

-- Texts of code points with the same bytes are the same.
pub as_bytes-injective : (s t : Text) → InRange s → InRange t → as_bytes s ≡ as_bytes t → s ≡ t
unfolding as_bytes
as_bytes-injective [] [] p q h = refl
as_bytes-injective [] (d ∷ t) p q h = absurd (omega (arith, ap length h, as_bytes-filled d t))
as_bytes-injective (c ∷ s) [] p q h = absurd (omega (arith, ap length h, as_bytes-filled c s))
as_bytes-injective (c ∷ s) (d ∷ t) (p, ps) (q, qs) h =
    let (e, rest) = encode-injective c d (as_bytes s) (as_bytes t) p q h in
    cc (e, as_bytes-injective s t ps qs rest)
