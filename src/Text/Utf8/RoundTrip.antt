-- ===== src/Text/Utf8/RoundTrip.antt =====
-- Decoding what was encoded.
use acip_sidecar.Prelude.{
  ℕ, ◌+◌, ◌-◌, ◌*◌, ◌/◌, ◌%◌, ◌≤◌, ◌≡◌, refl, true, some, List, [], ◌∷◌, ◌++◌, arith, all, ltb,
  Bool-cases, inl, inr,
}
use acip_sidecar.Text.{Text, is_scalar, encode, as_bytes, from_utf8, cons_if}

one :
    (c : ℕ) (rest : List ℕ) (s : Text)
    → ltb c 0x80 ≡ true
    → from_utf8 rest ≡ some s
    → from_utf8 (c ∷ rest) ≡ some (c ∷ s)
unfolding from_utf8 cons_if
one c [] s h e = ground arith
one c (b ∷ []) s h e = rw (h, e) refl
one c (b ∷ d ∷ []) s h e = rw (h, e) refl
one c (b ∷ d ∷ f ∷ rest) s h e = rw (h, e) refl

two :
    (a b c : ℕ) (rest : List ℕ) (s : Text)
    → 0xc2 ≤ a
    → a ≤ 0xdf
    → 0x80 ≤ b
    → b ≤ 0xbf
    → c ≡ (a - 0xc0) * 64 + (b - 0x80)
    → from_utf8 rest ≡ some s
    → from_utf8 (a ∷ b ∷ rest) ≡ some (c ∷ s)
unfolding from_utf8 cons_if
two a b c [] s h1 h2 h3 h4 q e = ground arith
two a b c (d ∷ []) s h1 h2 h3 h4 q e = ground arith
two a b c (d ∷ f ∷ rest) s h1 h2 h3 h4 q e = ground arith

three :
    (a b d c : ℕ) (rest : List ℕ) (s : Text)
    → 0xe0 ≤ a
    → a ≤ 0xef
    → 0x80 ≤ b
    → b ≤ 0xbf
    → 0x80 ≤ d
    → d ≤ 0xbf
    → c ≡ (a - 0xe0) * 4096 + (b - 0x80) * 64 + (d - 0x80)
    → 0x800 ≤ c
    → is_scalar c ≡ true
    → from_utf8 rest ≡ some s
    → from_utf8 (a ∷ b ∷ d ∷ rest) ≡ some (c ∷ s)
unfolding from_utf8 cons_if
three a b d c [] s h1 h2 h3 h4 h5 h6 q h7 h8 e = ground arith
three a b d c (f ∷ rest) s h1 h2 h3 h4 h5 h6 q h7 h8 e = ground arith

four :
    (a b d f c : ℕ) (rest : List ℕ) (s : Text)
    → 0xf0 ≤ a
    → a ≤ 0xf4
    → 0x80 ≤ b
    → b ≤ 0xbf
    → 0x80 ≤ d
    → d ≤ 0xbf
    → 0x80 ≤ f
    → f ≤ 0xbf
    → c ≡ (a - 0xf0) * 262144 + (b - 0x80) * 4096 + (d - 0x80) * 64 + (f - 0x80)
    → 0x10000 ≤ c
    → is_scalar c ≡ true
    → from_utf8 rest ≡ some s
    → from_utf8 (a ∷ b ∷ d ∷ f ∷ rest) ≡ some (c ∷ s)
unfolding from_utf8 cons_if
four a b d f c rest s h1 h2 h3 h4 h5 h6 h7 h8 q h9 h10 e = ground arith

from_utf8-encode :
    (c : ℕ) (rest : List ℕ) (s : Text)
    → is_scalar c ≡ true
    → from_utf8 rest ≡ some s
    → from_utf8 (encode c ++ rest) ≡ some (c ∷ s)
unfolding encode
from_utf8-encode c rest s h e = elim (Bool-cases (ltb c 0x80)) [
  | inl x ↦ rw x (one c rest s x e)
  | inr x ↦ elim (Bool-cases (ltb c 0x800)) [
    | inl y ↦
        rw (x, y)
          (two (0xc0 + c / 64) (0x80 + c % 64) c rest s (ground arith) (ground arith) (omega arith)
            (omega arith) (ground arith) e)
    | inr y ↦ elim (Bool-cases (ltb c 0x10000)) [
      | inl z ↦
          rw (x, y, z)
            (three (0xe0 + c / 4096) (0x80 + c / 64 % 64) (0x80 + c % 64) c rest s (omega arith)
              (ground arith) (omega arith) (omega arith) (omega arith) (omega arith) (ground arith)
              (ground arith) h e)
      | inr z ↦
          rw (x, y, z)
            (four (0xf0 + c / 262144) (0x80 + c / 4096 % 64) (0x80 + c / 64 % 64) (0x80 + c % 64) c
              rest s (omega arith) (ground arith) (omega arith) (omega arith) (omega arith)
              (omega arith) (omega arith) (omega arith) (ground arith) (ground arith) h e)
    ]
  ]
]

from_utf8-nil : from_utf8 [] ≡ some []
unfolding from_utf8
from_utf8-nil = refl

-- A `String` holds scalar values, and decoding its bytes gives it back.
pub from_utf8-as_bytes : (s : Text) → all is_scalar s ≡ true → from_utf8 (as_bytes s) ≡ some s
unfolding as_bytes
from_utf8-as_bytes [] h = from_utf8-nil
from_utf8-as_bytes (c ∷ s) h = elim (Bool-cases (is_scalar c)) [
  | inl x ↦ from_utf8-encode c (as_bytes s) s x (from_utf8-as_bytes s (rw x at h))
  | inr x ↦ absurd (cc (rw x at h))
]
