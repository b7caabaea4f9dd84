-- ===== src/Floats.antt =====
-- `f64`. There are no floats here: the type and the operations that the program calls are a
-- parameter, and what IEEE 754 says of them is stated where it is used.
use acip_sidecar.Prelude.{ℕ, ◌^◌, ◌≤◌, ◌<◌, ◌≡◌, true, Bool, Option}
use acip_sidecar.Text.{Text}

pub record Floats : Type 1 where
  pub F : Type 0
  -- A literal, as a fraction.
  pub lit : ℕ → ℕ → F
  pub of_uint : ℕ → F
  pub add : F → F → F
  pub mul : F → F → F
  pub div : F → F → F
  pub powf : F → F → F
  pub fmax : F → F → F
  -- `x.floor() as usize` and `x.round().clamp(0.0, u64::MAX as f64) as u64`.
  pub floor_uint : F → ℕ
  pub round_u64 : F → ℕ
  -- `(0.0..=1.0).contains(&x)`.
  pub in_unit : F → Bool
  pub parse : Text → Option F
  -- A number below 2^53 is exact, and rounding is monotone.
  pub scale-le :
      (n : ℕ) (f : F) → n < 2 ^ 53 → in_unit f ≡ true → floor_uint (mul (of_uint n) f) ≤ n
  -- One half is between 0 and 1.
  pub half-in_unit : in_unit (lit 1 2) ≡ true
