-- ===== src/Identity/Lookup.antt =====
-- The lookups of main.rs end.
use native.Mathlib.Nat.{mul_assoc}
use mathlib.Core.Path.{subst}
use acip_sidecar.Prelude.{ℕ, zero, suc, ◌*◌, ◌^◌, ◌≤◌, ◌≡◌, refl, ◌∙◌, sym, ap, ◌≢◌, err, arith}
use acip_sidecar.Text.{Text}
use acip_sidecar.Identity.{
  Answer, found, missing, erange, failed, looping, Checked, resolve, lookup_loop,
}

-- A call is content with every buffer of at least `n` bytes.
abbrev pub Suffices : {A : Type 0} → (ℕ → Answer A) → ℕ → Type 0
Suffices call n = (len : ℕ) → n ≤ len → call len ≢ erange

resolve-ne-looping :
    {A : Type 0} (again : ℕ → Checked A) (len : ℕ) (missing_error failed_prefix : Text)
    (a : Answer A)
    → (a ≡ erange → again (len * 2) ≢ err looping)
    → resolve again len missing_error failed_prefix a ≢ err looping
unfolding resolve
resolve-ne-looping again len m f (found a) h = λ q. cc
resolve-ne-looping again len m f missing h = λ q. cc
resolve-ne-looping again len m f erange h = h refl
resolve-ne-looping again len m f (failed e) h = λ q. cc

double : (len k n : ℕ) → n ≤ len * 2 ^ suc k → n ≤ len * 2 * 2 ^ k
double len k n h =
    let e : 2 ^ suc k ≡ 2 * 2 ^ k = omega arith in
    subst (λ t. n ≤ t) (ap (λ t. len * t) e ∙ sym (mul_assoc len 2 (2 ^ k))) h

module _ {A : Type 0} (call : ℕ → Answer A) (n : ℕ) (enough : Suffices call n)
    (missing_error failed_prefix : Text) where
  pub lookup_loop-ne-looping :
      (fuel len : ℕ)
      → n ≤ len * 2 ^ fuel
      → lookup_loop (suc fuel) call missing_error failed_prefix len ≢ err looping
  unfolding lookup_loop resolve
  lookup_loop-ne-looping zero len h =
      resolve-ne-looping (lookup_loop zero call missing_error failed_prefix) len missing_error
        failed_prefix (call len) (λ e. absurd (enough len (omega arith) e))
  lookup_loop-ne-looping (suc fuel) len h =
      resolve-ne-looping (lookup_loop (suc fuel) call missing_error failed_prefix) len missing_error
        failed_prefix (call len) (λ e. lookup_loop-ne-looping fuel (len * 2) (double len fuel n h))
