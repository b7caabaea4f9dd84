-- ===== src/Ingest/Window/Tighten.antt =====
-- The tightening of the caps for suspicious markup.
use acip_sidecar.Prelude.{ℕ, ◌^◌, ◌/◌, ◌≤◌, ◌<◌, ◌≡◌, refl, arith, max}
use acip_sidecar.Floats.{Floats}
use acip_sidecar.Settings.{NormalizeSettings, clamp_factor}
use acip_sidecar.Settings.Laws.{clamp_factor-in_unit}
use acip_sidecar.Ingest.Window.{min_cap, scale, tighten}

abbrev factor : (f : Floats) → NormalizeSettings f → f.F
factor f eff = clamp_factor f eff.adversarial_tighten_factor

abbrev pub exact : ℕ
exact = 2 ^ 53

pub record Within (low high n : ℕ) : Type 0 where
  pub above : low ≤ n
  pub below : n ≤ high

-- Tightened caps: each is between its floor and the cap that was configured.
pub record IsTightened (f : Floats) (old new : NormalizeSettings f) : Type 0 where
  pub max_input : Within min_cap old.max_input_chars new.max_input_chars
  pub window_head : Within (min_cap / 2) old.window_head_chars new.window_head_chars
  pub window_tail : Within (min_cap / 2) old.window_tail_chars new.window_tail_chars
  pub threshold : new.adversarial_threshold ≡ old.adversarial_threshold

scaled-le :
    (f : Floats) (eff : NormalizeSettings f) (n : ℕ) → n < exact → scale f (factor f eff) n ≤ n
scaled-le f eff n lt =
    f.scale-le n (factor f eff) lt (clamp_factor-in_unit f eff.adversarial_tighten_factor)

scaled-Within :
    (f : Floats) (eff : NormalizeSettings f) (low n : ℕ)
    → low ≤ n
    → n < exact
    → Within low n (max (scale f (factor f eff) n) low)
scaled-Within f eff low n le lt = record {
  above = omega arith;
  below = omega (arith, scaled-le f eff n lt);
}

-- Where the configured caps are at least their floors of 10000 and 5000 characters, and below 2^53,
-- so that they are exact as floats, tightening for suspicious markup never raises a cap, whatever
-- factor was configured, and keeps it at its floor or above.
pub tighten-IsTightened :
    (f : Floats) (eff : NormalizeSettings f)
    → min_cap ≤ eff.max_input_chars
    → eff.max_input_chars < exact
    → min_cap / 2 ≤ eff.window_head_chars
    → eff.window_head_chars < exact
    → min_cap / 2 ≤ eff.window_tail_chars
    → eff.window_tail_chars < exact
    → IsTightened f eff (tighten f eff)
unfolding tighten
tighten-IsTightened f eff i1 i2 h1 h2 t1 t2 = record {
  max_input = scaled-Within f eff min_cap eff.max_input_chars i1 i2;
  window_head = scaled-Within f eff (min_cap / 2) eff.window_head_chars h1 h2;
  window_tail = scaled-Within f eff (min_cap / 2) eff.window_tail_chars t1 t2;
  threshold = refl;
}

-- A configured input cap below the floor is not tightened but raised: whatever the factor, the cap
-- for suspicious markup is then the floor, which is greater.
pub tighten-raises :
    (f : Floats) (eff : NormalizeSettings f)
    → eff.max_input_chars < min_cap
    → ((tighten f eff).max_input_chars ≡ min_cap)
      × (eff.max_input_chars < (tighten f eff).max_input_chars)
unfolding tighten
tighten-raises f eff lt = (
  omega (arith, scaled-le f eff eff.max_input_chars (omega arith)),
  omega (arith, scaled-le f eff eff.max_input_chars (omega arith)),
)
