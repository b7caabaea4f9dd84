-- ===== src/Ingest/Window.antt =====
-- Truncation in ingest.rs: the fence, the head and the tail of the model's text, and the window of
-- large markup.
pub mod Laws
pub mod Tighten
pub mod Tests
use mathlib.Core.List.{reverse}
use acip_sidecar.Prelude.{
  ℕ, Bool, true, false, ◌++◌, leb, ltb, if◌then◌else◌, take, length, max, ◌/◌, ◌≡◌,
}
use acip_sidecar.Text.{Text, text}
use acip_sidecar.Floats.{Floats}
use acip_sidecar.Settings.{TruncationPolicy, NormalizeSettings, clamp_factor}

unfoldable pub fence_external : Text → Text
fence_external s = text "```external\n" ++ (s ++ text "\n```")

-- `s.chars().rev().take(n)`, and back again.
unfoldable pub last_chars : ℕ → Text → Text
last_chars n s = reverse (take n (reverse s))

unfoldable pub apply_head_tail : TruncationPolicy → Text → Text × Bool
unfolding last_chars
apply_head_tail policy s = if leb (length s) policy.full_if_lte then (s, false) else (
  take policy.head s ++ (text "\n\n[...TRUNCATED...]\n\n" ++ last_chars policy.tail s),
  true,
)

unfoldable pub normalize_truncation_marker : Text
normalize_truncation_marker = text "[...TRUNCATED_FOR_NORMALIZATION...]"

unfoldable pub build_normalization_window : Text → ℕ → ℕ → Text
unfolding last_chars
build_normalization_window input head_chars tail_chars =
    take head_chars input ++ (normalize_truncation_marker ++ last_chars tail_chars input)

abbrev pub min_cap : ℕ
min_cap = 10000

module _ (f : Floats) where
  unfoldable pub maybe_window_markup_input : Text → Bool → NormalizeSettings f → Text × Bool
  unfolding build_normalization_window
  maybe_window_markup_input input false settings = (input, false)
  maybe_window_markup_input input true settings =
      if leb (length input) settings.max_input_chars then (input, false) else (
        build_normalization_window input settings.window_head_chars settings.window_tail_chars,
        true,
      )

  -- `((n as f64) * f).floor() as usize`.
  abbrev pub scale : f.F → ℕ → ℕ
  scale x n = f.floor_uint (f.mul (f.of_uint n) x)

  -- The tightening of the caps for suspicious markup, under its test.
  unfoldable pub tighten : NormalizeSettings f → NormalizeSettings f
  tighten eff =
      let x = clamp_factor f eff.adversarial_tighten_factor in
      record eff {
        max_input_chars = max (scale x eff.max_input_chars) min_cap;
        window_head_chars = max (scale x eff.window_head_chars) (min_cap / 2);
        window_tail_chars = max (scale x eff.window_tail_chars) (min_cap / 2);
      }
