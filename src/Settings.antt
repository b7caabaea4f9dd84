-- ===== src/Settings.antt =====
-- state.rs and the part of config.rs that it reads: truncation policy and normalization settings.
pub mod Laws
use acip_sidecar.Prelude.{
  ℕ, Bool, true, false, Option, none, some, if◌then◌else◌, or_else, unwrap_or, u8_max, u64_max,
}
use acip_sidecar.Text.{Text, text, trim, parse_uint}
use acip_sidecar.Environment.{Env}
use acip_sidecar.Floats.{Floats}

-- `Policy` of state.rs.
pub record TruncationPolicy : Type 0 where
  pub head : ℕ
  pub tail : ℕ
  pub full_if_lte : ℕ

abbrev pub default_normalize_max_input_chars : ℕ
default_normalize_max_input_chars = 400000

abbrev pub default_normalize_window_head_chars : ℕ
default_normalize_window_head_chars = 200000

abbrev pub default_normalize_window_tail_chars : ℕ
default_normalize_window_tail_chars = 200000

abbrev pub default_normalize_adversarial_threshold : ℕ
default_normalize_adversarial_threshold = 3

-- `env_usize` and `env_u8`, at their types' maxima; `usize` has 64 bits.
unfoldable pub env_uint : ℕ → Env → Text → Option ℕ
env_uint most env name = elim (env name) [ none ↦ none | some v ↦ parse_uint most (trim v) ]

module _ (f : Floats) where
  abbrev pub default_normalize_adversarial_tighten_factor : f.F
  default_normalize_adversarial_tighten_factor = f.lit 1 2

  -- `NormalizeConfig` has the fields of the settings, with the defaults where a key is missing.
  pub record NormalizeSettings : Type 0 where
    pub max_input_chars : ℕ
    pub window_head_chars : ℕ
    pub window_tail_chars : ℕ
    pub adversarial_threshold : ℕ
    pub adversarial_tighten_factor : f.F

  env_f64 : Env → Text → Option f.F
  env_f64 env name = elim (env name) [ none ↦ none | some v ↦ f.parse (trim v) ]

  -- The settings of the file, or the defaults.
  configured : Option NormalizeSettings → NormalizeSettings
  configured none = record {
    max_input_chars = default_normalize_max_input_chars;
    window_head_chars = default_normalize_window_head_chars;
    window_tail_chars = default_normalize_window_tail_chars;
    adversarial_threshold = default_normalize_adversarial_threshold;
    adversarial_tighten_factor = default_normalize_adversarial_tighten_factor;
  }
  configured (some c) = c

  -- The defensive clamp of the factor; it stands here and in ingest.rs.
  unfoldable pub clamp_factor : f.F → f.F
  clamp_factor x = if f.in_unit x then x else default_normalize_adversarial_tighten_factor

  unfoldable pub from_config : Env → Option NormalizeSettings → NormalizeSettings
  unfolding env_f64 configured clamp_factor env_uint
  from_config env cfg =
      let c = configured cfg in
      record {
        max_input_chars =
            unwrap_or (env_uint u64_max env (text "ACIP_NORMALIZE_MAX_INPUT_CHARS"))
              c.max_input_chars;
        window_head_chars =
            unwrap_or (env_uint u64_max env (text "ACIP_NORMALIZE_WINDOW_HEAD_CHARS"))
              c.window_head_chars;
        window_tail_chars =
            unwrap_or (env_uint u64_max env (text "ACIP_NORMALIZE_WINDOW_TAIL_CHARS"))
              c.window_tail_chars;
        adversarial_threshold =
            unwrap_or (env_uint u8_max env (text "ACIP_NORMALIZE_ADVERSARIAL_THRESHOLD"))
              c.adversarial_threshold;
        adversarial_tighten_factor = clamp_factor (
            unwrap_or (env_f64 env (text "ACIP_NORMALIZE_ADVERSARIAL_TIGHTEN_FACTOR"))
              c.adversarial_tighten_factor);
      }
