-- ===== src/Settings/Laws.antt =====
-- The factor that tightens the caps.
use acip_sidecar.Prelude.{◌≡◌, true, Bool-cases, inl, inr, Option}
use acip_sidecar.Environment.{Env}
use acip_sidecar.Floats.{Floats}
use acip_sidecar.Settings.{NormalizeSettings, clamp_factor, from_config}

pub clamp_factor-in_unit : (f : Floats) (x : f.F) → f.in_unit (clamp_factor f x) ≡ true
unfolding clamp_factor
clamp_factor-in_unit f x = elim (Bool-cases (f.in_unit x)) [
  | inl good ↦ rw good good
  | inr bad ↦ rw bad (f.half-in_unit)
]

-- Whatever the file and the environment say, not-a-number included, the factor that tightens caps
-- is between 0 and 1.
pub from_config-in_unit :
    (f : Floats) (env : Env) (cfg : Option (NormalizeSettings f))
    → f.in_unit (from_config f env cfg).adversarial_tighten_factor ≡ true
unfolding from_config
from_config-in_unit f env cfg = clamp_factor-in_unit f _
