-- ===== src/Environment.antt =====
-- The process environment: `std::env::var(name).ok()`.
use acip_sidecar.Prelude.{Option}
use acip_sidecar.Text.{Text}

abbrev pub Env : Type 0
Env = Text → Option Text
