-- ===== src/Ingest/Gate/Laws.antt =====
-- The two caps of ingest.rs on tools, field by field.
use acip_sidecar.Prelude.{◌≡◌, Bool, true, false, arith}
use acip_sidecar.Sentry.{Decision}
use acip_sidecar.Ingest.Gate.{enforce_markup_tools_cap, enforce_tools_authorization}

module _ (d : Decision) (b : Bool) where
  pub enforce_markup_tools_cap-tools :
      (enforce_markup_tools_cap d b).tools_allowed ≡ true → (d.tools_allowed ≡ true) × (b ≡ false)
  unfolding enforce_markup_tools_cap
  enforce_markup_tools_cap-tools h = ground arith

  pub enforce_tools_authorization-tools :
      (enforce_tools_authorization d b).tools_allowed ≡ true → (d.tools_allowed ≡ true) × (b ≡ true)
  unfolding enforce_tools_authorization
  enforce_tools_authorization-tools h = ground arith

  pub enforce_markup_tools_cap-content :
      (enforce_markup_tools_cap d b).fenced_content ≡ d.fenced_content
  unfolding enforce_markup_tools_cap
  enforce_markup_tools_cap-content = ground arith

  pub enforce_tools_authorization-content :
      (enforce_tools_authorization d b).fenced_content ≡ d.fenced_content
  unfolding enforce_tools_authorization
  enforce_tools_authorization-content = ground arith
