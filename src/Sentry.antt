-- ===== src/Sentry.antt =====
-- sentry.rs: what a decision is, how a model's output is read as one, and the two-tier engine.
pub mod Schema
pub mod Parse
pub mod Client
pub mod Engine
pub mod Tests
use acip_sidecar.Prelude.{Bool, true, false, List, []}
use acip_sidecar.Text.{Text}

pub data RiskLevel : Type 0 where
  low medium high : RiskLevel

pub data Action : Type 0 where
  allow sanitize block needs_review : Action

pub record Decision : Type 0 where
  pub tools_allowed : Bool
  pub risk_level : RiskLevel
  pub action : Action
  pub fenced_content : Text
  pub reasons : List Text
  pub detected_patterns : List Text

unfoldable pub fail_closed : Text → List Text → Decision
fail_closed fenced_content reasons = record {
  tools_allowed = false;
  risk_level = high;
  action = needs_review;
  fenced_content = fenced_content;
  reasons = reasons;
  detected_patterns = [];
}
