-- ===== src/Ingest.antt =====
-- ingest.rs: the endpoint, its requests and its responses. What comes from crates and from outside
-- the process is collected in `Crates` and `World`.
pub mod Gate
pub mod Window
pub mod Detect
pub mod Prepare
pub mod Decide
pub mod Handler
pub mod Samples
pub mod Tests
use acip_sidecar.Prelude.{ℕ, Bool, Option, List, Result}
use acip_sidecar.Text.{Text, text, Unicode}
use acip_sidecar.Json.{Fallible}
use acip_sidecar.Floats.{Floats}
use acip_sidecar.Environment.{Env}
use acip_sidecar.Scan.Matcher.{AhoCorasick}
use acip_sidecar.Normalize.{ParseDocument}
use acip_sidecar.Threat.{ThreatAssessment}
use acip_sidecar.Sentry.{Decision, RiskLevel, Action}
use acip_sidecar.Sentry.Parse.{DecisionReader}
use acip_sidecar.Sentry.Client.{Http, SecretStore}
use acip_sidecar.Policy.{PolicyStore}
use acip_sidecar.Reputation.{RepMap}
use acip_sidecar.Settings.{TruncationPolicy, NormalizeSettings}
use acip_sidecar.Extract.{ExtractRequest, HelperRun}

pub data SourceType : Type 0 where
  html pdf tweet file clipboard unspecified : SourceType

-- `{:?}`; `unspecified` is the variant `Other`.
pub debug : SourceType → Text
debug html = text "Html"
debug pdf = text "Pdf"
debug tweet = text "Tweet"
debug file = text "File"
debug clipboard = text "Clipboard"
debug unspecified = text "Other"

-- The field `text` is `body` here.
pub record IngestRequest : Type 0 where
  pub source_id : Text
  pub source_type : SourceType
  pub content_type : Text
  pub url : Option Text
  pub title : Option Text
  pub turn_id : Option Text
  pub body : Option Text
  pub bytes_b64 : Option Text

pub record DigestInfo : Type 0 where
  pub sha256 : Text
  pub length : ℕ

pub record PolicyInfo : Type 0 where
  pub head : ℕ
  pub tail : ℕ
  pub full_if_lte : ℕ

pub record IngestResponse : Type 0 where
  pub digest : DigestInfo
  pub truncated : Bool
  pub policy : PolicyInfo
  pub original_length_chars : ℕ
  pub model_length_chars : ℕ
  pub normalized : Bool
  pub normalization_steps : List Text
  pub threat : ThreatAssessment
  pub threat_audit : Option ThreatAssessment
  pub tools_allowed : Bool
  pub risk_level : RiskLevel
  pub action : Action
  pub fenced_content : Text
  pub reasons : List Text
  pub detected_patterns : List Text

-- A reply: the JSON error about a policy, a plain text with its status, or 200 with the response.
pub data Reply : Type 0 where
  unknown_policy : Text → List Text → Reply
  plain : ℕ → Text → Reply
  success : IngestResponse → Reply

-- The crate url: the scheme and the host of a URL that parses.
pub record Url : Type 0 where
  pub scheme : Text
  pub host_str : Option Text

-- A node of roxmltree's `descendants()`: its text if it is a text node, and the tag names of
-- itself and its ancestors, inside out.
pub record XmlNode : Type 0 where
  pub is_text : Bool
  pub content : Option Text
  pub tags : List Text

pub record Crates : Type 1 where
  pub unicode : Unicode
  pub floats : Floats
  pub reader : DecisionReader
  pub http : Http
  pub matcher : AhoCorasick
  pub decode_b64 : Text → Fallible (List ℕ)
  pub sha256_hex : List ℕ → Text
  pub parse_url : Text → Option Url
  pub parse_document : ParseDocument
  pub parse_xml : Text → Option (List XmlNode)

-- How `tokio::time::timeout` over the blocking task ends: with the task's result, with a task that
-- could not be joined, or too late.
pub data Joined : Type 0 where
  completed : Joined
  join_failed : Text → Joined
  elapsed : Joined

-- One request's view of the outside: the environment, the clock where it is read, and the run of
-- the extractor for a request, the bytes and a time limit.
pub record World : Type 0 where
  pub env : Env
  pub observed_at : ℕ
  pub decided_at : ℕ
  pub helper_run : ExtractRequest → List ℕ → ℕ → HelperRun
  pub joined : ExtractRequest → List ℕ → ℕ → Joined

-- The trait object `ReputationStore`.
pub data Backend : Type 0 where
  in_memory json_file : Backend

pub record AppState (c : Crates) : Type 0 where
  pub policy : TruncationPolicy
  pub normalize : NormalizeSettings c.floats
  pub secrets : SecretStore
  pub policies : PolicyStore
  pub backend : Backend
  pub reputation : RepMap
