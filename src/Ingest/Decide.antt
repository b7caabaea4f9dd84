-- ===== src/Ingest/Decide.antt =====
-- The decision path of `ingest_source`: the three sentry modes, the adjustments that every decision
-- passes through, and the response. The two copies of this code in ingest.rs are the same.
pub mod Laws
pub mod Strict
pub mod Tests
use acip_sidecar.Prelude.{
  ℕ, Bool, true, false, Option, none, some, List, [], ◌∷◌, ◌++◌, map, Result, ok, err, ltb, is_some,
  if◌then◌else◌, unwrap_or, length, u64_max,
}
use acip_sidecar.Text.{Text, text, text_eq, trim, eq_ignore_ascii_case, byte_len, parse_uint}
use acip_sidecar.Headers.{HeaderMap, policy_name_from_headers, allow_tools_from_headers}
use acip_sidecar.Json.{
  Value, null, num, str, arr, obj, Items, nil, cons, end, field, bool, array, opt_str,
}
use acip_sidecar.Policy.{PolicyConfig, require, sorted_names}
use acip_sidecar.Threat
use acip_sidecar.Threat.{
  AttackType, prompt_injection, tool_coercion, data_exfiltration, credential_theft, jailbreak,
  social_engineering, ThreatAssessment,
}
use acip_sidecar.Sentry.{Decision, low, medium, allow, fail_closed}
use acip_sidecar.Sentry.Client.{client}
use acip_sidecar.Sentry.Engine.{DecisionEngine, decide}
use acip_sidecar.Reputation.{
  RepMap, ReputationRecord, Observation, record_inner, record_file, observation,
}
use acip_sidecar.Reputation.Escalation.{from_env, apply_reputation}
use acip_sidecar.Extract
use acip_sidecar.Extract.{
  ExtractKind, ExtractResponse, ExtractorError, timeout, run_helper, display,
}
use acip_sidecar.Ingest
use acip_sidecar.Ingest.{
  IngestRequest, IngestResponse, Reply, unknown_policy, plain, success, Crates, World, AppState,
  Backend, in_memory, json_file, Joined, completed, join_failed, elapsed,
}
use acip_sidecar.Ingest.Detect.{host_from_url}
use acip_sidecar.Ingest.Gate.{enforce_markup_tools_cap, enforce_tools_authorization}
use acip_sidecar.Ingest.Prepare.{
  Input, decode_input, Prepared, extract_kind, extract_request, prepare_extracted, prepare_inline,
}
use acip_sidecar.Ingest.Window.{fence_external, apply_head_tail}

-- serde's names of the attack types.
snake_case : AttackType → Text
snake_case prompt_injection = text "prompt_injection"
snake_case tool_coercion = text "tool_coercion"
snake_case data_exfiltration = text "data_exfiltration"
snake_case credential_theft = text "credential_theft"
snake_case jailbreak = text "jailbreak"
snake_case social_engineering = text "social_engineering"

threat_value : ThreatAssessment → Value
unfolding snake_case
threat_value t = obj (
    field (text "attack_types") (arr (array (map snake_case t.attack_types))) (
      field (text "indicators") (arr (array t.indicators))
        (field (text "threat_score") (num t.threat_score) end)))

-- `threat` and `threat_audit`: the indicators are for operators alone.
unfoldable pub expose : Bool → ThreatAssessment → ThreatAssessment × Option ThreatAssessment
expose true full = (full, some full)
expose false full = (record full { indicators = [] }, none)

-- The trait's `record`, at the time `now` of its own clock.
unfoldable pub store_record : Backend → ℕ → RepMap → Observation → RepMap × List ReputationRecord
store_record in_memory now map obs = record_inner map obs
store_record json_file now map obs = record_file now map obs

-- The value of an environment variable that switches something on.
abbrev is_value : Option Text → Text → Bool
is_value none v = false
is_value (some s) v = text_eq (trim s) v

-- All that the decision and the response are made of.
pub record Case : Type 0 where
  pub sha : Text
  pub input : Input
  pub prepared : Prepared
  pub threat : ThreatAssessment
  pub threat_audit : Option ThreatAssessment
  pub recs : List ReputationRecord
  pub trunc_text : Text
  pub truncated : Bool

module _ (c : Crates) (w : World) (s : AppState c) (headers : HeaderMap) (req : IngestRequest) where
  abbrev pub allow_tools : Bool
  allow_tools = allow_tools_from_headers c.unicode headers

  abbrev pub policy_name : Text
  policy_name = policy_name_from_headers headers

  abbrev pub refusal : Reply
  refusal = unknown_policy policy_name (sorted_names s.policies)

  abbrev pub audit_mode : Bool
  audit_mode = is_value ((w.env) (text "ACIP_AUDIT_MODE")) (text "ENABLED")

  abbrev pub mode : Text
  mode = trim (unwrap_or ((w.env) (text "ACIP_SENTRY_MODE")) (text "live"))

  -- The three adjustments that every decision passes through.
  unfoldable pub gate : Case → Decision → Decision
  gate k d =
      apply_reputation c.floats w.decided_at
        (enforce_tools_authorization (enforce_markup_tools_cap d k.prepared.is_markup) allow_tools)
        allow_tools k.recs (from_env c.floats w.env)

  unfoldable pub stub_decision : Case → Decision
  unfolding gate
  stub_decision k =
      let d = gate k (
        fail_closed (fence_external k.trunc_text)
          (text "sentry disabled (ACIP_SENTRY_MODE=stub)" ∷ [])) in
      record d { risk_level = medium; action = allow }

  unfoldable pub stub_open_decision : Case → Decision
  unfolding gate
  stub_open_decision k = gate k (record {
    tools_allowed = true;
    risk_level = low;
    action = allow;
    fenced_content = fence_external k.trunc_text;
    reasons = text "sentry disabled (ACIP_SENTRY_MODE=stub-open)" ∷ [];
    detected_patterns = [];
  })

  pub source_meta : Case → Value
  unfolding threat_value
  source_meta k = obj (
      field (text "source_id") (str req.source_id) (
        field (text "source_type") (str (Ingest.debug req.source_type)) (
          field (text "content_type") (str req.content_type) (
            field (text "url") (opt_str req.url) (
              field (text "title") (opt_str req.title) (
                field (text "turn_id") (opt_str req.turn_id) (
                  field (text "digest_sha256") (str k.sha) (
                    field (text "original_length_chars") (num (length k.input.raw)) (
                      field (text "model_length_chars") (num (length k.prepared.model_text)) (
                        field (text "truncated") (bool k.truncated)
                          (field (text "threat") (threat_value k.threat) end)))))))))))

  -- The engine's answer, before the adjustments.
  unfoldable pub live_raw : Case → PolicyConfig → Decision
  unfolding source_meta
  live_raw k policy =
      let engine : DecisionEngine = record {
        l1 = client c.http (c.reader).json s.secrets policy.l1.provider;
        l2 = client c.http (c.reader).json s.secrets policy.l2.provider;
      } in
      decide c.reader w.env engine policy_name policy (source_meta k) (fence_external k.trunc_text)

  unfoldable pub live_decision : Case → PolicyConfig → Decision
  unfolding gate live_raw
  live_decision k policy = gate k (live_raw k policy)

  unfoldable pub build_response : Case → Decision → IngestResponse
  build_response k d = (record {
    digest = record { sha256 = k.sha; length = byte_len k.input.raw };
    truncated = k.truncated;
    policy = record {
      head = (s.policy).head;
      tail = (s.policy).tail;
      full_if_lte = (s.policy).full_if_lte;
    };
    original_length_chars = length k.input.raw;
    model_length_chars = length k.prepared.model_text;
    normalized = k.prepared.normalized;
    normalization_steps = k.prepared.normalization_steps;
    threat = k.threat;
    threat_audit = k.threat_audit;
    tools_allowed = d.tools_allowed;
    risk_level = d.risk_level;
    action = d.action;
    fenced_content = d.fenced_content;
    reasons = d.reasons;
    detected_patterns = d.detected_patterns;
  })

  live_reply : Case → Result Text PolicyConfig → Reply
  unfolding live_decision build_response
  live_reply k (ok policy) = success (build_response k (live_decision k policy))
  live_reply k (err e) = refusal

  -- The sentry modes.
  unfoldable pub respond : Case → Reply
  unfolding stub_decision stub_open_decision live_reply build_response
  respond k =
      if eq_ignore_ascii_case mode (text "stub")
      then success (build_response k (stub_decision k))
      else if eq_ignore_ascii_case mode (text "stub-open")
      then success (build_response k (stub_open_decision k))
      else live_reply k (require s.policies policy_name)
