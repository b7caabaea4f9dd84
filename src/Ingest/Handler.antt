-- ===== src/Ingest/Handler.antt =====
-- `ingest_source` of ingest.rs, the whole handler: checks, input, extraction, preparation,
-- reputation, the three sentry modes and the response.
pub mod Cases
pub mod Tools
pub mod Audit
pub mod Store
pub mod Refusal
pub mod Content
pub mod Closed
pub mod Default
use acip_sidecar.Prelude.{
  ℕ, Bool, true, false, Option, none, some, List, [], ◌∷◌, ◌++◌, map, Result, ok, err, ltb, is_some,
  if◌then◌else◌, unwrap_or, length, u64_max,
}
use acip_sidecar.Text.{Text, text, text_eq, trim, eq_ignore_ascii_case, byte_len, parse_uint}
use acip_sidecar.Headers.{HeaderMap, policy_name_from_headers, allow_tools_from_headers}
use acip_sidecar.Json.{
  Value, null, num, str, arr, obj, Items, nil, cons, end, field, bool, array, opt_str,
}
use acip_sidecar.Policy.{PolicyConfig, require, sorted_names}
use acip_sidecar.Threat
use acip_sidecar.Threat.{
  AttackType, prompt_injection, tool_coercion, data_exfiltration, credential_theft, jailbreak,
  social_engineering, ThreatAssessment,
}
use acip_sidecar.Sentry.{Decision, low, medium, allow, fail_closed}
use acip_sidecar.Sentry.Client.{client}
use acip_sidecar.Sentry.Engine.{DecisionEngine, decide}
use acip_sidecar.Reputation.{
  RepMap, ReputationRecord, Observation, record_inner, record_file, observation,
}
use acip_sidecar.Reputation.Escalation.{from_env, apply_reputation}
use acip_sidecar.Extract
use acip_sidecar.Extract.{
  ExtractKind, ExtractResponse, ExtractorError, timeout, run_helper, display,
}
use acip_sidecar.Ingest
use acip_sidecar.Ingest.{
  IngestRequest, IngestResponse, Reply, unknown_policy, plain, success, Crates, World, AppState,
  Backend, in_memory, json_file, Joined, completed, join_failed, elapsed,
}
use acip_sidecar.Ingest.Detect.{host_from_url}
use acip_sidecar.Ingest.Gate.{enforce_markup_tools_cap, enforce_tools_authorization}
use acip_sidecar.Ingest.Prepare.{
  Input, decode_input, Prepared, extract_kind, extract_request, prepare_extracted, prepare_inline,
}
use acip_sidecar.Ingest.Window.{fence_external, apply_head_tail}
use acip_sidecar.Ingest.Decide.{
  Case, expose, store_record, audit_mode, policy_name, refusal, respond,
}

module _ (c : Crates) (w : World) (s : AppState c) (headers : HeaderMap) (req : IngestRequest) where
  pub observation_of : ThreatAssessment → Observation
  observation_of threat =
      observation w.observed_at req.source_id
        (elim req.url [ none ↦ none | some url ↦ host_from_url c url ]) threat.threat_score
        (map Threat.debug threat.attack_types)

  -- The new map of the reputation store, and the records of this source.
  unfoldable pub recorded : Prepared → RepMap × List ReputationRecord
  unfolding observation_of store_record expose
  recorded p =
      store_record s.backend w.observed_at s.reputation
        (observation_of (expose (audit_mode c w s headers req) p.threat_full).0)

  -- From the prepared text on, which both paths do alike.
  unfoldable pub case_of : Input → Prepared → Case
  unfolding recorded expose
  case_of input p =
      let exposed = expose (audit_mode c w s headers req) p.threat_full in
      let cut = apply_head_tail s.policy p.model_text in
      record {
        sha = (c.sha256_hex) input.bytes;
        input = input;
        prepared = p;
        threat = exposed.0;
        threat_audit = exposed.1;
        recs = (recorded p).1;
        trunc_text = cut.0;
        truncated = cut.1;
      }

  pub finish : Input → Prepared → Reply × RepMap
  unfolding respond case_of
  finish input p = (respond c w s headers req (case_of input p), (recorded p).0)

  -- `extract_timeout (…)`, `extract_failed (…): …` and `extract_join_failed (…): …`.
  labelled : Text → ExtractKind → Text
  labelled label kind = label ++ (text " (" ++ (Extract.debug kind ++ text ")"))

  extract_error : ExtractKind → ExtractorError → Reply
  unfolding labelled
  extract_error kind timeout = plain 408 (labelled (text "extract_timeout") kind)
  extract_error kind e =
      plain 400 (labelled (text "extract_failed") kind ++ (text ": " ++ display e))

  abbrev extractor_timeout_secs : ℕ
  extractor_timeout_secs =
      unwrap_or (parsed_secs ((w.env) (text "ACIP_EXTRACTOR_TIMEOUT_SECS"))) 180
    where
      parsed_secs : Option Text → Option ℕ
      parsed_secs none = none
      parsed_secs (some v) = parse_uint u64_max (trim v)

  after_join : Input → ExtractKind → Joined → Result ExtractorError ExtractResponse → Reply × RepMap
  unfolding finish extract_error
  after_join input kind completed (ok resp) = finish input (prepare_extracted c resp)
  after_join input kind completed (err e) = (extract_error kind e, s.reputation)
  after_join input kind (join_failed e) _ =
      (plain 400 (labelled (text "extract_join_failed") kind ++ (text ": " ++ e)), s.reputation)
  after_join input kind elapsed _ =
      (plain 408 (labelled (text "extract_timeout") kind), s.reputation)

  pub process : Input → Option ExtractKind → Reply × RepMap
  unfolding finish after_join
  process input none = finish input (prepare_inline c req input.raw s.normalize)
  process input (some kind) =
      let ereq = extract_request c req kind in
      after_join input kind ((w.joined) ereq input.bytes extractor_timeout_secs)
        (run_helper ((w.helper_run) ereq input.bytes extractor_timeout_secs) ereq)

  with_input : Result Reply Input → Reply × RepMap
  unfolding process
  with_input (err reply) = (reply, s.reputation)
  with_input (ok input) = process input (extract_kind c req)

  with_policy : Result Text PolicyConfig → Reply × RepMap
  unfolding with_input
  with_policy (err e) = (refusal c w s headers req, s.reputation)
  with_policy (ok policy) = with_input (decode_input c req.body req.bytes_b64)

  unfoldable pub ingest_source : Reply × RepMap
  unfolding with_policy
  ingest_source = with_policy (require s.policies (policy_name c w s headers req))
