-- ===== src/Ingest/Tests.antt =====
-- The theorems about the endpoint at concrete requests.
use acip_sidecar.Prelude.{
  ℕ, Option, none, ◌≤◌, ◌<◌, ◌≡◌, refl, ◌≢◌, ◌↔◌, true, false, Bool, List, [], ◌∷◌, arith, length,
  All,
}
use acip_sidecar.Text.{Text, text, eq_ignore_ascii_case}
use acip_sidecar.Sentry.{low, allow, high, needs_review}
use acip_sidecar.Threat.{none_found}
use acip_sidecar.Sentry.Client.Laws.{NoKeys}
use acip_sidecar.Policy.{gemini, anthropic}
use acip_sidecar.Ingest.{IngestRequest, IngestResponse, Reply, success, SourceType, html}
use acip_sidecar.Ingest.Samples.{
  crates, stub_open_world, live_world, state, no_keys, authorized, request,
}
use acip_sidecar.Ingest.Detect.{is_html_like}
use acip_sidecar.Ingest.Decide.{mode}
use acip_sidecar.Ingest.Handler.{ingest_source}
use acip_sidecar.Ingest.Handler.Tools.{ToolsGranted, ingest_source-tools}
use acip_sidecar.Ingest.Handler.Audit.{ShownOf, ingest_source-audit}
use acip_sidecar.Ingest.Handler.Store.{StoreAfter, ingest_source-store}
use acip_sidecar.Ingest.Handler.Content.{Describes, ingest_source-content}
use acip_sidecar.Ingest.Handler.Closed.{ingest_source-closed}

abbrev plain_request : IngestRequest
plain_request = request (text "hi there")

abbrev granted : Reply
granted = (ingest_source crates stub_open_world (state no_keys) authorized plain_request).0

-- A plain text from the clipboard, in the mode stub-open, with tools authorized.
abbrev open_response : IngestResponse
open_response = record {
  digest = record { sha256 = text "8"; length = 8 };
  truncated = false;
  policy = record { head = 4000; tail = 4000; full_if_lte = 9000 };
  original_length_chars = 8;
  model_length_chars = 8;
  normalized = false;
  normalization_steps = [];
  threat = none_found;
  threat_audit = none;
  tools_allowed = true;
  risk_level = low;
  action = allow;
  fenced_content = text "```external\nhi there\n```";
  reasons =
      text "sentry disabled (ACIP_SENTRY_MODE=stub-open)"
      ∷ text "source reputation: key=source_id:a effective_risk=0 raw_risk=0 suspected_attacks=0"
      ∷ [];
  detected_patterns = [];
}

answered_open : granted ≡ success open_response
unfolding ingest_source text acip_sidecar.Policy.require acip_sidecar.Policy.default_from_env
    acip_sidecar.Policy.get acip_sidecar.Assoc.lookup acip_sidecar.Assoc.insert
    acip_sidecar.Headers.policy_name_from_headers acip_sidecar.Headers.get_str
    acip_sidecar.Headers.allow_tools_from_headers acip_sidecar.Text.text_eq
    acip_sidecar.Text.contains acip_sidecar.Text.ascii_lower acip_sidecar.Text.trim
    acip_sidecar.Text.as_bytes acip_sidecar.Text.encode acip_sidecar.Text.starts_with
    eq_ignore_ascii_case acip_sidecar.Decimal.to_decimal acip_sidecar.Ingest.Prepare.decode_input
    acip_sidecar.Ingest.Prepare.extract_kind acip_sidecar.Ingest.Prepare.prepare_inline
    acip_sidecar.Ingest.Detect.is_html_like acip_sidecar.Ingest.Detect.is_svg_like
    acip_sidecar.Ingest.Window.apply_head_tail acip_sidecar.Ingest.Window.maybe_window_markup_input
    acip_sidecar.Ingest.Window.fence_external acip_sidecar.Ingest.Gate.enforce_markup_tools_cap
    acip_sidecar.Ingest.Gate.enforce_tools_authorization
    acip_sidecar.Reputation.Escalation.apply_reputation
    acip_sidecar.Reputation.Escalation.effective_risk_score
    acip_sidecar.Reputation.Escalation.from_env acip_sidecar.Reputation.record_inner
    acip_sidecar.Reputation.observation acip_sidecar.Text.parse_uint acip_sidecar.Threat.assess
    acip_sidecar.Threat.normalize acip_sidecar.Prelude.Sort.sort acip_sidecar.Prelude.Sort.dedup
    acip_sidecar.Sentry.Client.client acip_sidecar.Sentry.Engine.decide
    acip_sidecar.Sentry.fail_closed
answered_open = refl

ingest_source-tools_example :
    ToolsGranted crates stub_open_world (state no_keys) authorized plain_request
ingest_source-tools_example =
    ingest_source-tools crates stub_open_world (state no_keys) authorized plain_request
      open_response answered_open refl

ingest_source-audit_example :
    ShownOf crates stub_open_world (state no_keys) authorized plain_request open_response
ingest_source-audit_example =
    ingest_source-audit crates stub_open_world (state no_keys) authorized plain_request
      open_response answered_open

ingest_source-store_example :
    StoreAfter crates stub_open_world
      (state no_keys)
      authorized
      plain_request
      granted
      (ingest_source crates stub_open_world (state no_keys) authorized plain_request).1
ingest_source-store_example =
    ingest_source-store crates stub_open_world (state no_keys) authorized plain_request

ingest_source-content_example :
    Describes crates stub_open_world (state no_keys) authorized plain_request open_response
ingest_source-content_example =
    ingest_source-content crates stub_open_world (state no_keys) authorized plain_request
      open_response answered_open

-- The same text in the live mode, with no key of a model.
abbrev closed_response : IngestResponse
closed_response = record open_response {
  tools_allowed = false;
  risk_level = high;
  action = needs_review;
  reasons =
      text "L1 failed; L2 failed: ANTHROPIC_API_KEY not set"
      ∷ text "source reputation: key=source_id:a effective_risk=0 raw_risk=0 suspected_attacks=0"
      ∷ [];
}

answered_closed :
    (ingest_source crates live_world (state no_keys) authorized plain_request).0
    ≡ success closed_response
unfolding ingest_source text acip_sidecar.Policy.require acip_sidecar.Policy.default_from_env
    acip_sidecar.Policy.get acip_sidecar.Assoc.lookup acip_sidecar.Assoc.insert
    acip_sidecar.Headers.policy_name_from_headers acip_sidecar.Headers.get_str
    acip_sidecar.Headers.allow_tools_from_headers acip_sidecar.Text.text_eq
    acip_sidecar.Text.contains acip_sidecar.Text.ascii_lower acip_sidecar.Text.trim
    acip_sidecar.Text.as_bytes acip_sidecar.Text.encode acip_sidecar.Text.starts_with
    eq_ignore_ascii_case acip_sidecar.Decimal.to_decimal acip_sidecar.Ingest.Prepare.decode_input
    acip_sidecar.Ingest.Prepare.extract_kind acip_sidecar.Ingest.Prepare.prepare_inline
    acip_sidecar.Ingest.Detect.is_html_like acip_sidecar.Ingest.Detect.is_svg_like
    acip_sidecar.Ingest.Window.apply_head_tail acip_sidecar.Ingest.Window.maybe_window_markup_input
    acip_sidecar.Ingest.Window.fence_external acip_sidecar.Ingest.Gate.enforce_markup_tools_cap
    acip_sidecar.Ingest.Gate.enforce_tools_authorization
    acip_sidecar.Reputation.Escalation.apply_reputation
    acip_sidecar.Reputation.Escalation.effective_risk_score
    acip_sidecar.Reputation.Escalation.from_env acip_sidecar.Reputation.record_inner
    acip_sidecar.Reputation.observation acip_sidecar.Text.parse_uint acip_sidecar.Threat.assess
    acip_sidecar.Threat.normalize acip_sidecar.Prelude.Sort.sort acip_sidecar.Prelude.Sort.dedup
    acip_sidecar.Sentry.Client.client acip_sidecar.Sentry.Engine.decide
    acip_sidecar.Sentry.fail_closed
answered_closed = refl

no_keys-NoKeys : NoKeys no_keys
no_keys-NoKeys = record { gemini_key = refl; anthropic_key = refl }

live_mode : (name : Text) → Bool
live_mode name =
    eq_ignore_ascii_case (mode crates live_world (state no_keys) authorized plain_request) name

not_stub : live_mode (text "stub") ≡ false
unfolding live_mode text eq_ignore_ascii_case acip_sidecar.Text.trim
not_stub = refl

not_stub_open : live_mode (text "stub-open") ≡ false
unfolding live_mode text eq_ignore_ascii_case acip_sidecar.Text.trim
not_stub_open = refl

ingest_source-closed_example :
    (closed_response.tools_allowed ≡ false)
    × (closed_response.risk_level ≡ high)
    × (closed_response.action ≡ needs_review)
unfolding live_mode
ingest_source-closed_example =
    ingest_source-closed crates live_world (state no_keys) authorized plain_request closed_response
      no_keys-NoKeys not_stub not_stub_open answered_closed

no_policy_header : authorized (text "x-acip-policy") ≡ []
unfolding text acip_sidecar.Text.text_eq
no_policy_header = refl
