-- ===== src/Ingest/Decide/Tests.antt =====
-- The adjustments of a concrete decision on markup, from a caller who authorized tools.
use acip_sidecar.Prelude.{◌≡◌, refl, true, false, none, [], ◌∷◌}
use acip_sidecar.Text.{Text, text}
use acip_sidecar.Threat.{none_found}
use acip_sidecar.Reputation.Escalation.Laws.{IsStricter}
use acip_sidecar.Ingest.Samples.{
  crates, stub_open_world, state, no_keys, authorized, request, permissive,
}
use acip_sidecar.Ingest.Decide.{Case, gate}
use acip_sidecar.Ingest.Decide.Strict.{gate-IsStricter}

abbrev markup_case : Case
markup_case = record {
  sha = text "0";
  input = record { raw = text "<p>"; bytes = [] };
  prepared = record {
    model_text = [];
    normalized = true;
    normalization_steps = [];
    threat_full = none_found;
    is_markup = true;
  };
  threat = none_found;
  threat_audit = none;
  recs =
      record {
        key = text "source_id:a";
        seen_count = 3;
        suspected_attack_count = 2;
        last_seen_unix = 1000;
        last_attack_types = [];
        risk_score = 60;
      }
      ∷ [];
  trunc_text = [];
  truncated = false;
}

gate_run :
    (gate crates stub_open_world
      (state no_keys)
      authorized
      (request (text "<p>"))
      markup_case
      permissive).tools_allowed
    ≡ false
unfolding gate text acip_sidecar.Ingest.Gate.enforce_markup_tools_cap
    acip_sidecar.Ingest.Gate.enforce_tools_authorization
    acip_sidecar.Reputation.Escalation.apply_reputation acip_sidecar.Reputation.Escalation.from_env
    acip_sidecar.Reputation.Escalation.effective_risk_score
    acip_sidecar.Headers.allow_tools_from_headers acip_sidecar.Text.text_eq
gate_run = refl

gate-IsStricter_example : IsStricter permissive (
    gate crates stub_open_world
      (state no_keys)
      authorized
      (request (text "<p>"))
      markup_case
      permissive)
gate-IsStricter_example =
    gate-IsStricter crates stub_open_world (state no_keys) authorized (request (text "<p>"))
      markup_case permissive
