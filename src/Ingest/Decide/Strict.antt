-- ===== src/Ingest/Decide/Strict.antt =====
-- The adjustments of a decision together.
use acip_sidecar.Headers.{HeaderMap}
use acip_sidecar.Sentry.{Decision}
use acip_sidecar.Reputation.Escalation.{from_env}
use acip_sidecar.Reputation.Escalation.Laws.{IsStricter}
use acip_sidecar.Reputation.Escalation.Verdict.{apply_reputation-IsStricter}
use acip_sidecar.Reputation.Escalation.Order.{IsStricter-trans}
use acip_sidecar.Ingest.{IngestRequest, Crates, World, AppState}
use acip_sidecar.Ingest.Gate.{enforce_markup_tools_cap, enforce_tools_authorization}
use acip_sidecar.Ingest.Gate.Strict.{
  enforce_markup_tools_cap-IsStricter, enforce_tools_authorization-IsStricter,
}
use acip_sidecar.Ingest.Decide.{Case, allow_tools, gate}

-- The adjustments that every decision passes through, in whatever mode it was made, only make it
-- stricter: no tools are granted, the risk is not lowered, the action stays or becomes
-- needs_review where it was not block, and the content is the same.
pub gate-IsStricter :
    (c : Crates) (w : World) (s : AppState c) (headers : HeaderMap) (req : IngestRequest) (k : Case)
    (d : Decision)
    → IsStricter d (gate c w s headers req k d)
unfolding gate
gate-IsStricter c w s headers req k d =
    let allowed = allow_tools c w s headers req in
    let d1 = enforce_markup_tools_cap d k.prepared.is_markup in
    let d2 = enforce_tools_authorization d1 allowed in
    IsStricter-trans d d2 _
      (IsStricter-trans d d1 d2 (enforce_markup_tools_cap-IsStricter d k.prepared.is_markup)
        (enforce_tools_authorization-IsStricter d1 allowed))
      (apply_reputation-IsStricter c.floats w.decided_at d2 allowed k.recs
        (from_env c.floats w.env))
