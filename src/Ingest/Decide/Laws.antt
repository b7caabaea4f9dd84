-- ===== src/Ingest/Decide/Laws.antt =====
-- The decisions of the handler, mode by mode, and the adjustments on the way.
use acip_sidecar.Prelude.{
  ◌<◌, ◌≡◌, refl, ◌∙◌, inl, inr, true, false, List, [], ◌∷◌, All, ok, Bool-cases,
}
use acip_sidecar.Text.{text, eq_ignore_ascii_case}
use acip_sidecar.Headers.{HeaderMap}
use acip_sidecar.Json.{Fallible}
use acip_sidecar.Policy.{PolicyConfig, require}
use acip_sidecar.Sentry.{Decision, fail_closed}
use acip_sidecar.Reputation.{ReputationRecord}
use acip_sidecar.Reputation.Escalation.{effective_risk_score, from_env, apply_reputation}
use acip_sidecar.Reputation.Escalation.Verdict.{apply_reputation-IsStricter, apply_reputation-tools}
use acip_sidecar.Ingest.{IngestRequest, Reply, success, Crates, World, AppState}
use acip_sidecar.Ingest.Gate.{enforce_markup_tools_cap, enforce_tools_authorization}
use acip_sidecar.Ingest.Gate.Laws.{
  enforce_markup_tools_cap-tools, enforce_tools_authorization-tools,
  enforce_markup_tools_cap-content, enforce_tools_authorization-content,
}
use acip_sidecar.Ingest.Decide.{
  Case, allow_tools, policy_name, mode, gate, stub_decision, stub_open_decision, live_decision,
  build_response, live_reply, respond,
}

module _ (c : Crates) (w : World) (s : AppState c) (headers : HeaderMap) (req : IngestRequest) where
  abbrev G : Case → Decision → Decision
  G = gate c w s headers req

  -- All records of the source are below the cutoff for bad actors.
  abbrev pub BelowCutoff : List ReputationRecord → Type 0
  BelowCutoff recs =
      let t = from_env c.floats w.env in
      All (λ r. effective_risk_score c.floats w.decided_at r t < t.bad_actor_score) recs

  reputation_kept :
      (recs : List ReputationRecord) (d : Decision)
      → (apply_reputation c.floats w.decided_at d
          (allow_tools c w s headers req)
          recs
          (from_env c.floats w.env)).tools_allowed
        ≡ true
      → (d.tools_allowed ≡ true) × BelowCutoff recs
  reputation_kept [] d h = (
    (apply_reputation-IsStricter c.floats w.decided_at d (allow_tools c w s headers req) []
          (from_env c.floats w.env)).tools
        h,
    tt,
  )
  reputation_kept (r ∷ rs) d h =
      let (on, _, below) =
        apply_reputation-tools c.floats w.decided_at d (allow_tools c w s headers req) r rs
          (from_env c.floats w.env) h in
      (on, below)

  pub gate-tools :
      (k : Case) (d : Decision)
      → (G k d).tools_allowed ≡ true
      → (d.tools_allowed ≡ true)
        × (k.prepared.is_markup ≡ false)
        × (allow_tools c w s headers req ≡ true)
        × BelowCutoff k.recs
  unfolding gate
  gate-tools k d h =
      let (e, below) = reputation_kept k.recs _ h in
      let (e2, authorized) = enforce_tools_authorization-tools _ _ e in
      let (e3, plain_text) = enforce_markup_tools_cap-tools _ _ e2 in
      (e3, plain_text, authorized, below)

  pub gate-content : (k : Case) (d : Decision) → (G k d).fenced_content ≡ d.fenced_content
  unfolding gate
  gate-content k d =
      (apply_reputation-IsStricter c.floats w.decided_at
        (enforce_tools_authorization (enforce_markup_tools_cap d k.prepared.is_markup)
          (allow_tools c w s headers req))
        (allow_tools c w s headers req) k.recs (from_env c.floats w.env)).content
      ∙ enforce_tools_authorization-content _ _
      ∙ enforce_markup_tools_cap-content _ _

  -- The decision behind a response, by mode.
  pub data Decided (k : Case) (d : Decision) : Type 0 where
    by_stub :
        eq_ignore_ascii_case (mode c w s headers req) (text "stub") ≡ true
        → d ≡ stub_decision c w s headers req k
        → Decided k d
    by_stub_open :
        eq_ignore_ascii_case (mode c w s headers req) (text "stub") ≡ false
        → eq_ignore_ascii_case (mode c w s headers req) (text "stub-open") ≡ true
        → d ≡ stub_open_decision c w s headers req k
        → Decided k d
    live :
        (policy : PolicyConfig)
        → eq_ignore_ascii_case (mode c w s headers req) (text "stub") ≡ false
        → eq_ignore_ascii_case (mode c w s headers req) (text "stub-open") ≡ false
        → require s.policies (policy_name c w s headers req) ≡ ok policy
        → d ≡ live_decision c w s headers req k policy
        → Decided k d

  pub record Response (k : Case) (reply : Reply) : Type 0 where
    pub decision : Decision
    pub decided : Decided k decision
    pub built : reply ≡ success (build_response c w s headers req k decision)

  live_reply-Response :
      (k : Case) (found : Fallible PolicyConfig) (policy : PolicyConfig)
      → found ≡ ok policy
      → live_reply c w s headers req k found
        ≡ success (build_response c w s headers req k (live_decision c w s headers req k policy))
  unfolding live_reply
  live_reply-Response k found policy e = rw e

  -- With a policy that is there, the reply is a response.
  pub respond-Response :
      (k : Case) (policy : PolicyConfig)
      → require s.policies (policy_name c w s headers req) ≡ ok policy
      → Response k (respond c w s headers req k)
  unfolding respond
  respond-Response k policy found =
      elim (Bool-cases (eq_ignore_ascii_case (mode c w s headers req) (text "stub"))) [
        | inl stub ↦ record {
          decision = stub_decision c w s headers req k;
          decided = by_stub stub refl;
          built = rw stub;
        }
        | inr not_stub ↦
            elim (Bool-cases (eq_ignore_ascii_case (mode c w s headers req) (text "stub-open"))) [
              | inl open_stub ↦ record {
                decision = stub_open_decision c w s headers req k;
                decided = by_stub_open not_stub open_stub refl;
                built = rw (not_stub, open_stub);
              }
              | inr is_live ↦ record {
                decision = live_decision c w s headers req k policy;
                decided = live policy not_stub is_live found refl;
                built = rw (not_stub, is_live) (live_reply-Response k _ policy found);
              }
            ]
      ]

  pub decision-tools :
      (k : Case) (d : Decision)
      → Decided k d
      → d.tools_allowed ≡ true
      → (k.prepared.is_markup ≡ false)
        × (allow_tools c w s headers req ≡ true)
        × BelowCutoff k.recs
        × (eq_ignore_ascii_case (mode c w s headers req) (text "stub") ≡ false)
  unfolding stub_decision stub_open_decision live_decision fail_closed
  decision-tools k d (by_stub stub same) on = absurd (cc ((gate-tools k _ (rw same at on)).0))
  decision-tools k d (by_stub_open not_stub open_stub same) on =
      let (_, plain_text, authorized, below) = gate-tools k _ (rw same at on) in
      (plain_text, authorized, below, not_stub)
  decision-tools k d (live policy not_stub is_live known same) on =
      let (_, plain_text, authorized, below) = gate-tools k _ (rw same at on) in
      (plain_text, authorized, below, not_stub)
