-- ===== src/Ingest/Handler/Closed.antt =====
-- The live mode without a model.
use acip_sidecar.Prelude.{◌≤◌, ◌≡◌, ◌∙◌, ap, ◌≢◌, ◌⊎◌, inl, inr, true, false, Result, err, arith}
use acip_sidecar.Text.{Text, text, eq_ignore_ascii_case}
use acip_sidecar.Headers.{HeaderMap}
use acip_sidecar.Environment.{Env}
use acip_sidecar.Sentry.Parse.{DecisionReader}
use acip_sidecar.Policy.{PolicyConfig}
use acip_sidecar.Sentry.{Decision, RiskLevel, high, Action, needs_review, block}
use acip_sidecar.Sentry.Client.Laws.{NoKeys, client-NoKeys}
use acip_sidecar.Sentry.Engine.Laws.{IsClosed, Judged, by_l1, by_l2, closed, decide-Judged}
use acip_sidecar.Reputation.Escalation.Laws.{IsStricter, risk_rank}
use acip_sidecar.Ingest.{IngestRequest, IngestResponse, success, Crates, World, AppState}
use acip_sidecar.Ingest.Window.{fence_external}
use acip_sidecar.Ingest.Decide.{Case, mode, live_raw, live_decision, build_response}
use acip_sidecar.Ingest.Decide.Laws.{Decided, by_stub, by_stub_open, live}
use acip_sidecar.Ingest.Decide.Strict.{gate-IsStricter}
use acip_sidecar.Ingest.Handler.{ingest_source}
use acip_sidecar.Ingest.Handler.Cases.{ingest_source-Success}

only-IsClosed :
    {r : DecisionReader} {env : Env} {a1 a2 : Result Text Text} (fenced : Text) (d : Decision)
    → (e : Text) × (a1 ≡ err e)
    → (e : Text) × (a2 ≡ err e)
    → Judged r env a1 a2 fenced d
    → IsClosed fenced d
only-IsClosed fenced d (e1, f1) f2 (by_l1 (out, called, parsed)) = absurd (cc)
only-IsClosed fenced d f1 (e2, f2) (by_l2 _ (out, called, parsed)) = absurd (cc)
only-IsClosed fenced d f1 f2 (closed _ _ h) = h

stays_high : (r : RiskLevel) → 2 ≤ risk_rank r → r ≡ high
stays_high r h = ground arith

stricter-IsClosed :
    (fenced : Text) (d e : Decision) → IsClosed fenced d → IsStricter d e → IsClosed fenced e
stricter-IsClosed fenced d e h k = record {
  tools = off d e h.tools k.tools;
  risk = stays_high e.risk_level (rw h.risk at k.risk);
  action = stays d.action e.action h.action k.action;
  content = k.content ∙ h.content;
}
  where
    off :
        (d e : Decision)
        → d.tools_allowed ≡ false
        → (e.tools_allowed ≡ true → d.tools_allowed ≡ true)
        → e.tools_allowed ≡ false
    off d e h k = ground arith

    stays :
        (a b : Action)
        → a ≡ needs_review
        → (b ≡ a) ⊎ ((b ≡ needs_review) × (a ≢ block))
        → b ≡ needs_review
    stays a b h (inl same) = same ∙ h
    stays a b h (inr (review, _)) = review

module _ (c : Crates) (w : World) (s : AppState c) (headers : HeaderMap) (req : IngestRequest) where
  live_decision-IsClosed :
      (k : Case) (policy : PolicyConfig)
      → NoKeys s.secrets
      → IsClosed (fence_external k.trunc_text) (live_decision c w s headers req k policy)
  unfolding live_decision live_raw
  live_decision-IsClosed k policy none_set =
      stricter-IsClosed _ (live_raw c w s headers req k policy) _
        (only-IsClosed _ _ (client-NoKeys c.http _ s.secrets policy.l1.provider _ _ none_set)
          (client-NoKeys c.http _ s.secrets policy.l2.provider _ _ none_set)
          (decide-Judged c.reader w.env _ _ policy _ _))
        (gate-IsStricter c w s headers req k (live_raw c w s headers req k policy))

  Decided-IsClosed :
      (k : Case) (d : Decision)
      → NoKeys s.secrets
      → eq_ignore_ascii_case (mode c w s headers req) (text "stub") ≡ false
      → eq_ignore_ascii_case (mode c w s headers req) (text "stub-open") ≡ false
      → Decided c w s headers req k d
      → IsClosed (fence_external k.trunc_text) d
  Decided-IsClosed k d none_set m1 m2 (by_stub stub same) = absurd (cc)
  Decided-IsClosed k d none_set m1 m2 (by_stub_open not_stub open_stub same) = absurd (cc)
  Decided-IsClosed k d none_set m1 m2 (live policy not_stub not_open known same) =
      rw same (live_decision-IsClosed k policy none_set)

-- In the live mode, that is any mode but stub and stub-open, a service that has neither of the
-- models' keys fails closed: every response allows no tools, has high risk and asks for review.
pub ingest_source-closed :
    (c : Crates) (w : World) (s : AppState c) (headers : HeaderMap) (req : IngestRequest)
    (r : IngestResponse)
    → NoKeys s.secrets
    → eq_ignore_ascii_case (mode c w s headers req) (text "stub") ≡ false
    → eq_ignore_ascii_case (mode c w s headers req) (text "stub-open") ≡ false
    → (ingest_source c w s headers req).0 ≡ success r
    → (r.tools_allowed ≡ false) × (r.risk_level ≡ high) × (r.action ≡ needs_review)
unfolding build_response
ingest_source-closed c w s headers req r none_set m1 m2 e =
    let a = ingest_source-Success c w s headers req r e in
    let h =
      Decided-IsClosed c w s headers req _ a.answer.decision none_set m1 m2 a.answer.decided in
    (
      ap (λ (x : IngestResponse). x.tools_allowed) a.is_response ∙ h.tools,
      ap (λ (x : IngestResponse). x.risk_level) a.is_response ∙ h.risk,
      ap (λ (x : IngestResponse). x.action) a.is_response ∙ h.action,
    )
