-- ===== src/Ingest/Handler/Content.antt =====
-- What a response says of the content, and where its fenced content comes from.
use acip_sidecar.Prelude.{◌≡◌, ap, ◌⊎◌, inl, inr, Bool, true, false, ok, length}
use acip_sidecar.Text.{Text, text, eq_ignore_ascii_case}
use acip_sidecar.Json.{Fallible}
use acip_sidecar.Headers.{HeaderMap}
use acip_sidecar.Policy.{PolicyConfig, ModelRef, require}
use acip_sidecar.Sentry.{Decision, fail_closed}
use acip_sidecar.Sentry.Client.{client}
use acip_sidecar.Sentry.Engine.{build_prompt}
use acip_sidecar.Sentry.Engine.Laws.{Judged, decide-Judged}
use acip_sidecar.Ingest.{IngestRequest, IngestResponse, success, Crates, World, AppState}
use acip_sidecar.Ingest.Window.{fence_external, apply_head_tail}
use acip_sidecar.Ingest.Prepare.{Input, decode_input, Prepared}
use acip_sidecar.Ingest.Decide.{
  Case, policy_name, source_meta, mode, stub_decision, stub_open_decision, live_decision, live_raw,
  build_response,
}
use acip_sidecar.Ingest.Decide.Laws.{Decided, by_stub, by_stub_open, live, gate-content}
use acip_sidecar.Ingest.Handler.{case_of, ingest_source}
use acip_sidecar.Ingest.Handler.Cases.{Origin, ingest_source-Success}

module _ (c : Crates) (w : World) (s : AppState c) (headers : HeaderMap) (req : IngestRequest) where
  -- What the client of a model answers to the prompt on a case.
  pub asked : Case → PolicyConfig → ModelRef → Fallible Text
  asked k policy model = client c.http (c.reader).json s.secrets model.provider model.model (
      build_prompt c.reader w.env (policy_name c w s headers req) policy
        (source_meta c w s headers req k) (fence_external k.trunc_text))

  abbrev pub IsMode : Text → Bool → Type 0
  IsMode name b = eq_ignore_ascii_case (mode c w s headers req) name ≡ b

  -- The content of the response to a case, and the truncated text that it may be: the fence around
  -- that in a stub mode; in the live mode the content of what the answer of L1's model reads as, or
  -- else of what L2's reads as, or the fence where neither reads as a decision.
  pub data Content (k : Case) (trunc_text content : Text) : Type 0 where
    stubbed :
        IsMode (text "stub") true ⊎ IsMode (text "stub-open") true
        → content ≡ fence_external trunc_text
        → Content k trunc_text content
    judged :
        IsMode (text "stub") false
        → IsMode (text "stub-open") false
        → (policy : PolicyConfig) → require s.policies (policy_name c w s headers req) ≡ ok policy
        → (d : Decision)
        → Judged c.reader w.env
            (asked k policy policy.l1)
            (asked k policy policy.l2)
            (fence_external trunc_text)
            d
        → content ≡ d.fenced_content
        → Content k trunc_text content

  same_Content :
      (k : Case) (trunc_text : Text) {content content' : Text}
      → content ≡ content'
      → Content k trunc_text content'
      → Content k trunc_text content
  same_Content k trunc_text e h = rw e h

  live_raw-Judged :
      (k : Case) (policy : PolicyConfig)
      → Judged c.reader w.env
          (asked k policy policy.l1)
          (asked k policy policy.l2)
          (fence_external k.trunc_text)
          (live_raw c w s headers req k policy)
  unfolding live_raw asked
  live_raw-Judged k policy = decide-Judged c.reader w.env _ _ policy _ _

  live-content :
      (k : Case) (policy : PolicyConfig)
      → (live_decision c w s headers req k policy).fenced_content
        ≡ (live_raw c w s headers req k policy).fenced_content
  unfolding live_decision
  live-content k policy = gate-content c w s headers req k _

  Decided-Content :
      (k : Case) (d : Decision)
      → Decided c w s headers req k d
      → Content k k.trunc_text d.fenced_content
  unfolding stub_decision stub_open_decision fail_closed
  Decided-Content k d (by_stub stub same) =
      stubbed (inl stub) (rw same (gate-content c w s headers req k _))
  Decided-Content k d (by_stub_open not_stub open_stub same) =
      stubbed (inr open_stub) (rw same (gate-content c w s headers req k _))
  Decided-Content k d (live policy not_stub not_open known same) =
      judged not_stub not_open policy known (live_raw c w s headers req k policy)
        (live_raw-Judged k policy) (rw same (live-content k policy))

  -- What a response says of its input and of the text that was prepared from it.
  pub record Describes (r : IngestResponse) : Type 0 where
    pub input : Input
    pub prepared : Prepared
    pub decoded : decode_input c req.body req.bytes_b64 ≡ ok input
    pub origin : Origin c w s headers req input prepared
    pub sha256 : r.digest.sha256 ≡ (c.sha256_hex) input.bytes
    pub original : r.original_length_chars ≡ length input.raw
    pub model : r.model_length_chars ≡ length prepared.model_text
    pub steps : r.normalization_steps ≡ prepared.normalization_steps
    pub cut : r.truncated ≡ (apply_head_tail s.policy prepared.model_text).1
    pub content :
        Content
          (case_of c w s headers req input prepared)
          (apply_head_tail s.policy prepared.model_text).0
          r.fenced_content

-- A response describes what was decoded and prepared: the digest of the bytes, the lengths of the
-- raw and of the prepared text, the steps, and whether the text was cut. In a stub mode its
-- fenced content is the fence around the cut text. In the live mode it is, unchanged, the content of
-- the decision that L1's answer to the prompt on this text reads as, or else L2's, and the fence only
-- where neither answer reads as a decision.
pub ingest_source-content :
    (c : Crates) (w : World) (s : AppState c) (headers : HeaderMap) (req : IngestRequest)
    (r : IngestResponse)
    → (ingest_source c w s headers req).0 ≡ success r
    → Describes c w s headers req r
unfolding case_of build_response
ingest_source-content c w s headers req r e =
    let a = ingest_source-Success c w s headers req r e in
    let same = a.is_response in
    let d = a.answer.decision in
    record {
      input = a.answer.input;
      prepared = a.answer.prepared;
      decoded = a.answer.decoded;
      origin = a.answer.origin;
      sha256 = ap (λ (x : IngestResponse). x.digest.sha256) same;
      original = ap (λ (x : IngestResponse). x.original_length_chars) same;
      model = ap (λ (x : IngestResponse). x.model_length_chars) same;
      steps = ap (λ (x : IngestResponse). x.normalization_steps) same;
      cut = ap (λ (x : IngestResponse). x.truncated) same;
      content =
          same_Content c w s headers req _ _ (ap (λ (x : IngestResponse). x.fenced_content) same)
            (Decided-Content c w s headers req _ d a.answer.decided);
    }
