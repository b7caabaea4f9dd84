-- ===== src/Ingest/Handler/Audit.antt =====
-- What a response shows of the threat assessment.
use acip_sidecar.Prelude.{◌≡◌, refl, Bool, true, false, Option, none, some, [], ok}
use acip_sidecar.Headers.{HeaderMap}
use acip_sidecar.Threat.{ThreatAssessment}
use acip_sidecar.Ingest.{IngestRequest, IngestResponse, success, Crates, World, AppState}
use acip_sidecar.Ingest.Prepare.{Input, decode_input, Prepared}
use acip_sidecar.Ingest.Decide.{audit_mode, expose, build_response}
use acip_sidecar.Ingest.Handler.{case_of, ingest_source}
use acip_sidecar.Ingest.Handler.Cases.{Origin, ingest_source-Success}

-- What is shown of an assessment: all of it, twice, or its types and its score alone.
pub data Shown (full threat : ThreatAssessment) (audit : Option ThreatAssessment)
    : Bool → Type 0 where
  to_operator : threat ≡ full → audit ≡ some full → Shown full threat audit true
  to_caller :
      threat.attack_types ≡ full.attack_types
      → threat.threat_score ≡ full.threat_score
      → threat.indicators ≡ []
      → audit ≡ none
      → Shown full threat audit false

expose-Shown :
    (b : Bool) (full : ThreatAssessment) → Shown full (expose b full).0 (expose b full).1 b
unfolding expose
expose-Shown true full = to_operator refl refl
expose-Shown false full = to_caller refl refl refl refl

module _ (c : Crates) (w : World) (s : AppState c) (headers : HeaderMap) (req : IngestRequest) where
  -- The assessment that was made of the request's content, and what the response shows of it.
  pub record ShownOf (r : IngestResponse) : Type 0 where
    pub input : Input
    pub prepared : Prepared
    pub decoded : decode_input c req.body req.bytes_b64 ≡ ok input
    pub origin : Origin c w s headers req input prepared
    pub shown : Shown prepared.threat_full r.threat r.threat_audit (audit_mode c w s headers req)

-- In audit mode both the threat and the audit record of a response are the whole assessment that was
-- made when its content was prepared. Outside audit mode there is no audit record, and the threat has
-- the types and the score of that assessment, and no indicators.
pub ingest_source-audit :
    (c : Crates) (w : World) (s : AppState c) (headers : HeaderMap) (req : IngestRequest)
    (r : IngestResponse)
    → (ingest_source c w s headers req).0 ≡ success r
    → ShownOf c w s headers req r
unfolding case_of build_response
ingest_source-audit c w s headers req r e =
    let a = ingest_source-Success c w s headers req r e in
    record {
      input = a.answer.input;
      prepared = a.answer.prepared;
      decoded = a.answer.decoded;
      origin = a.answer.origin;
      shown =
          rw a.is_response
            (expose-Shown (audit_mode c w s headers req) a.answer.prepared.threat_full);
    }
