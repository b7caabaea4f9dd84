-- ===== src/Ingest/Handler/Cases.antt =====
-- The ways through `ingest_source` of ingest.rs.
use acip_sidecar.Prelude.{
  ℕ, ◌≡◌, refl, ap, inl, inr, Option, none, some, List, arith, Result, ok, err, Bool-cases, ltb,
}
use acip_sidecar.Text.{Text, text, byte_len}
use acip_sidecar.Headers.{HeaderMap}
use acip_sidecar.Json.{Fallible}
use acip_sidecar.Policy.{PolicyConfig, require}
use acip_sidecar.Sentry.{Decision}
use acip_sidecar.Reputation.{RepMap}
use acip_sidecar.Extract.{ExtractKind, ExtractResponse, ExtractorError, timeout, run_helper}
use acip_sidecar.Ingest.{
  IngestRequest, IngestResponse, Reply, plain, success, Crates, World, AppState, Joined, completed,
  join_failed, elapsed,
}
use acip_sidecar.Ingest.Prepare.{
  decode_b64_input, max_bytes_b64_chars, Input, decode_input, Prepared, extract_kind,
  extract_request, prepare_extracted, prepare_inline,
}
use acip_sidecar.Ingest.Decide.{policy_name, build_response, refusal}
use acip_sidecar.Ingest.Decide.Laws.{Decided, respond-Response}
use acip_sidecar.Ingest.Handler.{
  recorded, case_of, finish, extractor_timeout_secs, after_join, process, with_input, with_policy,
  ingest_source, extract_error,
}

abbrev IsPlain : Reply → Type 0
IsPlain reply = (status : ℕ) × (message : Text) × (reply ≡ plain status message)

decode_b64_input-failed :
    (r : Result Text (List ℕ)) (reply : Reply) → decode_b64_input r ≡ err reply → IsPlain reply
unfolding decode_b64_input
decode_b64_input-failed (ok bytes) reply h = cc
decode_b64_input-failed (err e) reply h = (400, text "invalid base64", cc)

decode_input-failed :
    (c : Crates) (body b64 : Option Text) (reply : Reply)
    → decode_input c body b64 ≡ err reply
    → IsPlain reply
unfolding decode_input
decode_input-failed c (some t) b64 reply h = cc
decode_input-failed c none (some b64) reply h =
    elim (Bool-cases (ltb max_bytes_b64_chars (byte_len b64))) [
      | inl large ↦ (413, text "bytes_b64 too large", ground arith)
      | inr small ↦ decode_b64_input-failed (c.decode_b64 b64) reply (rw small at h)
    ]
decode_input-failed c none none reply h = (400, text "must provide text or bytes_b64", cc)

module _ (c : Crates) (w : World) (s : AppState c) (headers : HeaderMap) (req : IngestRequest) where
  -- Where a prepared text comes from.
  pub data Origin (input : Input) (p : Prepared) : Type 0 where
    inline :
        extract_kind c req ≡ none → p ≡ prepare_inline c req input.raw s.normalize → Origin input p
    extracted :
        (kind : ExtractKind) (resp : ExtractResponse)
        → extract_kind c req ≡ some kind
        → run_helper
            ((w.helper_run)
              (extract_request c req kind)
              input.bytes
              (extractor_timeout_secs c w s headers req))
            (extract_request c req kind)
          ≡ ok resp
        → p ≡ prepare_extracted c resp
        → Origin input p

  -- A 200 response, with all that went into it.
  pub record Answered (reply : Reply) (map : RepMap) : Type 0 where
    pub input : Input
    pub prepared : Prepared
    pub decision : Decision
    pub decoded : decode_input c req.body req.bytes_b64 ≡ ok input
    pub origin : Origin input prepared
    pub decided : Decided c w s headers req (case_of c w s headers req input prepared) decision
    pub built :
        reply
        ≡ success
            (build_response c w s headers req (case_of c w s headers req input prepared) decision)
    pub stored : map ≡ (recorded c w s headers req prepared).0

  -- How a request ends.
  pub data Outcome (out : Reply × RepMap) : Type 0 where
    refused :
        (e : Text)
        → require s.policies (policy_name c w s headers req) ≡ err e
        → out ≡ (refusal c w s headers req, s.reputation)
        → Outcome out
    failed :
        (policy : PolicyConfig)
        → require s.policies (policy_name c w s headers req) ≡ ok policy
        → (status : ℕ) (message : Text) → out ≡ (plain status message, s.reputation)
        → Outcome out
    answered :
        (policy : PolicyConfig)
        → require s.policies (policy_name c w s headers req) ≡ ok policy
        → Answered out.0 out.1
        → Outcome out

  module _ (policy : PolicyConfig)
      (known : require s.policies (policy_name c w s headers req) ≡ ok policy) where
    finish-Outcome :
        (input : Input) (p : Prepared)
        → decode_input c req.body req.bytes_b64 ≡ ok input
        → Origin input p
        → Outcome (finish c w s headers req input p)
    unfolding finish
    finish-Outcome input p decoded origin =
        let r =
          respond-Response c w s headers req (case_of c w s headers req input p) policy known in
        answered policy known (record {
          input = input;
          prepared = p;
          decision = r.decision;
          decoded = decoded;
          origin = origin;
          decided = r.decided;
          built = r.built;
          stored = refl;
        })

    extract_error-failed :
        (kind : ExtractKind) (e : ExtractorError)
        → (status : ℕ) × (message : Text) × (extract_error c w s headers req kind e
            ≡ plain status message)
    unfolding extract_error
    extract_error-failed kind timeout = (_, _, refl)
    extract_error-failed kind _ = (_, _, refl)

    after_join-Outcome :
        (input : Input) (kind : ExtractKind) (j : Joined)
        (r : Result ExtractorError ExtractResponse)
        → decode_input c req.body req.bytes_b64 ≡ ok input
        → extract_kind c req ≡ some kind
        → run_helper
            ((w.helper_run)
              (extract_request c req kind)
              input.bytes
              (extractor_timeout_secs c w s headers req))
            (extract_request c req kind)
          ≡ r
        → Outcome (after_join c w s headers req input kind j r)
    unfolding after_join
    after_join-Outcome input kind completed (ok resp) decoded is_kind ran =
        finish-Outcome input _ decoded (extracted kind resp is_kind ran refl)
    after_join-Outcome input kind completed (err e) decoded is_kind ran =
        let (status, message, same) = extract_error-failed kind e in
        failed policy known status message (rw same)
    after_join-Outcome input kind (join_failed e) r decoded is_kind ran =
        failed policy known _ _ refl
    after_join-Outcome input kind elapsed r decoded is_kind ran = failed policy known _ _ refl

    process-Outcome :
        (input : Input) (o : Option ExtractKind)
        → decode_input c req.body req.bytes_b64 ≡ ok input
        → extract_kind c req ≡ o
        → Outcome (process c w s headers req input o)
    unfolding process
    process-Outcome input none decoded is_kind =
        finish-Outcome input _ decoded (inline is_kind refl)
    process-Outcome input (some kind) decoded is_kind =
        after_join-Outcome input kind _ _ decoded is_kind refl

    with_input-Outcome :
        (r : Result Reply Input)
        → decode_input c req.body req.bytes_b64 ≡ r
        → Outcome (with_input c w s headers req r)
    unfolding with_input
    with_input-Outcome (ok input) e = process-Outcome input _ e refl
    with_input-Outcome (err reply) e =
        let (status, message, same) = decode_input-failed c req.body req.bytes_b64 reply e in
        failed policy known status message (ap (λ x. (x, s.reputation)) same)

  with_policy-Outcome :
      (r : Fallible PolicyConfig)
      → require s.policies (policy_name c w s headers req) ≡ r
      → Outcome (with_policy c w s headers req r)
  unfolding with_policy
  with_policy-Outcome (ok policy) e = with_input-Outcome policy e _ refl
  with_policy-Outcome (err reason) e = refused reason e refl

  pub ingest_source-Outcome : Outcome (ingest_source c w s headers req)
  unfolding ingest_source
  ingest_source-Outcome = with_policy-Outcome _ refl

  -- A 200 response is answered, and is the response that was built.
  pub record Success (r : IngestResponse) (map : RepMap) : Type 0 where
    pub answer : Answered (success r) map
    pub open answer use *
    pub is_response :
        r
        ≡ build_response c w s headers req
            (case_of c w s headers req answer.input answer.prepared)
            answer.decision

  Outcome-Success :
      (out : Reply × RepMap) (r : IngestResponse)
      → Outcome out
      → out.0 ≡ success r
      → Success r out.1
  Outcome-Success out r (refused e unknown same) is_success = absurd (cc)
  Outcome-Success out r (failed policy known status message same) is_success = absurd (cc)
  Outcome-Success out r (answered policy known a) is_success =
      let a' : Answered (success r) out.1 = rw is_success at a in
      record { answer = a'; is_response = cc (a'.built) }

  pub ingest_source-Success :
      (r : IngestResponse)
      → (ingest_source c w s headers req).0 ≡ success r
      → Success r (ingest_source c w s headers req).1
  ingest_source-Success r e = Outcome-Success _ r ingest_source-Outcome e
