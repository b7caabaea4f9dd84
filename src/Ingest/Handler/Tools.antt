-- ===== src/Ingest/Handler/Tools.antt =====
-- When a response of `ingest_source` allows tools.
use acip_sidecar.Prelude.{◌≡◌, ◌∙◌, sym, ap, true, false, ◌||◌, none, arith, ok}
use acip_sidecar.Text.{text, eq_ignore_ascii_case}
use acip_sidecar.Headers.{HeaderMap}
use acip_sidecar.Ingest.{IngestRequest, IngestResponse, success, Crates, World, AppState}
use acip_sidecar.Ingest.Detect.{is_html_like, is_svg_like}
use acip_sidecar.Ingest.Prepare.{
  Input, Prepared, decode_input, extract_kind, prepare_extracted, prepare_inline,
}
use acip_sidecar.Ingest.Decide.{allow_tools, mode, build_response}
use acip_sidecar.Ingest.Decide.Laws.{BelowCutoff, decision-tools}
use acip_sidecar.Ingest.Handler.{recorded, case_of, ingest_source}
use acip_sidecar.Ingest.Handler.Cases.{Origin, inline, extracted, ingest_source-Success}

module _ (c : Crates) (w : World) (s : AppState c) (headers : HeaderMap) (req : IngestRequest) where
  -- What a response that allows tools says of the request.
  pub record ToolsGranted : Type 0 where
    pub input : Input
    pub decoded : decode_input c req.body req.bytes_b64 ≡ ok input
    pub authorized : allow_tools c w s headers req ≡ true
    pub not_extracted : extract_kind c req ≡ none
    pub not_html : is_html_like c req.source_type req.content_type input.raw ≡ false
    pub not_svg : is_svg_like c req.content_type input.raw ≡ false
    pub not_stub : eq_ignore_ascii_case (mode c w s headers req) (text "stub") ≡ false
    pub trusted :
        BelowCutoff c w s headers req
          (recorded c w s headers req (prepare_inline c req input.raw s.normalize)).1

  origin-ToolsGranted :
      (input : Input) (p : Prepared)
      → decode_input c req.body req.bytes_b64 ≡ ok input
      → Origin c w s headers req input p
      → p.is_markup ≡ false
      → allow_tools c w s headers req ≡ true
      → BelowCutoff c w s headers req (recorded c w s headers req p).1
      → eq_ignore_ascii_case (mode c w s headers req) (text "stub") ≡ false
      → ToolsGranted
  unfolding prepare_inline prepare_extracted
  origin-ToolsGranted input p decoded (inline is_kind same) plain_text authorized below not_stub =
      let no_markup : (is_html_like c req.source_type req.content_type input.raw
            || is_svg_like c req.content_type input.raw)
          ≡ false =
        sym (ap (λ (q : Prepared). q.is_markup) same) ∙ plain_text in
      record {
        input = input;
        decoded = decoded;
        authorized = authorized;
        not_extracted = is_kind;
        not_html = ground arith;
        not_svg = ground arith;
        not_stub = not_stub;
        trusted = rw same at below;
      }
  origin-ToolsGranted input p decoded (extracted kind resp is_kind ran same) plain_text authorized
        below not_stub =
      absurd (cc (ap (λ (q : Prepared). q.is_markup) same))

-- A response allows tools only for a request whose caller authorized them, whose content is neither
-- PDF nor markup by its type or its looks, in a mode that is not stub, and all of whose source's
-- records, this request counted, are below the cutoff for bad actors.
pub ingest_source-tools :
    (c : Crates) (w : World) (s : AppState c) (headers : HeaderMap) (req : IngestRequest)
    (r : IngestResponse)
    → (ingest_source c w s headers req).0 ≡ success r
    → r.tools_allowed ≡ true
    → ToolsGranted c w s headers req
unfolding case_of build_response
ingest_source-tools c w s headers req r e on =
    let a = ingest_source-Success c w s headers req r e in
    let d_on : a.answer.decision.tools_allowed ≡ true =
      sym (ap (λ (x : IngestResponse). x.tools_allowed) a.is_response) ∙ on in
    let (plain_text, authorized, below, not_stub) =
      decision-tools c w s headers req _ a.answer.decision a.answer.decided d_on in
    origin-ToolsGranted c w s headers req a.answer.input a.answer.prepared a.answer.decoded
      a.answer.origin plain_text authorized below not_stub
