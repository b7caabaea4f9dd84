-- ===== src/Ingest/Prepare.antt =====
-- How ingest.rs builds the text that the model sees, with its threat assessment: from the
-- extractor's answer for PDF and SVG, and in the process for everything else.
pub mod Laws
pub mod Tests
use acip_sidecar.Prelude.{
  ℕ, ◌+◌, Bool, true, false, ◌||◌, Option, none, some, List, [], ◌∷◌, ◌++◌, map, Result, ok, err,
  ltb, leb, if◌then◌else◌, unwrap_or, push, saturating_add_u8,
}
use acip_sidecar.Text.{Text, text, starts_with, contains, replace, as_bytes, byte_len, from_utf8}
use acip_sidecar.Decimal.{to_decimal}
use acip_sidecar.Threat.{ThreatAssessment, assess}
use acip_sidecar.Scan.Html
use acip_sidecar.Scan.Html.{HtmlScanResult}
use acip_sidecar.Scan.Xml
use acip_sidecar.Scan.Xml.{XmlScanResult}
use acip_sidecar.Normalize.{html_to_text_html5ever_with_limit}
use acip_sidecar.Settings.{NormalizeSettings}
use acip_sidecar.Extract.{ExtractKind, pdf, svg, ExtractRequest, ExtractResponse}
use acip_sidecar.Ingest.{IngestRequest, Reply, plain, Crates}
use acip_sidecar.Ingest.Detect.{is_pdf_type, is_html_like, is_svg_like, svg_to_text}
use acip_sidecar.Ingest.Window.{maybe_window_markup_input, tighten}

abbrev pub max_bytes_b64_chars : ℕ
max_bytes_b64_chars = 1500000

-- The input: its text, empty where the bytes are not UTF-8, and its bytes.
pub record Input : Type 0 where
  pub raw : Text
  pub bytes : List ℕ

unfoldable pub decode_b64_input : Result Text (List ℕ) → Result Reply Input
decode_b64_input (err e) = err (plain 400 (text "invalid base64"))
decode_b64_input (ok bytes) = ok (record { raw = unwrap_or (from_utf8 bytes) []; bytes = bytes })

unfoldable pub decode_input : Crates → Option Text → Option Text → Result Reply Input
unfolding decode_b64_input
decode_input c (some t) bytes_b64 = ok (record { raw = t; bytes = as_bytes t })
decode_input c none (some b64) =
    if ltb max_bytes_b64_chars (byte_len b64)
    then err (plain 413 (text "bytes_b64 too large"))
    else decode_b64_input (c.decode_b64 b64)
decode_input c none none = err (plain 400 (text "must provide text or bytes_b64"))

-- The text for the model, how it came about, and what was found in it.
pub record Prepared : Type 0 where
  pub model_text : Text
  pub normalized : Bool
  pub normalization_steps : List Text
  pub threat_full : ThreatAssessment
  pub is_markup : Bool

-- An indicator for each step of the extractor.
note_steps : List Text → ThreatAssessment → ThreatAssessment
note_steps [] t = t
note_steps (step ∷ rest) t = note_steps rest (
    if starts_with step (text "extract:")
    then record t {
      indicators = push t.indicators (replace step (text "extract:") (text "extract_"));
    }
    else t)

-- `for m in matches { threat_full.indicators.push(format!("…:{}", m)) }`.
note_matches : Text → List Text → ThreatAssessment → ThreatAssessment
note_matches label [] t = t
note_matches label (m ∷ rest) t =
    note_matches label rest (record t { indicators = push t.indicators (label ++ m) })

note_scan : Text → ℕ → List Text → ThreatAssessment → ThreatAssessment
unfolding note_matches
note_scan label severity matches t =
    if ltb 0 severity
    then note_matches label matches
        (record t { threat_score = saturating_add_u8 t.threat_score severity })
    else t

module _ (c : Crates) where
  unfoldable pub extract_kind : IngestRequest → Option ExtractKind
  extract_kind req =
      let ct_lower = (c.unicode).to_lowercase req.content_type in
      if contains ct_lower (text "application/pdf") || is_pdf_type req.source_type
      then some pdf
      else if contains ct_lower (text "image/svg")
      then some svg
      else none

  unfoldable pub extract_request : IngestRequest → ExtractKind → ExtractRequest
  extract_request req kind = record {
    kind = kind;
    content_type = some req.content_type;
    max_pages = some 100;
    dpi = some 250;
    max_output_chars = some 2000000;
  }

  unfoldable pub prepare_extracted : ExtractResponse → Prepared
  unfolding note_steps
  prepare_extracted resp =
      let steps = text "sandbox_extract" ∷ map (λ w. text "extract:" ++ w) resp.warnings in
      record {
        model_text = resp.content;
        normalized = true;
        normalization_steps = steps;
        threat_full = note_steps steps (assess c.unicode resp.content);
        is_markup = true;
      }

  -- The two scans, which run on markup alone.
  abbrev pub html_scan_of : Bool → Text → HtmlScanResult
  html_scan_of is_markup raw = if is_markup then Html.scan c.matcher raw else Html.default

  abbrev pub xml_scan_of : Bool → Text → XmlScanResult
  xml_scan_of is_markup raw = if is_markup then Xml.scan c.matcher raw else Xml.default

  unfoldable pub combined_severity : Bool → Text → ℕ
  combined_severity is_markup raw =
      saturating_add_u8 (html_scan_of is_markup raw).severity (xml_scan_of is_markup raw).severity

  abbrev pub is_adversarial : Bool → Text → NormalizeSettings c.floats → Bool
  is_adversarial is_markup raw settings =
      if is_markup
      then leb settings.adversarial_threshold (combined_severity is_markup raw)
      else false

  unfoldable pub effective_settings :
      Bool → Text → NormalizeSettings c.floats → NormalizeSettings c.floats
  unfolding combined_severity
  effective_settings is_markup raw settings =
      if is_adversarial is_markup raw settings then tighten c.floats settings else settings

  -- The text for the model and the steps that gave it, before the steps put in front.
  normalize_text : Bool → Bool → Text → Text → NormalizeSettings c.floats → Text × Bool × List Text
  normalize_text is_html is_svg raw windowed eff =
      if is_html
      then (
        html_to_text_html5ever_with_limit c.parse_document windowed eff.max_input_chars,
        true,
        text "html_to_text_html5ever" ∷ [],
      )
      else if is_svg
      then (svg_to_text c windowed, true, text "svg_to_text" ∷ text "drop_script_style" ∷ [])
      else (raw, false, [])

  abbrev insert_front : Bool → Text → List Text → List Text
  insert_front b step steps = if b then step ∷ steps else steps

  note_scans : Bool → Text → Bool → ThreatAssessment → ThreatAssessment
  unfolding note_scan combined_severity
  note_scans false raw tightened t = t
  note_scans true raw tightened t =
      let x = xml_scan_of true raw in
      let h = html_scan_of true raw in
      let scanned =
        note_scan (text "html_scan:") h.severity h.matches
          (note_scan (text "xml_scan:") x.severity x.matches t) in
      if tightened
      then record scanned {
        indicators =
            push scanned.indicators
              (text "adversarial_tighten:sev=" ++ to_decimal (combined_severity true raw));
      }
      else scanned

  unfoldable pub prepare_inline : IngestRequest → Text → NormalizeSettings c.floats → Prepared
  unfolding effective_settings normalize_text note_scans
  prepare_inline req raw settings =
      let is_html = is_html_like c req.source_type req.content_type raw in
      let is_svg = is_svg_like c req.content_type raw in
      let is_markup = is_html || is_svg in
      let tightened = is_adversarial is_markup raw settings in
      let eff = effective_settings is_markup raw settings in
      let (windowed, did_window) = maybe_window_markup_input c.floats raw is_markup eff in
      let (model_text, normalized, steps) = normalize_text is_html is_svg raw windowed eff in
      record {
        model_text = model_text;
        normalized = normalized;
        normalization_steps =
            insert_front tightened
              (text "adversarial_tighten:sev=" ++ to_decimal (combined_severity is_markup raw))
              (insert_front did_window (text "window_markup_input") steps);
        threat_full = note_scans is_markup raw tightened (assess c.unicode model_text);
        is_markup = is_markup;
      }
