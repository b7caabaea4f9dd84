-- ===== src/Extractor/Tests.antt =====
-- The extraction of SVG and PDF at concrete documents.
use acip_sidecar.Prelude.{
  ℕ, ◌≤◌, ◌≡◌, ◌≢◌, refl, true, false, none, some, [], ◌∷◌, ok, err, length, take, ◌||◌,
}
use acip_sidecar.Text.{text, as_bytes, from_utf8}
use acip_sidecar.Scan.Xml
use acip_sidecar.Extract.{svg, pdf, ExtractRequest, ExtractResponse}
use acip_sidecar.Ingest.{XmlNode, Crates}
use acip_sidecar.Ingest.Detect.{svg_to_text}
use acip_sidecar.Ingest.Samples.{crates}
use acip_sidecar.Extractor.Svg.{extract_svg_text}
use acip_sidecar.Extractor.Svg.Laws.{
  Reached, cap, extract_svg_text-IsReached, extract_svg_text-svg_to_text,
}
use acip_sidecar.Extractor.Pdf.{output, PdfRun, extract_pdf_hybrid}
use acip_sidecar.Extractor.Pdf.Laws.{IsHybrid, extract_pdf_hybrid-IsHybrid}

abbrev request : ExtractRequest
request = record {
  kind = svg;
  content_type = none;
  max_pages = none;
  dpi = none;
  max_output_chars = some 3;
}

abbrev node : XmlNode
node = record {
  is_text = true;
  content = some (text " abcd ");
  tags = text "text" ∷ text "svg" ∷ [];
}

abbrev one_text : Crates
one_text = record crates { parse_xml = λ s. some (node ∷ []) }

extract_svg_text-IsReached_example : Reached request (
    extract_svg_text one_text.unicode one_text.matcher one_text.parse_xml request
      (as_bytes (text "<!entity")))
extract_svg_text-IsReached_example =
    extract_svg_text-IsReached one_text.unicode one_text.matcher one_text.parse_xml request
      (as_bytes (text "<!entity"))

decoded : from_utf8 (as_bytes (text "<svg/>")) ≡ some (text "<svg/>")
unfolding from_utf8 as_bytes text
decoded = refl

plain :
    ((Xml.scan one_text.matcher (text "<svg/>")).has_doctype
      || (Xml.scan one_text.matcher (text "<svg/>")).has_entity)
    ≡ false
unfolding Xml.scan text acip_sidecar.Text.contains as_bytes acip_sidecar.Text.to_ascii_lowercase
plain = refl

extract_svg_text-svg_to_text_example :
    (resp : ExtractResponse) × (extract_svg_text one_text.unicode one_text.matcher
        one_text.parse_xml request
        (as_bytes (text "<svg/>"))
      ≡ ok resp)
    × (resp.succeeded ≡ true)
    × (resp.content ≡ take (cap request) (svg_to_text one_text (text "<svg/>")))
extract_svg_text-svg_to_text_example =
    extract_svg_text-svg_to_text one_text request (as_bytes (text "<svg/>")) (text "<svg/>")
      (node ∷ []) decoded plain refl

-- A small text layer, and one page.
abbrev scanned : PdfRun
scanned = record {
  tempdir = ok tt;
  write = ok tt;
  pdftotext = ok (record { success = true; stdout = b'a' ∷ 0 ∷ b'b' ∷ [] });
  pdftoppm = λ pages dpi. ok true;
  read_dir = ok (some (text "input.pdf") ∷ some (text "page-1.png") ∷ none ∷ []);
  tesseract = λ img dpi. output (record { success = true; stdout = b'c' ∷ [] });
  from_utf8_lossy = λ s. s;
}

abbrev pdf_request : ExtractRequest
pdf_request = record request { kind = pdf; max_output_chars = none }

abbrev read_back : ExtractResponse
read_back = record {
  succeeded = true;
  kind = pdf;
  content = text "ab\n\n--- OCR ---\n\nc";
  warnings = text "pdf_text_layer_missing_or_small" ∷ [];
  stats = record { pages = none; text_chars = 2; ocr_used = true; ocr_chars = 2 };
}

extracted : extract_pdf_hybrid scanned pdf_request ≡ ok read_back
unfolding extract_pdf_hybrid text acip_sidecar.Text.replace acip_sidecar.Prelude.Sort.sort
    acip_sidecar.Extract.truncate_chars acip_sidecar.Text.trim
extracted = refl

extract_pdf_hybrid-IsHybrid_example : IsHybrid scanned pdf_request read_back
extract_pdf_hybrid-IsHybrid_example =
    extract_pdf_hybrid-IsHybrid scanned pdf_request read_back extracted
