-- ===== src/Extractor/Pdf/Laws.antt =====
-- What the text of a PDF is made of.
use mathlib.Core.Path.{subst}
use acip_sidecar.Prelude.{
  ℕ, ◌≤◌, ◌≡◌, refl, ◌∙◌, sym, ◌≢◌, Bool, true, false, Option, none, some, [], ◌∷◌, ◌++◌, arith, ok,
  length, take, length-take, ltb, ◌==◌, if◌then◌else◌, unwrap_or, All, bind-ok, ok_injective,
  Bool-cases, inl, inr,
}
use acip_sidecar.Text.{Text, text, trim_end, replace}
use acip_sidecar.Text.Laws.{replace-one}
use acip_sidecar.Json.{context}
use acip_sidecar.Extract.{ExtractRequest, ExtractResponse}
use acip_sidecar.Extract.Laws.{truncate_chars-take}
use acip_sidecar.Extractor.Pdf.Found.{Found, context-ok, ocr-Found}
use acip_sidecar.Extractor.Pdf.{
  Output, PdfRun, Ocr, ocr, nul, text_layer, combine, pdf_response, after_text, extract_pdf_hybrid,
}

abbrev pub NoNul : Text → Type 0
NoNul = All (λ c. c ≢ 0)

replace_nothing : NoNul (replace [] nul [])
unfolding replace
replace_nothing = tt

without_nul : (s : Text) → NoNul (replace s nul [])
without_nul [] = replace_nothing
without_nul (c ∷ s) = elim (Bool-cases (c == 0)) [
  | inl e ↦ rw (replace-one, e) (without_nul s)
  | inr e ↦ rw (replace-one, e) (ground arith, without_nul s)
]

abbrev pub cap : ExtractRequest → ℕ
cap req = unwrap_or req.max_output_chars 2000000

-- The text before it is cut, from the text layer and what OCR found.
abbrev pub whole : Text → Option Text → Text
whole primary none = primary
whole primary (some found) = trim_end primary ++ (text "\n\n--- OCR ---\n\n" ++ trim_end found)

-- What OCR found, where the text layer is small; nothing is asked of a large one.
pub data OcrText (run : PdfRun) (req : ExtractRequest) : Bool → Option Text → Type 0 where
  large_layer : OcrText run req false none
  small_layer :
      (found : Text)
      → Found run (unwrap_or req.max_pages 100) (unwrap_or req.dpi 250) found
      → OcrText run req true (some found)

-- `found` is the text of the OCR, where there was one.
pub record IsHybrid (run : PdfRun) (req : ExtractRequest) (resp : ExtractResponse) : Type 0 where
  pub primary : Text
  pub found : Option Text
  pub layer :
      (out : Output) × (run.pdftotext ≡ ok out)
      × (primary ≡ replace (run.from_utf8_lossy out.stdout) nul [])
  pub readable : NoNul primary
  pub used : resp.stats.ocr_used ≡ ltb (length primary) 500
  pub ocr : OcrText run req (ltb (length primary) 500) found
  pub content : resp.content ≡ take (cap req) (whole primary found)
  pub bounded : length resp.content ≤ cap req

pdf_response-content :
    (req : ExtractRequest) (primary : Text) (needs_ocr : Bool) (o : Ocr)
    → (pdf_response req primary needs_ocr o).content
      ≡ take (cap req) (combine needs_ocr primary o.ocr_text)
unfolding pdf_response
pdf_response-content req primary needs_ocr o = truncate_chars-take _ (cap req)

pdf_response-used :
    (req : ExtractRequest) (primary : Text) (needs_ocr : Bool) (o : Ocr)
    → (pdf_response req primary needs_ocr o).stats.ocr_used ≡ needs_ocr
unfolding pdf_response
pdf_response-used req primary needs_ocr o = refl

bounded_by : (n : ℕ) (s t : Text) → s ≡ take n t → length s ≤ n
bounded_by n s t h = rw h (omega (arith, length-take n t))

module _ (run : PdfRun) (req : ExtractRequest) (out : Output)
    (started : run.pdftotext ≡ ok out) where
  -- A response with OCR or without, as the length of the text layer says.
  response-IsHybrid :
      (needs_ocr : Bool) (o : Ocr)
      → ltb (length (text_layer run out)) 500 ≡ needs_ocr
      → OcrText run req needs_ocr (if needs_ocr then some o.ocr_text else none)
      → IsHybrid run req (pdf_response req (text_layer run out) needs_ocr o)
  unfolding combine text_layer
  response-IsHybrid true o h found =
      let e = pdf_response-content req (text_layer run out) true o in
      record {
        primary = text_layer run out;
        found = some o.ocr_text;
        layer = (out, started, refl);
        readable = without_nul (run.from_utf8_lossy out.stdout);
        used = pdf_response-used req (text_layer run out) true o ∙ sym h;
        ocr = rw h found;
        content = e;
        bounded = bounded_by (cap req) _ _ e;
      }
  response-IsHybrid false o h found =
      let e = pdf_response-content req (text_layer run out) false o in
      record {
        primary = text_layer run out;
        found = none;
        layer = (out, started, refl);
        readable = without_nul (run.from_utf8_lossy out.stdout);
        used = pdf_response-used req (text_layer run out) false o ∙ sym h;
        ocr = rw h found;
        content = e;
        bounded = bounded_by (cap req) _ _ e;
      }

  after_text-IsHybrid :
      (resp : ExtractResponse) → after_text run req out ≡ ok resp → IsHybrid run req resp
  unfolding after_text
  after_text-IsHybrid resp h = elim (Bool-cases (ltb (length (text_layer run out)) 500)) [
    | inl small ↦
        let (o, did, e) =
          bind-ok (ocr run (unwrap_or req.max_pages 100) (unwrap_or req.dpi 250) _) _ resp
            (rw small at h) in
        subst (IsHybrid run req) (ok_injective e)
          (response-IsHybrid true o small (small_layer o.ocr_text (ocr-Found run _ _ _ o refl did)))
    | inr large ↦
        let none_found : Ocr = record {
          ocr_text = [];
          warnings = if out.success then [] else text "pdftotext_failed" ∷ [];
        } in
        subst (IsHybrid run req) (ok_injective (rw large at h))
          (response-IsHybrid false none_found large large_layer)
  ]

-- The text of a PDF is its text layer without NUL characters and, exactly if that has fewer than 500
-- characters, what OCR found, under a heading; all of it cut at the request's cap, or at 2000000
-- characters. A layer that is large enough is taken as it is. What OCR found is the text of every
-- page that tesseract reads and that is not blank, in the order of the images' names, with a newline
-- after each, up to the first page for which there is no tesseract, and nothing where no pages could
-- be rendered. At most the request's number of pages, or 100, are rendered, at its resolution or 250.
pub extract_pdf_hybrid-IsHybrid :
    (run : PdfRun) (req : ExtractRequest) (resp : ExtractResponse)
    → extract_pdf_hybrid run req ≡ ok resp
    → IsHybrid run req resp
unfolding extract_pdf_hybrid
extract_pdf_hybrid-IsHybrid run req resp h =
    let (_, _, h) = bind-ok (context run.tempdir (text "create tempdir")) _ resp h in
    let (_, _, h) = bind-ok (context run.write (text "write pdf")) _ resp h in
    let (out, started, h) = bind-ok (context run.pdftotext (text "run pdftotext")) _ resp h in
    after_text-IsHybrid run req out (context-ok run.pdftotext _ out started) resp h
