-- ===== src/Extractor/Pdf.antt =====
-- `extract_pdf_hybrid` of extract.rs: the text layer of a PDF, and the text that OCR finds where
-- that is too small. The programs that it runs are parameters.
pub mod Found
pub mod Laws
use mathlib.Core.List.{reverse}
use acip_sidecar.Prelude.{
  ℕ, ◌+◌, Bool, true, false, ◌&&◌, Option, none, some, List, [], ◌∷◌, ◌++◌, Result, ok, err, ◌>>=◌,
  ltb, if◌then◌else◌, unwrap_or, length, is_empty, push,
}
use acip_sidecar.Prelude.Sort.{sort}
use acip_sidecar.Text.{Text, text, trim, trim_end, starts_with, replace}
use acip_sidecar.Text.Order.{text_order}
use acip_sidecar.Json.{Fallible, context}
use acip_sidecar.Extract.{pdf, ExtractRequest, ExtractResponse, truncate_chars}

-- How a program that was started ended: whether with success, and its output.
pub record Output : Type 0 where
  pub success : Bool
  pub stdout : List ℕ

-- The start of tesseract: an error is told apart by its kind.
pub data Started : Type 0 where
  output : Output → Started
  not_found : Started
  failed : Text → Started

-- The steps of one extraction. `from_utf8_lossy` is `String::from_utf8_lossy`.
pub record PdfRun : Type 0 where
  pub tempdir : Fallible (Unit {0})
  pub write : Fallible (Unit {0})
  pub pdftotext : Fallible Output
  -- With the last page and the resolution.
  pub pdftoppm : ℕ → ℕ → Fallible Bool
  -- The file names of the directory; `none` where one is not UTF-8.
  pub read_dir : Fallible (List (Option Text))
  -- With the image and the resolution.
  pub tesseract : Text → ℕ → Started
  pub from_utf8_lossy : List ℕ → Text

abbrev ends_with : Text → Text → Bool
ends_with s p = starts_with (reverse s) (reverse p)

page_name : Option Text → List Text → List Text
page_name none rest = rest
page_name (some n) rest =
    if starts_with n (text "page-") && ends_with n (text ".png") then n ∷ rest else rest

page_names : List (Option Text) → List Text
unfolding page_name
page_names [] = []
page_names (n ∷ names) = page_name n (page_names names)

-- The text that OCR has found so far, and the warnings.
pub record Ocr : Type 0 where
  pub ocr_text : Text
  pub warnings : List Text

warn : Text → Ocr → Ocr
warn w o = record o { warnings = push o.warnings w }

read_page : PdfRun → Output → Ocr → Ocr
unfolding warn
read_page run out o =
    let s = run.from_utf8_lossy out.stdout in
    if out.success
    then (if is_empty (trim s) then o else record o { ocr_text = o.ocr_text ++ (s ++ text "\n") })
    else warn (text "tesseract_failed") o

-- The result of one page, and how the loop goes on from it.
page_result : PdfRun → (Ocr → Fallible Ocr) → Started → Ocr → Fallible Ocr
unfolding read_page
page_result run again (output out) o = again (read_page run out o)
page_result run again not_found o = ok (warn (text "tesseract_not_installed") o)
page_result run again (failed e) o = err (text "run tesseract: " ++ e)

ocr_pages : PdfRun → ℕ → List Text → Ocr → Fallible Ocr
unfolding page_result
ocr_pages run dpi [] o = ok o
ocr_pages run dpi (img ∷ images) o =
    page_result run (ocr_pages run dpi images) (run.tesseract img dpi) o

rendered : PdfRun → ℕ → Ocr → Bool → Fallible Ocr
unfolding ocr_pages page_names
rendered run dpi o false = ok (warn (text "pdftoppm_failed") o)
rendered run dpi o true = do
  names ← context run.read_dir (text "read tempdir")
  ocr_pages run dpi (sort text_order (page_names names)) o

pub ocr : PdfRun → ℕ → ℕ → Ocr → Fallible Ocr
unfolding rendered
ocr run max_pages dpi o = do
  success ← context (run.pdftoppm max_pages dpi) (text "run pdftoppm")
  rendered run dpi (warn (text "pdf_text_layer_missing_or_small") o) success

abbrev pub nul : Text
nul = 0 ∷ []

-- The text layer, without NUL characters.
pub text_layer : PdfRun → Output → Text
text_layer run out = replace (run.from_utf8_lossy out.stdout) nul []

combine : Bool → Text → Text → Text
combine needs_ocr text_primary ocr_text =
    if needs_ocr
    then trim_end text_primary ++ (text "\n\n--- OCR ---\n\n" ++ trim_end ocr_text)
    else text_primary

pub pdf_response : ExtractRequest → Text → Bool → Ocr → ExtractResponse
unfolding combine
pdf_response req text_primary needs_ocr o =
    let (content, did_trunc) =
      truncate_chars (combine needs_ocr text_primary o.ocr_text)
        (unwrap_or req.max_output_chars 2000000) in
    record {
      succeeded = true;
      kind = pdf;
      content = content;
      warnings = if did_trunc then push o.warnings (text "output_truncated") else o.warnings;
      stats = record {
        pages = none;
        text_chars = length text_primary;
        ocr_used = needs_ocr;
        ocr_chars = length o.ocr_text;
      };
    }

-- From the output of pdftotext on.
pub after_text : PdfRun → ExtractRequest → Output → Fallible ExtractResponse
unfolding ocr text_layer pdf_response
after_text run req out =
    let warnings = if out.success then [] else text "pdftotext_failed" ∷ [] in
    let o : Ocr = record { ocr_text = []; warnings = warnings } in
    let text_primary = text_layer run out in
    let found = ocr run (unwrap_or req.max_pages 100) (unwrap_or req.dpi 250) o in
    if ltb (length text_primary) 500
    then (do o' ← found; ok (pdf_response req text_primary true o'))
    else ok (pdf_response req text_primary false o)

unfoldable pub extract_pdf_hybrid : PdfRun → ExtractRequest → Fallible ExtractResponse
unfolding after_text
extract_pdf_hybrid run req = do
  dir ← context run.tempdir (text "create tempdir")
  written ← context run.write (text "write pdf")
  out ← context run.pdftotext (text "run pdftotext")
  after_text run req out
