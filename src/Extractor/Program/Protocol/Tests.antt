-- ===== src/Extractor/Program/Protocol/Tests.antt =====
-- The helper at a concrete request, with a serde_json that knows one request and plain responses.
use native.Mathlib.Decide.{ℕ_discrete}
use mathlib.Core.List.{List-discrete}
use mathlib.Core.Logic.{ite, if_pos, if_neg}
use acip_sidecar.Prelude.{
  ℕ, ◌≤◌, ◌≡◌, ◌≢◌, refl, sym, ap, ◌∙◌, true, false, none, some, List, [], ◌∷◌, ok, err, length,
  All, arith,
}
use acip_sidecar.Text.{Text, text, as_bytes}
use acip_sidecar.Environment.{Env}
use acip_sidecar.Extract.{
  svg, ExtractRequest, ExtractResponse, non_zero_exit, output_cap_bytes, run_helper,
}
use acip_sidecar.Ingest.Samples.{unicode, matcher, only}
use acip_sidecar.Extractor.{failed, panicked}
use acip_sidecar.Extractor.Pdf.{not_found}
use acip_sidecar.Extractor.Program.{Tools, extract}
use acip_sidecar.Extractor.Program.Protocol.{Serde, Works, served, run_helper-served}

abbrev plain : List ℕ → ExtractResponse
plain content = record {
  succeeded = true;
  kind = svg;
  content = content;
  warnings = [];
  stats = record { pages = none; text_chars = length content; ocr_used = false; ocr_chars = 0 };
}

ExtractRequest-discrete : Discrete ExtractRequest
ExtractRequest-discrete = hlevel (ℕ_discrete, List-discrete)

ExtractResponse-discrete : Discrete ExtractResponse
ExtractResponse-discrete = hlevel (ℕ_discrete, List-discrete)

abbrev request : ExtractRequest
request = record {
  kind = svg;
  content_type = none;
  max_pages = none;
  dpi = none;
  max_output_chars = none;
}

abbrev tools : Tools
tools = record {
  unicode = unicode;
  matcher = matcher;
  parse_xml = λ s. none;
  pdf_run = λ bytes. record {
    tempdir = ok tt;
    write = ok tt;
    pdftotext = err (text "not found");
    pdftoppm = λ pages dpi. ok true;
    read_dir = ok [];
    tesseract = λ img dpi. not_found;
    from_utf8_lossy = λ s. s;
  };
  parse_request = λ bytes. ok request;
  print_response = λ r.
      ite (ExtractResponse-discrete r (plain r.content)) (ok r.content) (err (text "not printed"));
  socket = ok tt;
  read_stdin = ok tt;
  open_out = ok tt;
  write_out = ok tt;
}

braces_line : All (λ b. b ≢ b'\n') (as_bytes (text "{}"))
unfolding as_bytes text
braces_line = omega arith

serde-one_line :
    (req : ExtractRequest) (header : Text)
    → ite (ExtractRequest-discrete req request) (ok (text "{}")) (err (text "not printed"))
      ≡ ok header
    → (header ≡ text "{}") × (req ≡ request)
serde-one_line req header h = elim (ExtractRequest-discrete req request) [
  | yes e ↦ (cc (rw (if_pos _ e) at h), e)
  | no e ↦ absurd (cc (rw (if_neg _ e) at h))
]

serde-response :
    (resp : ExtractResponse) (out : List ℕ) → tools.print_response resp ≡ ok out → resp ≡ plain out
serde-response resp out h = elim (ExtractResponse-discrete resp (plain resp.content)) [
  | yes e ↦ let same : resp.content ≡ out = cc (rw (if_pos _ e) at h) in e ∙ ap plain same
  | no e ↦ absurd (cc (rw (if_neg _ e) at h))
]

abbrev serde : Serde tools
serde = record {
  print_request =
      λ req. ite (ExtractRequest-discrete req request) (ok (text "{}")) (err (text "not printed"));
  parse_response = λ bytes. ok (plain bytes);
  one_line = λ req header h. rw ((serde-one_line req header h).0) braces_line;
  reads_request = λ req header h. ap ok (sym (serde-one_line req header h).1);
  reads_response = λ resp out h. ap ok (sym (serde-response resp out h));
}

abbrev env : Env
env = only (text "ACIP_EXTRACTOR_OUT") (text "/o")

works : Works tools env
unfolding text acip_sidecar.Text.text_eq acip_sidecar.Extractor.Program.is_one
works = record {
  read_stdin = refl;
  open_out = refl;
  write_out = refl;
  out_path = (text "/o", refl);
  no_net_test = refl;
  no_large_test = refl;
}

printed : serde.print_request request ≡ ok (text "{}")
printed = if_pos (ExtractRequest-discrete request request) refl _ _

-- A payload with a line break in it.
run_helper-served_example :
    ((resp : ExtractResponse) (out : List ℕ)
      → extract tools request (b'a' ∷ b'\n' ∷ []) ≡ ok resp
      → tools.print_response resp ≡ ok out
      → length out ≤ output_cap_bytes request
      → run_helper (served tools serde env request (b'a' ∷ b'\n' ∷ [])) request ≡ ok resp)
    × ((e : Text)
        → extract tools request (b'a' ∷ b'\n' ∷ []) ≡ err (failed e)
        → run_helper (served tools serde env request (b'a' ∷ b'\n' ∷ [])) request
          ≡ err (non_zero_exit (some 1) (text "extract")))
    × (extract tools request (b'a' ∷ b'\n' ∷ []) ≡ err panicked
        → run_helper (served tools serde env request (b'a' ∷ b'\n' ∷ [])) request
          ≡ err (non_zero_exit (some 101) []))
run_helper-served_example =
    run_helper-served tools serde env works request (text "{}") printed (b'a' ∷ b'\n' ∷ [])
