-- ===== src/Extractor/Program.antt =====
-- bin/acip-extract.rs, the program that the service runs as its helper, and `extract` of extract.rs.
-- The service writes a line of JSON and then the payload to the program's input.
pub mod Protocol
use mathlib.Core.Option
use acip_sidecar.Prelude.{
  ℕ, zero, suc, ◌+◌, Bool, true, false, Option, none, some, List, [], ◌∷◌, ◌++◌, Result, ok, err,
  ◌>>=◌, ◌==◌, if◌then◌else◌, take, drop,
}
use acip_sidecar.Text.{Text, text, text_eq, trim, as_bytes, Unicode}
use acip_sidecar.Environment.{Env}
use acip_sidecar.Json.{Fallible}
use acip_sidecar.Scan.Matcher.{AhoCorasick}
use acip_sidecar.Extract.{ExtractKind, pdf, svg, ExtractRequest, ExtractResponse}
use acip_sidecar.Ingest.{XmlNode}
use acip_sidecar.Extractor.{Stop, failed, panicked, exhausted, Outcome}
use acip_sidecar.Extractor.Svg.{extract_svg_text}
use acip_sidecar.Extractor.Pdf.{PdfRun, extract_pdf_hybrid}

-- What the program uses of crates and of the programs that it starts.
pub record Tools : Type 0 where
  pub unicode : Unicode
  pub matcher : AhoCorasick
  pub parse_xml : Text → Option (List XmlNode)
  pub pdf_run : List ℕ → PdfRun
  pub parse_request : List ℕ → Fallible ExtractRequest
  pub print_response : ExtractResponse → Fallible (List ℕ)
  -- `socket`: whether one could be opened, or else the error number and its text.
  pub socket : Result (ℕ × Text) (Unit {0})
  pub read_stdin : Fallible (Unit {0})
  pub open_out : Fallible (Unit {0})
  pub write_out : Fallible (Unit {0})

outcome : {A : Type 0} → Fallible A → Outcome A
outcome (ok a) = ok a
outcome (err e) = err (failed e)

-- `anyhow::Context::context`, of which `err.to_string()` shows the last one alone.
abbrev pub outermost : {A : Type 0} → Outcome A → Text → Outcome A
outermost (ok a) c = ok a
outermost (err (failed e)) c = err (failed c)
outermost (err panicked) c = err panicked
outermost (err exhausted) c = err exhausted

pub dispatch : Tools → ExtractKind → ExtractRequest → List ℕ → Outcome ExtractResponse
unfolding outcome
dispatch t pdf req bytes = outcome (extract_pdf_hybrid (t.pdf_run bytes) req)
dispatch t svg req bytes = extract_svg_text t.unicode t.matcher t.parse_xml req bytes

unfoldable pub extract : Tools → ExtractRequest → List ℕ → Outcome ExtractResponse
unfolding dispatch
extract t req bytes = dispatch t req.kind req bytes

-- `buf.iter().position(|b| *b == b'\n')`.
position : ℕ → List ℕ → Option ℕ
position b [] = none
position b (c ∷ s) = if c == b then some 0 else Option.map suc (position b s)

pub is_one : Option Text → Bool
is_one none = false
is_one (some v) = text_eq (trim v) (text "1")

eperm : ℕ
eperm = 1

-- The debug mode that looks whether sockets are denied never succeeds.
selftest_net : Result (ℕ × Text) (Unit {0}) → Text
unfolding eperm
selftest_net (ok fd) = text "seccomp_network_not_denied"
selftest_net (err (errno, e)) =
    if errno == eperm then text "seccomp_network_denied" else text "socket_failed: " ++ e

pub repeated : ℕ → ℕ → List ℕ
repeated zero c = []
repeated (suc n) c = c ∷ repeated n c

selftest_large_chars : ℕ
selftest_large_chars = 7000000

large_response : ExtractRequest → ExtractResponse
unfolding repeated selftest_large_chars
large_response req = record {
  succeeded = true;
  kind = req.kind;
  content = repeated selftest_large_chars b'x';
  warnings = [];
  stats = record {
    pages = none;
    text_chars = selftest_large_chars;
    ocr_used = false;
    ocr_chars = 0;
  };
}

-- `write_response`: the bytes that the file then holds, or that standard output got.
write_response : Tools → Option Text → List ℕ → Outcome (List ℕ)
unfolding outcome
write_response t none payload = do
  written ← outermost (outcome t.write_out) (text "write stdout")
  ok payload
write_response t (some path) payload = do
  file ← outermost (outcome t.open_out) (text "open " ++ path)
  written ← outermost (outcome t.write_out) (text "write ACIP_EXTRACTOR_OUT")
  ok payload

respond : Tools → Option Text → Outcome ExtractResponse → Outcome (List ℕ)
unfolding write_response
respond t out_path response = do
  resp ← response
  out ← outermost (outcome (t.print_response resp)) (text "serialize response")
  write_response t out_path out

run_request : Tools → Env → Option Text → ExtractRequest → List ℕ → Outcome (List ℕ)
unfolding is_one selftest_net large_response respond
run_request t env out_path req payload =
    let extracted = outermost (extract t req payload) (text "extract") in
    if is_one (env (text "ACIP_EXTRACTOR_SELFTEST_NET"))
    then err (failed (selftest_net t.socket))
    else if is_one (env (text "ACIP_EXTRACTOR_SELFTEST_LARGE"))
    then respond t out_path (ok (large_response req))
    else respond t out_path extracted

run_split : Tools → Env → Option Text → List ℕ → Option ℕ → Outcome (List ℕ)
unfolding run_request
run_split t env out_path buf none = err (failed (text "missing request header line"))
run_split t env out_path buf (some pos) = do
  req ← outermost (outcome (t.parse_request (take pos buf))) (text "parse request json")
  run_request t env out_path req (drop (pos + 1) buf)

unfoldable pub run : Tools → Env → Option Text → List ℕ → Outcome (List ℕ)
unfolding run_split position
run t env out_path stdin = do
  read ← outermost (outcome t.read_stdin) (text "read stdin")
  run_split t env out_path stdin (position b'\n' stdin)

-- `main`: what became of the output, and what was written to the diagnostics.
unfoldable pub program : Tools → Env → List ℕ → Outcome (List ℕ) × Option Text
unfolding run
program t env stdin =
    let result = run t env (env (text "ACIP_EXTRACTOR_OUT")) stdin in
    (result, elim result [ ok out ↦ none | err (failed e) ↦ some e | err _ ↦ none ])

-- What `run_helper` writes to the program's input.
unfoldable pub sent : Text → List ℕ → List ℕ
sent header bytes = as_bytes header ++ b'\n' ∷ bytes
