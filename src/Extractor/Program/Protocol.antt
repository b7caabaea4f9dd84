-- ===== src/Extractor/Program/Protocol.antt =====
-- The service and its helper together: what `run_helper` of extract.rs writes, bin/acip-extract.rs
-- reads, and what that writes, the service reads.
pub mod Tests
use mathlib.Core.Option
use acip_sidecar.Prelude.{
  ℕ, suc, zero, ◌+◌, ◌≤◌, ◌≡◌, refl, ◌∙◌, sym, ap, ◌≢◌, Bool, true, false, Option, none, some, List,
  [], ◌∷◌, ◌++◌, arith, Result, ok, err, ◌>>=◌, length, take, drop, All, ◌==◌, if◌then◌else◌,
}
use acip_sidecar.Text.{Text, text, text_eq, trim, as_bytes}
use acip_sidecar.Environment.{Env}
use acip_sidecar.Json.{Fallible}
use acip_sidecar.Extract.{
  ExtractRequest, ExtractResponse, ExtractorError, non_zero_exit, HelperRun, output_cap_bytes,
  run_helper, after_wait, stdin_of,
}
use acip_sidecar.Extract.Laws.{after_wait-zero, after_wait-suc}
use acip_sidecar.Extractor.{Stop, failed, panicked, exhausted, Outcome}
use acip_sidecar.Extractor.Program.{
  Tools, outcome, outermost, extract, position, is_one, selftest_net, write_response, respond,
  run_request, run_split, run, program, sent,
}

-- serde_json on requests and responses: a request is printed on one line, and what is printed is
-- read back.
pub record Serde (t : Tools) : Type 0 where
  pub print_request : ExtractRequest → Fallible Text
  pub parse_response : List ℕ → Fallible ExtractResponse
  pub one_line :
      (req : ExtractRequest) (header : Text)
      → print_request req ≡ ok header
      → All (λ b. b ≢ b'\n') (as_bytes header)
  pub reads_request :
      (req : ExtractRequest) (header : Text)
      → print_request req ≡ ok header
      → t.parse_request (as_bytes header) ≡ ok req
  pub reads_response :
      (resp : ExtractResponse) (out : List ℕ)
      → t.print_response resp ≡ ok out
      → parse_response out ≡ ok resp

position-line :
    (line rest : List ℕ)
    → All (λ b. b ≢ b'\n') line
    → position b'\n' (line ++ b'\n' ∷ rest) ≡ some (length line)
unfolding position
position-line [] rest h = refl
position-line (b ∷ line) rest (h, hs) = rw (position-line line rest hs) (ground arith)

take-line : (line rest : List ℕ) → take (length line) (line ++ rest) ≡ line
take-line [] rest = refl
take-line (b ∷ line) rest = ap (◌∷◌ b) (take-line line rest)

drop-line : (line rest : List ℕ) (b : ℕ) → drop (length line + 1) (line ++ b ∷ rest) ≡ rest
drop-line [] rest b = refl
drop-line (a ∷ line) rest b =
    let e : suc (length line) + 1 ≡ suc (length line + 1) = omega arith in
    rw e (drop-line line rest b)

-- The exit code of the program: 1 for an error of `main`, 101 for a panic.
exit_code : Outcome (List ℕ) → ℕ
exit_code (ok out) = 0
exit_code (err (failed e)) = 1
exit_code (err panicked) = 101
exit_code (err exhausted) = 101

-- What stands in the output file, which `run_helper` has created empty.
output_file : Outcome (List ℕ) → List ℕ
output_file (ok out) = out
output_file (err e) = []

-- `writeln!`.
log_line : Option Text → Text
log_line none = []
log_line (some e) = e ++ text "\n"

answer : Tools → Env → Fallible Text → List ℕ → Outcome (List ℕ) × Option Text
answer t env (ok header) bytes = program t env (sent header bytes)
answer t env (err e) bytes = (err panicked, none)

-- The run in which the system does all that `run_helper` asks, and the helper is the program.
pub served : (t : Tools) → Serde t → Env → ExtractRequest → List ℕ → HelperRun
unfolding exit_code output_file log_line answer
served t s env req bytes =
    let end = answer t env (s.print_request req) bytes in
    record {
      tempdir = ok tt;
      set_permissions = ok tt;
      create_out = ok tt;
      create_err = ok tt;
      spawned = ok tt;
      has_stdin = true;
      header = s.print_request req;
      write_header = ok tt;
      write_newline = ok tt;
      write_bytes = ok tt;
      wait = ok (some (some (exit_code end.0)));
      err_log = some (log_line end.1);
      open_out = ok (output_file end.0);
      read_out = ok tt;
      from_slice = s.parse_response;
    }

-- The system lets the program read its input and write its output file.
pub record Works (t : Tools) (env : Env) : Type 0 where
  pub read_stdin : t.read_stdin ≡ ok tt
  pub open_out : t.open_out ≡ ok tt
  pub write_out : t.write_out ≡ ok tt
  pub out_path : (path : Text) × (env (text "ACIP_EXTRACTOR_OUT") ≡ some path)
  pub no_net_test : is_one (env (text "ACIP_EXTRACTOR_SELFTEST_NET")) ≡ false
  pub no_large_test : is_one (env (text "ACIP_EXTRACTOR_SELFTEST_LARGE")) ≡ false

trimmed : trim (text "extract" ++ text "\n") ≡ text "extract"
unfolding trim text
trimmed = refl

trim-nil : trim [] ≡ []
unfolding trim
trim-nil = refl

module _ (t : Tools) (s : Serde t) (env : Env) (w : Works t env) (req : ExtractRequest)
    (header : Text) (printed : s.print_request req ≡ ok header) (bytes : List ℕ) where
  run-sent :
      (out_path : Option Text)
      → run t env out_path (sent header bytes)
        ≡ respond t out_path (outermost (extract t req bytes) (text "extract"))
  unfolding run run_split run_request sent outcome
  run-sent out_path =
      let line = s.one_line req header printed in
      rw
        (
          w.read_stdin,
          position-line (as_bytes header) bytes line,
          take-line (as_bytes header) (b'\n' ∷ bytes),
          s.reads_request req header printed,
          drop-line (as_bytes header) bytes b'\n',
          w.no_net_test,
          w.no_large_test,
        )
        refl

  program-ok :
      (resp : ExtractResponse) (out : List ℕ)
      → extract t req bytes ≡ ok resp
      → t.print_response resp ≡ ok out
      → program t env (sent header bytes) ≡ (ok out, none)
  unfolding program respond write_response outcome
  program-ok resp out extracted prints =
      rw (run-sent, extracted, prints, w.out_path.1, w.open_out, w.write_out) refl

  program-failed :
      (e : Text)
      → extract t req bytes ≡ err (failed e)
      → program t env (sent header bytes) ≡ (err (failed (text "extract")), some (text "extract"))
  unfolding program respond
  program-failed e extracted = rw (run-sent, extracted) refl

  program-panicked :
      extract t req bytes ≡ err panicked → program t env (sent header bytes) ≡ (err panicked, none)
  unfolding program respond
  program-panicked extracted = rw (run-sent, extracted) refl

  -- The run up to the end of the helper.
  run_helper-after_wait :
      (o : Outcome (List ℕ)) (log : Option Text)
      → program t env (sent header bytes) ≡ (o, log)
      → run_helper (served t s env req bytes) req
        ≡ after_wait (served t s env req bytes) req (some (some (exit_code o)))
  unfolding run_helper stdin_of served answer
  run_helper-after_wait o log h = rw printed (rw h refl)

  served-open_out :
      (o : Outcome (List ℕ)) (log : Option Text)
      → program t env (sent header bytes) ≡ (o, log)
      → ((served t s env req bytes).open_out ≡ ok (output_file o))
        × ((served t s env req bytes).err_log ≡ some (log_line log))
        × ((served t s env req bytes).from_slice ≡ s.parse_response)
        × ((served t s env req bytes).read_out ≡ ok tt)
  unfolding served answer
  served-open_out o log h = (rw printed (rw h refl), rw printed (rw h refl), refl, refl)

  -- Where nothing outside fails, the service gets from its helper just the response that `extract`
  -- gives on the same request and the same bytes, whatever bytes they are, if it fits in the cap on
  -- the output; an extraction that fails is reported as exit code 1 with the text `extract`, so that
  -- its cause is lost, and one that panics as exit code 101.
  pub run_helper-served :
      ((resp : ExtractResponse) (out : List ℕ)
        → extract t req bytes ≡ ok resp
        → t.print_response resp ≡ ok out
        → length out ≤ output_cap_bytes req
        → run_helper (served t s env req bytes) req ≡ ok resp)
      × ((e : Text)
          → extract t req bytes ≡ err (failed e)
          → run_helper (served t s env req bytes) req
            ≡ err (non_zero_exit (some 1) (text "extract")))
      × (extract t req bytes ≡ err panicked
          → run_helper (served t s env req bytes) req ≡ err (non_zero_exit (some 101) []))
  unfolding exit_code output_file log_line
  run_helper-served = (
    λ resp out extracted prints short.
        let p = program-ok resp out extracted prints in
        let (opened, _, parse, reads) = served-open_out (ok out) none p in
        run_helper-after_wait (ok out) none p
        ∙ after_wait-zero (served t s env req bytes) req out resp opened reads short
            (rw parse (s.reads_response resp out prints)),
    λ e extracted.
        let p = program-failed e extracted in
        let (_, log, _, _) = served-open_out _ _ p in
        run_helper-after_wait _ _ p
        ∙ after_wait-suc (served t s env req bytes) req 0 _ log
        ∙ ap (λ x. err (non_zero_exit (some 1) x)) trimmed,
    λ extracted.
        let p = program-panicked extracted in
        let (_, log, _, _) = served-open_out _ _ p in
        run_helper-after_wait _ _ p
        ∙ after_wait-suc (served t s env req bytes) req 100 _ log
        ∙ ap (λ x. err (non_zero_exit (some 101) x)) trim-nil,
  )
