-- ===== src/Extract.antt =====
-- extract.rs: the requests to the extractor, and the run of the helper that serves them out of
-- process. What the operating system answers is a parameter.
pub mod Laws
pub mod Sandbox
pub mod Tests
use acip_sidecar.Prelude.{
  ℕ, zero, ◌+◌, ◌*◌, Bool, true, false, not, Option, none, some, List, [], ◌∷◌, ◌++◌, Result, ok,
  err, ◌>>=◌, ltb, leb, if◌then◌else◌, unwrap_or, length, take, is_empty, is_some, min, u64_max,
  saturating_add_u64,
}
use acip_sidecar.Text.{Text, text, trim}
use acip_sidecar.Decimal.{to_decimal}
use acip_sidecar.Environment.{Env}
use acip_sidecar.Json.{Fallible}

pub data ExtractKind : Type 0 where
  pdf svg : ExtractKind

-- `{:?}`.
pub debug : ExtractKind → Text
debug pdf = text "Pdf"
debug svg = text "Svg"

pub record ExtractRequest : Type 0 where
  pub kind : ExtractKind
  pub content_type : Option Text
  pub max_pages : Option ℕ
  pub dpi : Option ℕ
  pub max_output_chars : Option ℕ

pub record ExtractStats : Type 0 where
  pub pages : Option ℕ
  pub text_chars : ℕ
  pub ocr_used : Bool
  pub ocr_chars : ℕ

pub record ExtractResponse : Type 0 where
  pub succeeded : Bool
  pub kind : ExtractKind
  pub content : Text
  pub warnings : List Text
  pub stats : ExtractStats

pub data ExtractorError : Type 0 where
  timeout : ExtractorError
  spawn : Text → ExtractorError
  io : Text → ExtractorError
  non_zero_exit : Option ℕ → Text → ExtractorError
  output_too_large : ℕ → ℕ → ExtractorError
  output_parse : Text → ExtractorError

debug_code : Option ℕ → Text
debug_code none = text "None"
debug_code (some n) = text "Some(" ++ (to_decimal n ++ text ")")

-- `{}`, as thiserror derives it.
unfoldable pub display : ExtractorError → Text
unfolding debug_code
display timeout = text "extractor timeout"
display (spawn e) = text "spawn extractor failed: " ++ e
display (io e) = text "extractor io failed: " ++ e
display (non_zero_exit exit_code stderr) =
    text "extractor failed (exit=" ++ (debug_code exit_code ++ (text "): " ++ stderr))
display (output_too_large bytes max_bytes) =
    text "extractor output exceeded limit ("
    ++ (to_decimal bytes ++ (text " bytes > " ++ (to_decimal max_bytes ++ text " bytes)")))
display (output_parse e) = text "extractor output invalid: " ++ e

unfoldable pub truncate_chars : Text → ℕ → Text × Bool
truncate_chars s max_chars =
    if leb (length s) max_chars then (s, false) else (take max_chars s, true)

default_for : ExtractKind → ℕ
default_for pdf = 2000000
default_for svg = 500000

default_max_output_chars : ExtractRequest → ℕ
unfolding default_for
default_max_output_chars req = unwrap_or req.max_output_chars (default_for req.kind)

unfoldable pub output_cap_bytes : ExtractRequest → ℕ
unfolding default_max_output_chars
output_cap_bytes req =
    min (saturating_add_u64 (min (default_max_output_chars req * 4) u64_max) 1048576) 33554432

-- The keys that `run_helper` passes on, after `env_clear`.
abbrev pub passed_keys : List Text
passed_keys =
    text "ACIP_EXTRACTOR_RLIMIT_AS_MB"
    ∷ text "ACIP_EXTRACTOR_RLIMIT_NOFILE"
    ∷ text "ACIP_EXTRACTOR_RLIMIT_FSIZE_MB"
    ∷ text "ACIP_EXTRACTOR_RLIMIT_NPROC"
    ∷ text "ACIP_EXTRACTOR_NICE"
    ∷ text "ACIP_EXTRACTOR_SECCOMP"
    ∷ text "ACIP_EXTRACTOR_SELFTEST_NET"
    ∷ text "ACIP_EXTRACTOR_SELFTEST_LARGE"
    ∷ []

-- `std::env::var(key).ok().filter(|v| !v.trim().is_empty())`.
abbrev non_blank : Option Text → Option Text
non_blank none = none
non_blank (some v) = if is_empty (trim v) then none else some v

pass_key : Text → Option Text → List (Text × Text) → List (Text × Text)
pass_key key none rest = rest
pass_key key (some v) rest = (key, v) ∷ rest

pass_keys : Env → List Text → List (Text × Text)
unfolding pass_key
pass_keys env [] = []
pass_keys env (key ∷ keys) = pass_key key (non_blank (env key)) (pass_keys env keys)

-- The helper's environment.
pub child_env : Env → Text → Text → List (Text × Text)
unfolding pass_keys
child_env env out_path err_path =
    (text "PATH", text "/usr/bin:/bin")
    ∷ (pass_keys env passed_keys
        ++ pass_key (text "TMPDIR") (non_blank (env (text "ACIP_EXTRACTOR_TMPDIR")))
            ((text "ACIP_EXTRACTOR_OUT", out_path) ∷ (text "ACIP_EXTRACTOR_ERR", err_path) ∷ []))

-- How the steps of one run turn out.
pub record HelperRun : Type 0 where
  pub tempdir : Fallible (Unit {0})
  pub set_permissions : Fallible (Unit {0})
  pub create_out : Fallible (Unit {0})
  pub create_err : Fallible (Unit {0})
  pub spawned : Fallible (Unit {0})
  pub has_stdin : Bool
  pub header : Fallible Text
  pub write_header : Fallible (Unit {0})
  pub write_newline : Fallible (Unit {0})
  pub write_bytes : Fallible (Unit {0})
  -- `wait_timeout`: nothing where the time is up, else the exit code (`none` for a signal).
  pub wait : Fallible (Option (Option ℕ))
  pub err_log : Option Text
  pub open_out : Fallible (List ℕ)
  pub read_out : Fallible (Unit {0})
  pub from_slice : List ℕ → Fallible ExtractResponse

-- `map_err`.
abbrev pub map_err {ℓ} :
    {A : Type ℓ} → Result Text A → (Text → ExtractorError) → Result ExtractorError A
map_err (ok a) f = ok a
map_err (err e) f = err (f e)

unfoldable pub read_limited_file : HelperRun → ℕ → Result ExtractorError (List ℕ)
read_limited_file run max_bytes = do
  file ← map_err run.open_out output_parse
  let buf = take (saturating_add_u64 max_bytes 1) file
  done ← map_err run.read_out output_parse
  if ltb max_bytes (length buf) then err (output_too_large (length buf) max_bytes) else ok buf

abbrev is_success : Option ℕ → Bool
is_success (some zero) = true
is_success _ = false

pub after_wait :
    HelperRun → ExtractRequest → Option (Option ℕ) → Result ExtractorError ExtractResponse
unfolding read_limited_file
after_wait run req none = err timeout
after_wait run req (some status) =
    if is_success status
    then (do
      output ← read_limited_file run (output_cap_bytes req)
      map_err (run.from_slice output) output_parse)
    else err (non_zero_exit status (trim (unwrap_or run.err_log [])))

unfoldable pub stdin_of : Bool → Result ExtractorError (Unit {0})
stdin_of true = ok tt
stdin_of false = err (spawn (text "missing stdin"))

unfoldable pub run_helper : HelperRun → ExtractRequest → Result ExtractorError ExtractResponse
unfolding after_wait stdin_of
run_helper run req = do
  made ← map_err run.tempdir io
  private ← map_err run.set_permissions io
  out ← map_err run.create_out io
  diag ← map_err run.create_err io
  child ← map_err run.spawned spawn
  stdin ← stdin_of run.has_stdin
  header ← map_err run.header output_parse
  first ← map_err run.write_header spawn
  second ← map_err run.write_newline spawn
  third ← map_err run.write_bytes spawn
  status ← map_err run.wait spawn
  after_wait run req status
