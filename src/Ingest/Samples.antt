-- ===== src/Ingest/Samples.antt =====
-- A service to try the theorems on: every crate as a small concrete function.
use native.Mathlib.Nat.{mul-le-mul_left}
use acip_sidecar.Prelude.{
  ℕ, ◌+◌, ◌*◌, ◌/◌, ◌≤◌, ◌≡◌, refl, max, min, true, none, some, List, [], ◌∷◌, map, leb,
  if◌then◌else◌, ok, err, length, arith, u64_max,
}
use acip_sidecar.Text.{
  Text, text, text_eq, to_ascii_lowercase, ascii_lower, contains, parse_uint, Unicode,
}
use acip_sidecar.Decimal.{to_decimal}
use acip_sidecar.Json.{obj, end, str, SerdeJson}
use acip_sidecar.Floats.{Floats}
use acip_sidecar.Scan.Matcher.{AhoCorasick}
use acip_sidecar.Normalize.{document, text_node, nil, cons}
use acip_sidecar.Policy.{gemini, anthropic, default_from_env}
use acip_sidecar.Sentry.{Decision, low, allow}
use acip_sidecar.Sentry.Parse.{DecisionReader}
use acip_sidecar.Sentry.Client.{Http, SecretStore}
use acip_sidecar.Headers.{HeaderMap}
use acip_sidecar.Environment.{Env}
use acip_sidecar.Extract.{HelperRun}
use acip_sidecar.Ingest.{
  Crates, World, AppState, IngestRequest, IngestResponse, Reply, success, clipboard, completed,
  in_memory,
}

abbrev pub unicode : Unicode
unicode = record { to_lowercase = ascii_lower; to_lowercase-ascii = λ s h. refl }

-- Numbers in thousandths.
pub thousandths : (n f : ℕ) → leb f 1000 ≡ true → n * 1000 * f / 1000 / 1000 ≤ n
thousandths n f h =
    let within : f ≤ 1000 = ground arith in omega (arith, mul-le-mul_left (n * 1000) within)

abbrev pub floats : Floats
floats = record {
  F = ℕ;
  lit = λ a b. a * 1000 / b;
  of_uint = λ n. n * 1000;
  add = λ a b. a + b;
  mul = λ a b. a * b / 1000;
  div = λ a b. a * 1000 / b;
  powf = λ a b. 1000 * 1000 / (1000 + b);
  fmax = max;
  floor_uint = λ a. a / 1000;
  round_u64 = λ a. min ((a + 500) / 1000) u64_max;
  in_unit = λ a. leb a 1000;
  parse = λ s. elim (parse_uint u64_max s) [ none ↦ none | some n ↦ some (n * 1000) ];
  scale-le = λ n f _ h. thousandths n f h;
  half-in_unit = refl;
}

-- The indices of the patterns that occur.
abbrev pub occurring : ℕ → List Text → List ℕ → List ℕ
occurring i [] bytes = []
occurring i (p ∷ ps) bytes =
    let rest = occurring (i + 1) ps bytes in
    if contains (map to_ascii_lowercase bytes) p then i ∷ rest else rest

abbrev pub matcher : AhoCorasick
matcher = record { find_iter = occurring 0 }

abbrev pub permissive : Decision
permissive = record {
  tools_allowed = true;
  risk_level = low;
  action = allow;
  fenced_content = text "the model says";
  reasons = [];
  detected_patterns = [];
}

abbrev pub json : SerdeJson
json = record {
  from_str = λ s. if text_eq s (text "{}") then ok (obj end) else err (text "expected value");
  to_string = λ v. text "{}";
  pointer = λ v p. some (str (text "{}"));
}

abbrev pub reader : DecisionReader
reader = record { json = json; validate = λ schema v. []; from_value = λ v. ok permissive }

abbrev pub http : Http
http = record {
  Response = Unit;
  send = λ r. ok tt;
  error_for_status = λ r. ok tt;
  json = λ r. ok (obj end);
}

abbrev pub crates : Crates
crates = record {
  unicode = unicode;
  floats = floats;
  reader = reader;
  http = http;
  matcher = matcher;
  decode_b64 = λ s. err (text "no base64");
  sha256_hex = λ bytes. to_decimal (length bytes);
  parse_url = λ s. none;
  parse_document = λ s. some (document (cons (text_node s) nil));
  parse_xml = λ s. none;
}

-- A helper that is never asked for.
abbrev pub idle_helper : HelperRun
idle_helper = record {
  tempdir = ok tt;
  set_permissions = ok tt;
  create_out = ok tt;
  create_err = ok tt;
  spawned = err (text "no helper");
  has_stdin = true;
  header = ok (text "{}");
  write_header = ok tt;
  write_newline = ok tt;
  write_bytes = ok tt;
  wait = ok (some (some 0));
  err_log = none;
  open_out = ok [];
  read_out = ok tt;
  from_slice = λ bytes. err (text "empty");
}

abbrev pub world : Env → World
world env = record {
  env = env;
  observed_at = 1000;
  decided_at = 1000;
  helper_run = λ r bytes secs. idle_helper;
  joined = λ r bytes secs. completed;
}

-- An environment with one variable.
abbrev pub only : Text → Text → Env
only name value = λ n. if text_eq n name then some value else none

abbrev pub stub_open_world : World
stub_open_world = world (only (text "ACIP_SENTRY_MODE") (text "stub-open"))

abbrev pub live_world : World
live_world = world (λ n. none)

abbrev pub state : SecretStore → AppState crates
state secrets = record {
  policy = record { head = 4000; tail = 4000; full_if_lte = 9000 };
  normalize = record {
    max_input_chars = 400000;
    window_head_chars = 200000;
    window_tail_chars = 200000;
    adversarial_threshold = 3;
    adversarial_tighten_factor = 500;
  };
  secrets = secrets;
  policies =
      default_from_env gemini (text "gemini-2.0-flash") anthropic (text "claude-3-5-haiku-latest");
  backend = in_memory;
  reputation = [];
}

abbrev pub no_keys : SecretStore
no_keys = λ n. none

abbrev pub one_key : SecretStore
one_key = only (text "GEMINI_API_KEY") (text "k")

-- One header with one value.
abbrev pub header : Text → Text → HeaderMap
header name value = λ n. if text_eq n name then some value ∷ [] else []

abbrev pub authorized : HeaderMap
authorized = header (text "x-acip-allow-tools") (text "true")

abbrev pub request : Text → IngestRequest
request body = record {
  source_id = text "a";
  source_type = clipboard;
  content_type = text "text/plain";
  url = none;
  title = none;
  turn_id = none;
  body = some body;
  bytes_b64 = none;
}

-- The response of a reply, where it is one.
abbrev pub response_of : Reply → IngestResponse → IngestResponse
response_of (success r) other = r
response_of _ other = other
