-- ===== src/Startup/Main/Tests.antt =====
-- A service that starts as the configured user, with a private secrets file and a reputation file.
use acip_sidecar.Prelude.{ℕ, ◌≡◌, refl, ap, true, none, some, [], ◌∷◌, ok, err}
use acip_sidecar.Text.{Text, text, text_eq}
use acip_sidecar.Ingest.Samples.{unicode, floats, only}
use acip_sidecar.Policy.{gemini, anthropic, default_from_env}
use acip_sidecar.Secrets.{Dotenv, env_store, file_store, composite_store}
use acip_sidecar.Settings.{from_config}
use acip_sidecar.Reputation.{fresh}
use acip_sidecar.Reputation.File.{StoreCodec, LoadRun}
use acip_sidecar.Ingest.{json_file}
use acip_sidecar.Identity.{found, Libc, ServiceConfig}
use acip_sidecar.Startup.{Net, Config, CliOverrides, PoliciesFile}
use acip_sidecar.Startup.Main.{System, Started, parsed, start}
use acip_sidecar.Startup.Main.Laws.{Fit, start-Fit}

abbrev libc : Libc
libc = record {
  getpwuid_r = λ uid len. found (text "acip");
  getgrgid_r = λ gid len. found (text "acip");
  getpwnam_r = λ name len. found 7;
  getgrnam_r = λ name len. found 7;
  Process = ℕ;
  geteuid = λ p. p;
  getegid = λ p. p;
  setgid = λ gid p. err (text "Operation not permitted");
  initgroups = λ name gid p. err (text "Operation not permitted");
  setuid = λ uid p. err (text "Operation not permitted");
}

abbrev config : Config
config = record { server = none; policy = none; security = none }

abbrev service : ServiceConfig
service = record { user = some (text "acip"); group = none; enforce_identity = none }

abbrev nothing_given : CliOverrides
nothing_given = record {
  host = some (text "0.0.0.0");
  port = none;
  unix_socket = none;
  head = none;
  tail = none;
  full_if_lte = none;
  policies_file = none;
}

abbrev system : System
system = record {
  floats = floats;
  unicode = unicode;
  net = record {
    IpAddr = Text;
    parse_ip = λ s. ok s;
    is_loopback = λ s. text_eq s (text "127.0.0.1");
  };
  libc = libc;
  fuel = 1;
  env = only (text "ACIP_REPUTATION_STORE") (text "file:r.json");
  config = parsed config (some service) none;
  dotenv_at = λ path. record {
    exists_there = true;
    file = ok (record { mode = 0x8180; uid = 0 });
    parent = some (ok (record { mode = 0x41c0; uid = 0 }));
    contents = ok (text "ACIP_AUTH_TOKEN=t");
  };
  policies_at = λ path. record { read = err (text "none"); from_str = λ s. ok []; path = path };
  path_of = λ path. record { parent = some []; file_name = some path };
  codec = record {
    from_str = λ s. ok ((text "host:h", fresh (text "host:h")) ∷ []);
    to_string_pretty = λ m. err (text "not printed");
  };
  load_run = record {
    now_unix = 0;
    read = ok tt;
    rename = ok tt;
    copy = ok tt;
    copied = none;
    remove = ok tt;
  };
  disk = λ path. some (text "{}");
  http_client = ok tt;
}

abbrev running : Started system nothing_given (some (text "secrets.env")) 7
running = record {
  process = 7;
  token = some (text "t");
  secrets =
      composite_store
        (file_store ((text "ACIP_AUTH_TOKEN", text "t") ∷ []) ∷ env_store system.env ∷ []);
  policy = record { head = 4000; tail = 4000; full_if_lte = 9000 };
  normalize = from_config floats system.env none;
  policies =
      default_from_env gemini (text "gemini-2.0-flash") anthropic (text "claude-3-5-haiku-latest");
  backend = json_file;
  reputation = (text "host:h", fresh (text "host:h")) ∷ [];
}

starts : start system nothing_given (some (text "secrets.env")) 7 ≡ ([], ok running)
unfolding start text text_eq acip_sidecar.Startup.token_required
    acip_sidecar.Startup.effective_settings acip_sidecar.Identity.enforce_identity
    acip_sidecar.Startup.build_secrets_store acip_sidecar.Secrets.load
    acip_sidecar.Startup.resolve_token acip_sidecar.Assoc.lookup acip_sidecar.Text.trim
    acip_sidecar.Text.starts_with acip_sidecar.Assoc.insert acip_sidecar.Startup.token_env
    acip_sidecar.Reputation.File.load_or_create acip_sidecar.Text.from_utf8
    acip_sidecar.Startup.build_policy_store
starts = refl

start-Fit_example :
    Fit system nothing_given (some (text "secrets.env")) 7 (some config) (some service) running
start-Fit_example =
    start-Fit system nothing_given (some (text "secrets.env")) 7 running (ap (λ t. t.1) starts)
