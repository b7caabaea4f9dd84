-- ===== src/Startup/Tests.antt =====
-- A service that starts with a secrets file.
use acip_sidecar.Prelude.{◌≡◌, refl, true, none, some, [], ◌∷◌, ok, All}
use acip_sidecar.Text.{Text, text, text_eq}
use acip_sidecar.Assoc.{Assoc}
use acip_sidecar.Ingest.Samples.{unicode, only}
use acip_sidecar.Policy.{PolicyStore, gemini, anthropic, default_from_env}
use acip_sidecar.Secrets
use acip_sidecar.Secrets.{Dotenv}
use acip_sidecar.Secrets.Laws.{IsPrivate, IsClean, load-IsPrivate}
use acip_sidecar.Startup.{Net, EffectiveSettings, start_token, build_policy_store}
use acip_sidecar.Startup.Laws.{Guard, start_token-Guard}

abbrev dotenv : Dotenv
dotenv = record {
  exists_there = true;
  file = ok (record { mode = 0x8180; uid = 0 });
  parent = some (ok (record { mode = 0x41c0; uid = 0 }));
  contents = ok (text "# keys\nACIP_AUTH_TOKEN = t \n");
}

loaded : Secrets.load dotenv ≡ ok ((text "ACIP_AUTH_TOKEN", text "t") ∷ [])
unfolding Secrets.load text acip_sidecar.Text.trim acip_sidecar.Text.starts_with
    acip_sidecar.Text.is_whitespace acip_sidecar.Assoc.insert
loaded = refl

load-IsPrivate_example : IsPrivate dotenv × All IsClean ((text "ACIP_AUTH_TOKEN", text "t") ∷ [])
load-IsPrivate_example = load-IsPrivate dotenv ((text "ACIP_AUTH_TOKEN", text "t") ∷ []) loaded

-- Only `127.0.0.1` is an address here, and a loopback one.
abbrev net : Net
net = record {
  IpAddr = Text;
  parse_ip = λ s. ok s;
  is_loopback = λ s. text_eq s (text "127.0.0.1");
}

abbrev everywhere : EffectiveSettings
everywhere = record {
  host = text "0.0.0.0";
  port = 18795;
  unix_socket = none;
  head = 4000;
  tail = 4000;
  full_if_lte = 9000;
  policies_file = none;
}

started :
    start_token net everywhere none (only (text "ACIP_AUTH_TOKEN") (text "t"))
    ≡ ok (some (text "t"))
unfolding start_token text text_eq acip_sidecar.Text.trim acip_sidecar.Text.is_whitespace
started = refl

start_token-Guard_example :
    Guard net everywhere none (only (text "ACIP_AUTH_TOKEN") (text "t")) (some (text "t"))
start_token-Guard_example =
    start_token-Guard net everywhere none (only (text "ACIP_AUTH_TOKEN") (text "t"))
      (some (text "t")) started

abbrev store : PolicyStore
store = default_from_env gemini (text "gemini-2.0-flash") anthropic (text "claude-3-5-haiku-latest")

built : build_policy_store unicode (λ n. none) none ≡ ok store
unfolding build_policy_store
built = refl
