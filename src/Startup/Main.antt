-- ===== src/Startup/Main.antt =====
-- `main` of main.rs up to the router: the configuration, the identity, the secrets, the token, the
-- reputation store and the policies of a service that starts. The system around it is a parameter.
pub mod Laws
pub mod Tests
use acip_sidecar.Prelude.{
  ℕ, Option, none, some, List, [], ◌∷◌, Result, ok, err, ◌>>=◌, if◌then◌else◌, unwrap_or, drop,
}
use acip_sidecar.Text.{Text, text, starts_with, Unicode}
use acip_sidecar.Environment.{Env}
use acip_sidecar.Floats.{Floats}
use acip_sidecar.Json.{Fallible}
use acip_sidecar.Sentry.Client.{SecretStore}
use acip_sidecar.Policy.{PolicyStore}
use acip_sidecar.Secrets.{Dotenv}
use acip_sidecar.Settings.{TruncationPolicy, NormalizeSettings, from_config}
use acip_sidecar.Reputation.{RepMap}
use acip_sidecar.Reputation.File.{Traced, StoreCodec, LoadRun, load_or_create}
use acip_sidecar.Reputation.File.Effects.{FilePath, Disk}
use acip_sidecar.Ingest.{Backend, in_memory, json_file}
use acip_sidecar.Identity.{Libc, Checked, error, ServiceConfig, enforce_identity}
use acip_sidecar.Startup.{
  Net, Config, CliOverrides, EffectiveSettings, PoliciesFile, effective_settings, token_required,
  token_env, resolve_token, build_secrets_store, build_policy_store,
}

-- What the loading of the configuration file gives; only a file that is not there is no error.
pub data ConfigFile (f : Floats) : Type 1 where
  parsed : Config → Option ServiceConfig → Option (NormalizeSettings f) → ConfigFile f
  not_found : ConfigFile f
  unreadable : Text → ConfigFile f

-- The system that the service starts on.
pub record System : Type 1 where
  pub floats : Floats
  pub unicode : Unicode
  pub net : Net
  pub libc : Libc
  pub fuel : ℕ
  pub env : Env
  pub config : ConfigFile floats
  pub dotenv_at : Text → Dotenv
  pub policies_at : Text → PoliciesFile
  pub path_of : Text → FilePath
  pub codec : StoreCodec
  pub load_run : LoadRun
  pub disk : Disk
  -- `build_http_client`.
  pub http_client : Fallible (Unit {0})

pub ended : {A : Type 0} → Fallible A → Checked A
ended (ok a) = ok a
ended (err e) = err (error e)

-- `store.strip_prefix("file:")`.
pub file_of : Text → Option Text
file_of store = if starts_with store (text "file:") then some (drop 5 store) else none

pub map_option : {A : Type 0} {B : Type 0} → (A → B) → Option A → Option B
map_option f none = none
map_option f (some a) = some (f a)

module _ (sys : System) (cli : CliOverrides) (secrets_file : Option Text)
    (initial : sys.libc.Process) where
  -- What the state of the service is made of, and the process it runs as.
  pub record Started : Type 0 where
    pub process : sys.libc.Process
    pub token : Option Text
    pub secrets : SecretStore
    pub policy : TruncationPolicy
    pub normalize : NormalizeSettings sys.floats
    pub policies : PolicyStore
    pub backend : Backend
    pub reputation : RepMap

  abbrev pub settings : Option Config → EffectiveSettings
  settings cfg = effective_settings cli cfg

  -- From the reputation store on.
  pub build_state :
      Option Config
      → Option (NormalizeSettings sys.floats)
      → sys.libc.Process
      → SecretStore
      → Option Text
      → Backend
      → RepMap
      → Checked Started
  unfolding ended map_option
  build_state cfg normalize dropped secrets token backend records = do
    client ← ended sys.http_client
    policies ← ended (
        build_policy_store sys.unicode secrets
          (map_option sys.policies_at (settings cfg).policies_file))
    ok record {
      process = dropped;
      token = token;
      secrets = secrets;
      policy = record {
        head = (settings cfg).head;
        tail = (settings cfg).tail;
        full_if_lte = (settings cfg).full_if_lte;
      };
      normalize = from_config sys.floats sys.env normalize;
      policies = policies;
      backend = backend;
      reputation = records;
    }

  abbrev pub Ready : Type 0
  Ready = sys.libc.Process × SecretStore × Option Text

  -- What is done before the stores are built: the identity is checked before secrets are read.
  pub begin : Option Config → Option ServiceConfig → Checked Ready
  unfolding ended map_option
  begin cfg service = do
    required ← ended (token_required sys.net (settings cfg) cfg)
    dropped ← enforce_identity sys.libc sys.fuel initial service
    secrets ← ended (build_secrets_store sys.env (map_option sys.dotenv_at secrets_file))
    token ← ended (resolve_token required secrets (token_env cfg))
    ok (dropped, secrets, token)

  pub after_load :
      Option Config
      → Option (NormalizeSettings sys.floats)
      → Ready
      → Traced (Fallible RepMap)
      → Traced (Checked Started)
  unfolding build_state
  after_load cfg normalize (dropped, secrets, token) (effects, loaded) =
      (effects, ended loaded >>= build_state cfg normalize dropped secrets token json_file)

  pub with_store :
      Option Config
      → Option (NormalizeSettings sys.floats)
      → Ready
      → Option Text
      → Traced (Checked Started)
  unfolding after_load
  with_store cfg normalize (dropped, secrets, token) none =
      ([], build_state cfg normalize dropped secrets token in_memory [])
  with_store cfg normalize ready (some path) =
      after_load cfg normalize ready
        (load_or_create sys.codec sys.load_run (sys.path_of path) sys.disk)

  -- `ACIP_REPUTATION_STORE`: `memory`, or a file.
  pub after_begin :
      Option Config
      → Option (NormalizeSettings sys.floats)
      → Checked Ready
      → Traced (Checked Started)
  unfolding with_store file_of
  after_begin cfg normalize (err e) = ([], err e)
  after_begin cfg normalize (ok ready) =
      with_store cfg normalize ready
        (file_of (unwrap_or (sys.env (text "ACIP_REPUTATION_STORE")) (text "memory")))

  pub start_from : ConfigFile sys.floats → Traced (Checked Started)
  unfolding begin after_begin
  start_from (parsed cfg service normalize) =
      after_begin (some cfg) normalize (begin (some cfg) service)
  start_from not_found = after_begin none none (begin none none)
  start_from (unreadable e) = ([], err (error e))

  -- The effects of the start on the disk, and the service.
  unfoldable pub start : Traced (Checked Started)
  unfolding start_from
  start = start_from sys.config
