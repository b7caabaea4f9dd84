-- ===== src/Startup.antt =====
-- startup.rs, server_config.rs and the start of main.rs: the settings in effect, whether a token is
-- needed, and the stores that the service starts with.
pub mod Laws
pub mod Main
pub mod Tests
use acip_sidecar.Prelude.{
  ℕ, Bool, true, false, ◌&&◌, ◌||◌, not, Option, none, some, List, [], ◌∷◌, ◌++◌, Result, ok, err,
  ◌>>=◌, if◌then◌else◌, is_empty, is_some, unwrap_or, or_else,
}
use acip_sidecar.Text.{Text, text, trim, Unicode}
use acip_sidecar.Environment.{Env}
use acip_sidecar.Assoc.{Assoc}
use acip_sidecar.Json.{Fallible}
use acip_sidecar.Sentry.Client.{SecretStore}
use acip_sidecar.Policy
use acip_sidecar.Policy.{Provider, PolicyConfig, PolicyStore, parse, from_file, default_from_env}
use acip_sidecar.Secrets
use acip_sidecar.Secrets.{Dotenv, env_store, file_store, composite_store}

-- The crate std::net: parsing an address, and whether it is a loopback address.
pub record Net : Type 1 where
  pub IpAddr : Type 0
  pub parse_ip : Text → Fallible IpAddr
  pub is_loopback : IpAddr → Bool

pub record ServerConfig : Type 0 where
  pub host : Option Text
  pub port : Option ℕ
  pub unix_socket : Option Text

-- `PolicyConfig` of config.rs.
pub record TruncationConfig : Type 0 where
  pub policies_file : Option Text
  pub head : Option ℕ
  pub tail : Option ℕ
  pub full_if_lte : Option ℕ

pub record SecurityConfig : Type 0 where
  pub allow_insecure_loopback : Option Bool
  pub require_token : Option Bool
  pub token_env : Option Text

-- The sections of the configuration file that are read here.
pub record Config : Type 0 where
  pub server : Option ServerConfig
  pub policy : Option TruncationConfig
  pub security : Option SecurityConfig

pub record CliOverrides : Type 0 where
  pub host : Option Text
  pub port : Option ℕ
  pub unix_socket : Option Text
  pub head : Option ℕ
  pub tail : Option ℕ
  pub full_if_lte : Option ℕ
  pub policies_file : Option Text

pub record EffectiveSettings : Type 0 where
  pub host : Text
  pub port : ℕ
  pub unix_socket : Option Text
  pub head : ℕ
  pub tail : ℕ
  pub full_if_lte : ℕ
  pub policies_file : Option Text

-- `Option::and_then`.
abbrev and_then {ℓ κ} : {A : Type ℓ} {B : Type κ} → Option A → (A → Option B) → Option B
and_then none f = none
and_then (some a) f = f a

unfoldable pub compute_token_required : (net : Net) → Text → Bool → Bool → Fallible Bool
compute_token_required net host allow_insecure_loopback require_token_setting = do
  ip ← net.parse_ip host
  ok ((not (net.is_loopback ip) || not allow_insecure_loopback) && require_token_setting)

unfoldable pub effective_settings : CliOverrides → Option Config → EffectiveSettings
effective_settings cli cfg =
    let cfg_server = and_then cfg (λ c. c.server) in
    let cfg_policy = and_then cfg (λ c. c.policy) in
    record {
      host = unwrap_or (or_else cli.host (and_then cfg_server (λ s. s.host))) (text "127.0.0.1");
      port = unwrap_or (or_else cli.port (and_then cfg_server (λ s. s.port))) 18795;
      unix_socket = or_else cli.unix_socket (and_then cfg_server (λ s. s.unix_socket));
      head = unwrap_or (or_else cli.head (and_then cfg_policy (λ p. p.head))) 4000;
      tail = unwrap_or (or_else cli.tail (and_then cfg_policy (λ p. p.tail))) 4000;
      full_if_lte =
          unwrap_or (or_else cli.full_if_lte (and_then cfg_policy (λ p. p.full_if_lte))) 9000;
      policies_file = or_else cli.policies_file (and_then cfg_policy (λ p. p.policies_file));
    }

unfoldable pub token_env : Option Config → Text
token_env cfg =
    unwrap_or (and_then (and_then cfg (λ c. c.security)) (λ s. s.token_env))
      (text "ACIP_AUTH_TOKEN")

unfoldable pub allow_insecure_loopback : Option Config → Bool
allow_insecure_loopback cfg =
    unwrap_or (and_then (and_then cfg (λ c. c.security)) (λ s. s.allow_insecure_loopback)) true

unfoldable pub require_token_setting : Option Config → Bool
require_token_setting cfg =
    unwrap_or (and_then (and_then cfg (λ c. c.security)) (λ s. s.require_token)) true

-- The choice in main.rs: a unix socket counts as loopback.
unfoldable pub token_required : Net → EffectiveSettings → Option Config → Fallible Bool
unfolding compute_token_required allow_insecure_loopback require_token_setting
token_required net eff cfg =
    if is_some eff.unix_socket
    then ok (not (allow_insecure_loopback cfg) && require_token_setting cfg)
    else compute_token_required net eff.host (allow_insecure_loopback cfg)
        (require_token_setting cfg)

non_blank_token : Text → Option Text → Fallible (Option Text)
non_blank_token name none =
    err (text "auth token required but missing or empty in secrets store (" ++ (name ++ text ")"))
non_blank_token name (some token) =
    if is_empty (trim token)
    then err
        (text "auth token required but missing or empty in secrets store (" ++ (name ++ text ")"))
    else ok (some token)

unfoldable pub resolve_token : Bool → SecretStore → Text → Fallible (Option Text)
unfolding non_blank_token
resolve_token false secrets name = ok none
resolve_token true secrets name = non_blank_token name (secrets name)

-- The token that the routes are guarded with, as main.rs computes it; an error ends the start.
unfoldable pub start_token :
    Net → EffectiveSettings → Option Config → SecretStore → Fallible (Option Text)
unfolding token_required resolve_token token_env
start_token net eff cfg secrets = do
  required ← token_required net eff cfg
  resolve_token required secrets (token_env cfg)

unfoldable pub build_secrets_store : Env → Option Dotenv → Fallible SecretStore
unfolding env_store file_store composite_store
build_secrets_store env none = ok (env_store env)
build_secrets_store env (some d) = do
  map ← Secrets.load d
  ok (composite_store (file_store map ∷ env_store env ∷ []))

-- `if let Some(p) = secrets.get(…) { if let Some(parsed) = Provider::parse(&p) { … } }`.
provider_or : Unicode → Option Text → Provider → Provider
provider_or u none p = p
provider_or u (some s) p = unwrap_or (parse u s) p

-- A policies file: what reading it gave, the parser, and its path.
pub record PoliciesFile : Type 0 where
  pub read : Fallible Text
  pub from_str : Text → Fallible (Assoc PolicyConfig)
  pub path : Text

-- Without a policies file the models come from the secret store; with one, it is loaded.
unfoldable pub build_policy_store :
    Unicode → SecretStore → Option PoliciesFile → Fallible PolicyStore
unfolding provider_or
build_policy_store u secrets (some f) = do
  pf ← Policy.load f.read f.from_str f.path
  ok (from_file pf)
build_policy_store u secrets none = ok (
    default_from_env
      (provider_or u (secrets (text "ACIP_L1_PROVIDER")) (Policy.default).l1.provider)
      (unwrap_or (secrets (text "ACIP_L1_MODEL")) (Policy.default).l1.model)
      (provider_or u (secrets (text "ACIP_L2_PROVIDER")) (Policy.default).l2.provider)
      (unwrap_or (secrets (text "ACIP_L2_MODEL")) (Policy.default).l2.model))
