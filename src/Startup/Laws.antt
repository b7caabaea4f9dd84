-- ===== src/Startup/Laws.antt =====
-- When a service starts without a token, and which policies it starts with.
use mathlib.Core.Path.{subst}
use acip_sidecar.Prelude.{
  ◌≡◌, refl, inl, inr, Bool, true, false, ◌&&◌, not, Option, none, some, ok, arith, Bool-cases,
  is_empty, is_some, bind-ok, ok_injective,
}
use acip_sidecar.Text.{Text, trim, Unicode}
use acip_sidecar.Json.{Fallible}
use acip_sidecar.Sentry.Client.{SecretStore}
use acip_sidecar.Policy
use acip_sidecar.Policy.{PolicyStore, from_file, default_from_env}
use acip_sidecar.Policy.Laws.{HasDefault, load-HasDefault, default_from_env-HasDefault}
use acip_sidecar.Startup.{
  Net, Config, EffectiveSettings, compute_token_required, allow_insecure_loopback,
  require_token_setting, token_env, token_required, non_blank_token, resolve_token, start_token,
  PoliciesFile, build_policy_store,
}

-- The service listens on a unix socket or on a loopback address.
pub data IsLocal (net : Net) (eff : EffectiveSettings) : Type 0 where
  on_socket : is_some eff.unix_socket ≡ true → IsLocal net eff
  on_loopback :
      (ip : net.IpAddr)
      → net.parse_ip eff.host ≡ ok ip
      → net.is_loopback ip ≡ true
      → IsLocal net eff

-- Why no token is needed.
pub data NotRequired (net : Net) (eff : EffectiveSettings) (cfg : Option Config) : Type 0 where
  switched_off : require_token_setting cfg ≡ false → NotRequired net eff cfg
  local : IsLocal net eff → allow_insecure_loopback cfg ≡ true → NotRequired net eff cfg

-- How a service that starts guards its routes.
pub data Guard (net : Net) (eff : EffectiveSettings) (cfg : Option Config) (secrets : SecretStore)
    (token : Option Text) : Type 0 where
  unguarded : token ≡ none → NotRequired net eff cfg → Guard net eff cfg secrets token
  guarded :
      (expected : Text)
      → token ≡ some expected
      → secrets (token_env cfg) ≡ some expected
      → is_empty (trim expected) ≡ false
      → Guard net eff cfg secrets token

on_address :
    (net : Net) (eff : EffectiveSettings) (cfg : Option Config)
    → compute_token_required net eff.host (allow_insecure_loopback cfg) (require_token_setting cfg)
      ≡ ok false
    → NotRequired net eff cfg
unfolding compute_token_required
on_address net eff cfg h =
    let (ip, parsed, h1) = bind-ok (net.parse_ip eff.host) _ false h in
    elim (Bool-cases (require_token_setting cfg)) [
      | inr off ↦ switched_off off
      | inl on ↦ local (on_loopback ip parsed (ground (arith, h1))) (ground (arith, h1))
    ]

allowed : (b : Bool) → ◌≡◌ {A = Fallible Bool} (ok (not b && true)) (ok false) → b ≡ true
allowed true h = refl
allowed false h = absurd (cc)

filled_token :
    (name expected : Text) (token : Option Text)
    → is_empty (trim expected) ≡ false
    → non_blank_token name (some expected) ≡ ok token
    → token ≡ some expected
unfolding non_blank_token
filled_token name expected token filled h = cc (rw filled at h)

not_required :
    (net : Net) (eff : EffectiveSettings) (cfg : Option Config)
    → token_required net eff cfg ≡ ok false
    → NotRequired net eff cfg
unfolding token_required
not_required net eff cfg h = elim (Bool-cases (is_some eff.unix_socket)) [
  | inr address ↦ on_address net eff cfg (rw address at h)
  | inl socket ↦ elim (Bool-cases (require_token_setting cfg)) [
    | inr off ↦ switched_off off
    | inl on ↦
        local (on_socket socket) (allowed (allow_insecure_loopback cfg) (rw (socket, on) at h))
  ]
]

pub unguarded_or_guarded :
    (net : Net) (eff : EffectiveSettings) (cfg : Option Config) (secrets : SecretStore)
    (required : Bool) (token : Option Text)
    → token_required net eff cfg ≡ ok required
    → resolve_token required secrets (token_env cfg) ≡ ok token
    → Guard net eff cfg secrets token
unfolding resolve_token non_blank_token
unguarded_or_guarded net eff cfg secrets false token needs h =
    unguarded (cc) (not_required net eff cfg needs)
unguarded_or_guarded net eff cfg secrets true token needs h = found (secrets (token_env cfg)) refl h
  where
    found :
        (o : Option Text)
        → secrets (token_env cfg) ≡ o
        → non_blank_token (token_env cfg) o ≡ ok token
        → Guard net eff cfg secrets token
    found none e h = absurd (cc)
    found (some expected) e h = elim (Bool-cases (is_empty (trim expected))) [
      | inl blank ↦ absurd (cc (rw blank at h))
      | inr filled ↦
          guarded expected (filled_token (token_env cfg) expected token filled h) e filled
    ]

-- A service that starts guards its routes with the token of its secret store, which is not blank,
-- or needs none: that is so only where the configuration switches tokens off, or the service listens
-- on a unix socket or a loopback address and tokens are optional there. A token that is needed and
-- missing ends the start.
pub start_token-Guard :
    (net : Net) (eff : EffectiveSettings) (cfg : Option Config) (secrets : SecretStore)
    (token : Option Text)
    → start_token net eff cfg secrets ≡ ok token
    → Guard net eff cfg secrets token
unfolding start_token
start_token-Guard net eff cfg secrets token h =
    let (required, needs, h1) = bind-ok (token_required net eff cfg) _ token h in
    unguarded_or_guarded net eff cfg secrets required token needs h1

-- Whichever way the policies of a service come about, from a file or from its secrets, a store that
-- it starts with has the policy `default`.
pub build_policy_store-HasDefault :
    (u : Unicode) (secrets : SecretStore) (file : Option PoliciesFile) (store : PolicyStore)
    → build_policy_store u secrets file ≡ ok store
    → HasDefault store
unfolding build_policy_store
build_policy_store-HasDefault u secrets none store h =
    subst HasDefault (ok_injective h) (default_from_env-HasDefault _ _ _ _)
build_policy_store-HasDefault u secrets (some f) store h =
    let (pf, loaded, h1) = bind-ok (Policy.load f.read f.from_str f.path) _ store h in
    let same : from_file pf ≡ store = cc in
    subst HasDefault same (load-HasDefault f.read f.from_str f.path pf loaded)
