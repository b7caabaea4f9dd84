-- ===== src/Sentry/Client/Laws.antt =====
-- The model clients of sentry.rs without their keys.
use acip_sidecar.Prelude.{◌≡◌, refl, none, err}
use acip_sidecar.Text.{Text, text}
use acip_sidecar.Json.{SerdeJson}
use acip_sidecar.Policy.{Provider, gemini, anthropic}
use acip_sidecar.Sentry.Client.{Http, SecretStore, generate_gemini, generate_anthropic, client}

pub record NoKeys (secrets : SecretStore) : Type 0 where
  pub gemini_key : secrets (text "GEMINI_API_KEY") ≡ none
  pub anthropic_key : secrets (text "ANTHROPIC_API_KEY") ≡ none

pub client-NoKeys :
    (http : Http) (json : SerdeJson) (secrets : SecretStore) (p : Provider) (model prompt : Text)
    → NoKeys secrets
    → (e : Text) × (client http json secrets p model prompt ≡ err e)
unfolding client generate_gemini generate_anthropic
client-NoKeys http json secrets gemini model prompt h =
    (text "GEMINI_API_KEY not set", rw h.gemini_key refl)
client-NoKeys http json secrets anthropic model prompt h =
    (text "ANTHROPIC_API_KEY not set", rw h.anthropic_key refl)
