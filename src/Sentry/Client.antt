-- ===== src/Sentry/Client.antt =====
-- The model clients of sentry.rs: one HTTP call, then a pointer into the response.
pub mod Laws
use acip_sidecar.Prelude.{ℕ, Option, none, some, List, [], ◌∷◌, ◌++◌, Result, ok, err, ◌>>=◌}
use acip_sidecar.Text.{Text, text}
use acip_sidecar.Json.{
  Value, num, str, arr, obj, nil, cons, Fields, end, field, Fallible, context, ok_or, as_str,
  SerdeJson,
}
use acip_sidecar.Policy.{Provider, gemini, anthropic}

pub record HttpRequest : Type 0 where
  pub url : Text
  pub headers : List (Text × Text)
  pub body : Value

-- The crate reqwest: sending, `error_for_status` and `json` may each fail.
pub record Http : Type 1 where
  pub Response : Type 0
  pub send : HttpRequest → Fallible Response
  pub error_for_status : Response → Fallible Response
  pub json : Response → Fallible Value

abbrev pub SecretStore : Type 0
SecretStore = Text → Option Text

module _ (http : Http) (serde : SerdeJson) (secrets : SecretStore) where
  pub generate_gemini : Text → Text → Fallible Text
  generate_gemini model prompt = do
    key ← ok_or (secrets (text "GEMINI_API_KEY")) (text "GEMINI_API_KEY not set")
    sent ←
        context
          (http.send (record {
            url =
                text "https://generativelanguage.googleapis.com/v1beta/models/"
                ++ (model ++ (text ":generateContent?key=" ++ key));
            headers = [];
            body = obj (
                field (text "contents")
                  (arr (
                    cons
                      (obj (
                        field (text "role") (str (text "user")) (
                          field (text "parts")
                            (arr (cons (obj (field (text "text") (str prompt) end)) nil)) end)))
                      nil))
                  (field (text "generationConfig")
                    (obj (
                      field (text "temperature") (num 0)
                        (field (text "maxOutputTokens") (num 1024) end)))
                    end));
          }))
          (text "gemini request failed")
    good ← context (http.error_for_status sent) (text "gemini non-2xx")
    resp ← context (http.json good) (text "gemini response not json")
    found ←
        ok_or (serde.pointer resp (text "/candidates/0/content/parts/0/text"))
          (text "gemini response missing text")
    ok_or (as_str found) (text "gemini response missing text")

  pub generate_anthropic : Text → Text → Fallible Text
  generate_anthropic model prompt = do
    key ← ok_or (secrets (text "ANTHROPIC_API_KEY")) (text "ANTHROPIC_API_KEY not set")
    sent ←
        context
          (http.send (record {
            url = text "https://api.anthropic.com/v1/messages";
            headers = (text "x-api-key", key) ∷ (text "anthropic-version", text "2023-06-01") ∷ [];
            body = obj (
                field (text "model") (str model) (
                  field (text "max_tokens") (num 1024) (
                    field (text "temperature") (num 0) (
                      field (text "messages")
                        (arr (
                          cons
                            (obj (
                              field (text "role") (str (text "user"))
                                (field (text "content") (str prompt) end)))
                            nil))
                        end))));
          }))
          (text "anthropic request failed")
    good ← context (http.error_for_status sent) (text "anthropic non-2xx")
    resp ← context (http.json good) (text "anthropic response not json")
    found ←
        ok_or (serde.pointer resp (text "/content/0/text")) (text "anthropic response missing text")
    ok_or (as_str found) (text "anthropic response missing text")

  -- The boxed client that a policy's provider selects.
  unfoldable pub client : Provider → Text → Text → Fallible Text
  unfolding generate_gemini generate_anthropic
  client gemini = generate_gemini
  client anthropic = generate_anthropic
