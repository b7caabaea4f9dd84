-- ===== src/Service/Tests.antt =====
-- The service at concrete requests, with a token.
use acip_sidecar.Prelude.{◌≡◌, refl, ◌≢◌, true, some, List, [], ◌∷◌, ok}
use acip_sidecar.Text.{Text, text, text_eq}
use acip_sidecar.Headers.{HeaderMap}
use acip_sidecar.TokenAuth.{pass, token_auth_middleware}
use acip_sidecar.Ingest.{World}
use acip_sidecar.Ingest.Samples.{crates, state, no_keys, stub_open_world, request, header}
use acip_sidecar.Service.{HttpRequest, Axum, serve, serve_all}
use acip_sidecar.Service.Laws.{History, admitted, Public, serve_all-History, serve-Public}

abbrev axum : Axum
axum = record {
  unmatched = λ r. 404;
  is_json = λ headers. true;
  from_json = λ body. ok (request (text "hi"));
}

abbrev ingest_with : HeaderMap → HttpRequest
ingest_with headers = record {
  method = text "POST";
  path = text "/v1/acip/ingest_source";
  headers = headers;
  body = text "{}";
}

-- One request with the token, and one without.
abbrev requests : List (World × HttpRequest)
requests =
    (stub_open_world, ingest_with (header (text "x-acip-token") (text "t")))
    ∷ (stub_open_world, ingest_with (λ n. []))
    ∷ []

one_admitted : admitted (some (text "t")) requests ≡ 1
unfolding text token_auth_middleware acip_sidecar.TokenAuth.constant_time_eq
    acip_sidecar.Text.as_bytes acip_sidecar.Text.trim acip_sidecar.Text.encode text_eq
one_admitted = refl

serve_all-History_example :
    History []
      (admitted (some (text "t")) requests)
      (serve_all axum (text "1.0") (some (text "t")) crates (state no_keys) requests).1
serve_all-History_example =
    serve_all-History axum (text "1.0") (some (text "t")) crates (state no_keys) requests

lacks_token : token_auth_middleware (some (text "t")) (λ n. []) ≢ pass
unfolding token_auth_middleware
lacks_token = λ q. cc

serve-Public_example :
    Public
      (serve axum
        (text "1.0")
        (some (text "t"))
        crates
        stub_open_world
        (state no_keys)
        (ingest_with (λ n. []))).0
serve-Public_example =
    serve-Public axum (text "1.0") (some (text "t")) crates stub_open_world (state no_keys)
      (ingest_with (λ n. [])) lacks_token
