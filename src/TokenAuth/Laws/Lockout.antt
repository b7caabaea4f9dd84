-- ===== src/TokenAuth/Laws/Lockout.antt =====
-- A token that is configured with whitespace around it.
use acip_sidecar.Prelude.{◌<◌, ◌≡◌, ◌∙◌, sym, ap, ◌≢◌, some, [], ◌∷◌}
use acip_sidecar.Text.{Text, text, trim}
use acip_sidecar.Text.Trim.{trim-trim, All-trim}
use acip_sidecar.Text.Utf8.{InRange, as_bytes-injective}
use acip_sidecar.Headers.{HeaderMap}
use acip_sidecar.TokenAuth.{pass, token_auth_middleware}
use acip_sidecar.TokenAuth.Laws.Middleware.{token_auth_middleware_iff}

-- Since the middleware trims the request's token and not the expected one, an expected token with
-- whitespace at either end locks every request out, the ones that send just that token included.
pub token_auth_middleware-lockout :
    (expected : Text) (headers : HeaderMap)
    → trim expected ≢ expected
    → InRange expected
    → ((value : Text) → headers (text "x-acip-token") ≡ some value ∷ [] → InRange value)
    → token_auth_middleware (some expected) headers ≢ pass
token_auth_middleware-lockout expected headers padded in_range readable passed =
    let b = (token_auth_middleware_iff expected headers).0 passed in
    let same =
      as_bytes-injective (trim b.value) expected
        (All-trim (λ c. c < 0x110000) b.value (readable b.value b.only)) in_range b.same in
    padded (ap trim (sym same) ∙ trim-trim b.value ∙ same)
