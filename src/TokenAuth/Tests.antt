-- ===== src/TokenAuth/Tests.antt =====
-- The middleware at concrete requests.
use acip_sidecar.Prelude.{◌≡◌, refl, ◌≢◌, ◌↔◌, some, [], ◌∷◌, arith}
use mathlib.Core.Path.{subst}
use acip_sidecar.Text.{Text, text, as_bytes, trim}
use acip_sidecar.Text.Utf8.{InRange}
use acip_sidecar.Headers.{HeaderMap}
use acip_sidecar.TokenAuth.{constant_time_eq, pass, token_auth_middleware}
use acip_sidecar.TokenAuth.Laws.Middleware.{Bears, token_auth_middleware_iff}
use acip_sidecar.TokenAuth.Laws.Lockout.{token_auth_middleware-lockout}

abbrev padded : Text
padded = 0x20 ∷ 0x61 ∷ []

abbrev sends : Text → HeaderMap
sends value = λ n. some value ∷ []

passes : token_auth_middleware (some (text "a")) (sends padded) ≡ pass
unfolding token_auth_middleware constant_time_eq text as_bytes trim acip_sidecar.Text.encode
passes = refl

token_auth_middleware_iff_example :
    (token_auth_middleware (some (text "a")) (sends padded) ≡ pass)
    ↔ Bears (text "a") (sends padded)
token_auth_middleware_iff_example = token_auth_middleware_iff (text "a") (sends padded)

padded-changes : trim padded ≢ padded
unfolding trim
padded-changes e = absurd (cc)

padded-InRange : InRange padded
padded-InRange = (omega arith, (omega arith, tt))

sent-InRange : (value : Text) → sends padded (text "x-acip-token") ≡ some value ∷ [] → InRange value
sent-InRange value e = let same : padded ≡ value = cc in subst InRange same padded-InRange

-- Sending just the configured token does not help.
token_auth_middleware-lockout_example : token_auth_middleware (some padded) (sends padded) ≢ pass
token_auth_middleware-lockout_example =
    token_auth_middleware-lockout padded (sends padded) padded-changes padded-InRange sent-InRange
