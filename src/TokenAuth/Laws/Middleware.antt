-- ===== src/TokenAuth/Laws/Middleware.antt =====
-- Which requests the middleware of token_auth.rs lets through.
use acip_sidecar.Prelude.{◌≡◌, refl, ◌↔◌, inl, inr, Option, none, some, List, [], ◌∷◌, Bool-cases}
use acip_sidecar.Text.{Text, text, as_bytes, trim}
use acip_sidecar.Headers.{HeaderMap}
use acip_sidecar.TokenAuth.{
  constant_time_eq, pass, check_value, check_values, token_auth_middleware,
}
use acip_sidecar.TokenAuth.Laws.{constant_time_eq_iff}

-- A request with exactly one token, which is readable and, trimmed, has the expected bytes.
pub record Bears (expected : Text) (headers : HeaderMap) : Type 0 where
  pub value : Text
  pub only : headers (text "x-acip-token") ≡ some value ∷ []
  pub same : as_bytes (trim value) ≡ as_bytes expected

check_value→bytes :
    (expected value : Text)
    → check_value expected (some value) ≡ pass
    → as_bytes (trim value) ≡ as_bytes expected
unfolding check_value
check_value→bytes expected value h = elim (Bool-cases (constant_time_eq (trim value) expected)) [
  | inl equal ↦ (constant_time_eq_iff (trim value) expected).0 equal
  | inr differ ↦ absurd (cc (rw differ at h))
]

bytes→check_value :
    (expected value : Text)
    → as_bytes (trim value) ≡ as_bytes expected
    → check_value expected (some value) ≡ pass
unfolding check_value
bytes→check_value expected value e = rw ((constant_time_eq_iff (trim value) expected).1 e) refl

pass→only :
    (expected : Text) (values : List (Option Text))
    → check_values expected values ≡ pass
    → (value : Text) × (values ≡ some value ∷ []) × (as_bytes (trim value) ≡ as_bytes expected)
unfolding check_values check_value
pass→only expected [] h = absurd (cc)
pass→only expected (none ∷ []) h = absurd (cc)
pass→only expected (some value ∷ []) h = (value, refl, check_value→bytes expected value h)
pass→only expected (v ∷ w ∷ rest) h = absurd (cc)

-- With an expected token, a request passes exactly if it has one token header, whose value is
-- readable and, once trimmed, has the bytes of the expected token.
pub token_auth_middleware_iff :
    (expected : Text) (headers : HeaderMap)
    → (token_auth_middleware (some expected) headers ≡ pass) ↔ Bears expected headers
unfolding token_auth_middleware check_values
token_auth_middleware_iff expected headers = (
  λ h.
      let (value, only, same) = pass→only expected _ h in
      record { value = value; only = only; same = same },
  λ b. rw b.only (bytes→check_value expected b.value b.same),
)
