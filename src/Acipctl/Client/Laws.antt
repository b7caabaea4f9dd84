-- ===== src/Acipctl/Client/Laws.antt =====
-- What the service makes of the requests that bin/acipctl.rs sends.
use acip_sidecar.Prelude.{
  ◌≡◌, refl, ◌∙◌, Bool, true, false, Option, none, some, if◌then◌else◌, is_empty, all, leb, ◌&&◌,
  ◌||◌, ◌==◌, not, Bool-cases, inl, inr,
}
use acip_sidecar.Text.{Text, text, text_eq, trim, ascii_lower, to_ascii_lowercase, Unicode}
use acip_sidecar.Headers.{policy_name_from_headers, allow_tools_from_headers}
use acip_sidecar.TokenAuth.{missing, token_auth_middleware}
use acip_sidecar.Acipctl.Client.{to_str, given_policy, request_headers}

-- Visible ASCII, spaces and tabs.
abbrev pub is_visible : Text → Bool
is_visible = all (λ c. (leb 32 c && leb c 126) || c == 9)

-- The policy that the service takes for a name that is given to the tool.
abbrev pub selected : Option Text → Text
selected none = text "default"
selected (some p) = if is_visible p && not (is_empty (trim p)) then trim p else text "default"

lowered : ascii_lower (text "true") ≡ text "true"
unfolding ascii_lower to_ascii_lowercase text
lowered = refl

lower_true : (u : Unicode) → u.to_lowercase (text "true") ≡ text "true"
unfolding text
lower_true u = u.to_lowercase-ascii (text "true") refl ∙ lowered

tools_authorized :
    (u : Unicode) (allow_tools : Bool) (policy : Option Text)
    → allow_tools_from_headers u (request_headers allow_tools policy) ≡ allow_tools
unfolding allow_tools_from_headers request_headers text text_eq trim
tools_authorized u true policy = rw (lower_true u) refl
tools_authorized u false policy = refl

policy_selected :
    (allow_tools : Bool) (policy : Option Text)
    → policy_name_from_headers (request_headers allow_tools policy) ≡ selected policy
unfolding policy_name_from_headers request_headers given_policy text text_eq to_str
policy_selected allow_tools none = refl
policy_selected allow_tools (some p) = elim (Bool-cases (is_visible p)) [
  | inl visible ↦ elim (Bool-cases (is_empty (trim p))) [
    | inl blank ↦ rw (visible, blank) refl
    | inr filled ↦ rw (visible, filled) refl
  ]
  | inr hidden ↦ rw hidden refl
]

-- A request that the command-line tool sends authorizes tools at the service exactly if its flag says
-- so. It selects the policy that the tool is given, trimmed, if that is visible ASCII and not blank;
-- for any other name, or none, the service takes the default policy and reports no error. The request
-- carries no token, so that a service which needs one refuses it as lacking it.
pub request_headers_lem :
    (u : Unicode) (allow_tools : Bool) (policy : Option Text) (expected : Text)
    → (allow_tools_from_headers u (request_headers allow_tools policy) ≡ allow_tools)
      × (policy_name_from_headers (request_headers allow_tools policy) ≡ selected policy)
      × (token_auth_middleware (some expected) (request_headers allow_tools policy) ≡ missing)
unfolding token_auth_middleware request_headers text text_eq
request_headers_lem u allow_tools policy expected =
    (tools_authorized u allow_tools policy, policy_selected allow_tools policy, refl)
