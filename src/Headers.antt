-- ===== src/Headers.antt =====
-- The request headers, as axum hands them over: for a name the list of its values, each read by
-- `to_str`, which is `none` where a value is not visible ASCII.
use acip_sidecar.Prelude.{
  Bool, false, ◌||◌, Option, none, some, List, [], ◌∷◌, if◌then◌else◌, is_empty,
}
use acip_sidecar.Text.{Text, text, text_eq, trim, Unicode}

abbrev pub HeaderMap : Type 0
HeaderMap = Text → List (Option Text)

-- `headers.get(name).and_then(|v| v.to_str().ok())`.
unfoldable pub get_str : HeaderMap → Text → Option Text
get_str headers name = elim (headers name) [ [] ↦ none | v ∷ rest ↦ v ]

-- `policy_name_from_headers` of routes.rs.
non_empty_or_default : Option Text → Text
non_empty_or_default none = text "default"
non_empty_or_default (some s) = let t = trim s in if is_empty t then text "default" else t

unfoldable pub policy_name_from_headers : HeaderMap → Text
unfolding get_str non_empty_or_default
policy_name_from_headers headers = non_empty_or_default (get_str headers (text "x-acip-policy"))

-- `allow_tools_from_headers` of ingest.rs.
authorizes : Unicode → Option Text → Bool
authorizes u none = false
authorizes u (some s) =
    let v = u.to_lowercase (trim s) in
    text_eq v (text "1") || text_eq v (text "true") || text_eq v (text "yes")

unfoldable pub allow_tools_from_headers : Unicode → HeaderMap → Bool
unfolding get_str authorizes
allow_tools_from_headers u headers = authorizes u (get_str headers (text "x-acip-allow-tools"))
