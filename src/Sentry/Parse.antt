-- ===== src/Sentry/Parse.antt =====
-- Reading a model's output: `extract_json_only`, `parse_json_strict` and
-- `parse_and_validate_decision` of sentry.rs.
pub mod Laws
pub mod Accepted
use mathlib.Core.List.{reverse}
use acip_sidecar.Prelude.{
  ℕ, zero, suc, ◌+◌, Bool, true, false, ◌&&◌, ◌||◌, Option, none, some, List, [], ◌∷◌, ◌++◌, Result,
  ok, err, ◌>>=◌, ◌==◌, if◌then◌else◌, is_empty, take, min, length,
}
use acip_sidecar.Text.{Text, text, text_eq, trim, trim_start, starts_with, join}
use acip_sidecar.Json.{Value, Fallible, context, is_container, SerdeJson}
use acip_sidecar.Environment.{Env}
use acip_sidecar.Sentry.{Decision}
use acip_sidecar.Sentry.Schema.{decision_schema}

-- The crates behind the reading of a decision. `validate schema v` lists the errors of `v`, none
-- if it is valid; `from_value` is the derived deserializer of `Decision`.
pub record DecisionReader : Type 0 where
  pub json : SerdeJson
  pub open json use *
  pub validate : Value → Value → List Text
  pub from_value : Value → Fallible Decision

-- `{` and `[`, `}` and `]`.
abbrev pub opens : ℕ → Bool
opens c = c == 0x7b || c == 0x5b

abbrev pub closes : ℕ → Bool
closes c = c == 0x7d || c == 0x5d

abbrev is_ok {ℓ} : {A : Type ℓ} → Result Text A → Bool
is_ok (ok a) = true
is_ok (err e) = false

-- The text from the first `{` or `[` on.
unfoldable pub from_start : Text → Option Text
from_start [] = none
from_start (c ∷ s) = if opens c then some (c ∷ s) else from_start s

-- The walk backwards over the end positions: the text that starts at `start` is given reversed,
-- and each round takes its last character. The first position itself is not tried.
unfoldable pub last_parsing : SerdeJson → Text → Option Text
last_parsing json [] = none
last_parsing json (c ∷ []) = none
last_parsing json (c ∷ d ∷ r) =
    let candidate = reverse (c ∷ d ∷ r) in
    let shorter = last_parsing json (d ∷ r) in
    if closes c && is_ok (json.from_str candidate) then some candidate else shorter

candidate_or : SerdeJson → Text → Option Text → Text
candidate_or json s none = s
candidate_or json s (some tail) = elim (last_parsing json (reverse tail)) [ none ↦ s | some c ↦ c ]

unfoldable pub extract_json_only : SerdeJson → Text → Text
unfolding from_start last_parsing candidate_or
extract_json_only json s =
    if starts_with (trim_start s) (0x7b ∷ []) || starts_with (trim_start s) (0x5b ∷ [])
    then s
    else candidate_or json s (from_start s)

abbrev is_one : Option Text → Bool
is_one none = false
is_one (some v) = text_eq v (text "1")

unfoldable pub strict_json_enabled : Env → Bool
strict_json_enabled env = is_one (env (text "ACIP_SENTRY_JSON_STRICT"))

unfoldable pub parse_json_strict : SerdeJson → Text → Fallible Value
parse_json_strict json raw =
    if is_empty (trim raw) then err (text "model output is not valid JSON") else do
      v ← context (json.from_str (trim raw)) (text "model output is not valid JSON")
      if is_container v then ok v else err (text "model output must be a JSON object or array")

-- `Result::or_else`.
abbrev otherwise {ℓ} : {A : Type ℓ} → Result Text A → Result Text A → Result Text A
otherwise (ok a) b = ok a
otherwise (err e) b = b

-- The value that the rest of the function sees.
unfoldable pub read_value : DecisionReader → Env → Text → Fallible Value
unfolding strict_json_enabled parse_json_strict
read_value r env raw =
    if strict_json_enabled env
    then parse_json_strict r.json raw
    else otherwise (parse_json_strict r.json raw)
        (parse_json_strict r.json (extract_json_only r.json raw))

unfoldable pub parse_and_validate_decision : DecisionReader → Env → Text → Fallible Decision
unfolding read_value
parse_and_validate_decision r env raw = do
  v ← read_value r env raw
  let errs = r.validate decision_schema v
  if is_empty errs
      then context (r.from_value v) (text "decision JSON did not match struct")
      else err (text "decision schema validation failed: " ++ join (text "; ") (take 5 errs))
