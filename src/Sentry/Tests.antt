-- ===== src/Sentry/Tests.antt =====
-- The engine with clients that answer, and the search for JSON in an output.
use acip_sidecar.Prelude.{◌≡◌, refl, none, ok, err}
use acip_sidecar.Text.{Text, text}
use acip_sidecar.Environment.{Env}
use acip_sidecar.Json.{null}
use acip_sidecar.Policy
use acip_sidecar.Policy.{PolicyConfig}
use acip_sidecar.Ingest.Samples.{json, reader, permissive}
use acip_sidecar.Sentry.Parse.{parse_and_validate_decision, extract_json_only}
use acip_sidecar.Sentry.Parse.Accepted.{Accepted, parse_and_validate_decision-Accepted}
use acip_sidecar.Sentry.Engine.{DecisionEngine, decide}
use acip_sidecar.Sentry.Engine.Laws.{Judged, decide-Judged}

abbrev no_env : Env
no_env = λ n. none

abbrev chatty : Text
chatty = text "So: {} (done)"

-- L1 gives JSON with prose around it, and L2 fails.
abbrev engine : DecisionEngine
engine = record { l1 = λ m p. ok chatty; l2 = λ m p. err (text "down") }

chatty_part : extract_json_only json chatty ≡ text "{}"
unfolding extract_json_only text acip_sidecar.Text.starts_with acip_sidecar.Text.trim_start
    acip_sidecar.Text.text_eq
chatty_part = refl

chatty_reads : parse_and_validate_decision reader no_env chatty ≡ ok permissive
unfolding parse_and_validate_decision extract_json_only text acip_sidecar.Text.starts_with
    acip_sidecar.Text.trim_start acip_sidecar.Text.trim acip_sidecar.Text.text_eq
chatty_reads = refl

decide-Judged_example :
    Judged reader no_env
      (ok chatty)
      (err (text "down"))
      (text "fence")
      (decide reader no_env engine (text "default") Policy.default null (text "fence"))
decide-Judged_example =
    decide-Judged reader no_env engine (text "default") Policy.default null (text "fence")

parse_and_validate_decision-Accepted_example : Accepted reader no_env chatty permissive
parse_and_validate_decision-Accepted_example =
    parse_and_validate_decision-Accepted reader no_env chatty permissive chatty_reads
