-- ===== src/Sentry/Engine.antt =====
-- `DecisionEngine` of sentry.rs.
pub mod Laws
use acip_sidecar.Prelude.{Option, none, some, [], ◌∷◌, ◌++◌, Result, ok, err}
use acip_sidecar.Text.{Text, text}
use acip_sidecar.Json.{Value, Fallible}
use acip_sidecar.Environment.{Env}
use acip_sidecar.Policy
use acip_sidecar.Policy.{PolicyConfig}
use acip_sidecar.Sentry.{Decision, fail_closed}
use acip_sidecar.Sentry.Schema.{decision_schema}
use acip_sidecar.Sentry.Parse.{DecisionReader, parse_and_validate_decision}

-- A model client: the model's name and the prompt to the output or an error.
abbrev pub ModelClient : Type 0
ModelClient = Text → Text → Fallible Text

pub record DecisionEngine : Type 0 where
  pub l1 : ModelClient
  pub l2 : ModelClient

module _ (r : DecisionReader) (env : Env) where
  unfoldable pub build_prompt : Text → PolicyConfig → Value → Text → Text
  build_prompt policy_name policy source_meta fenced_external =
      text
        "You are ACIP Sentry. Output MUST be a single JSON object that validates against the provided schema. Output JSON only (no prose).\n\nPolicy name: "
      ++ (policy_name
          ++ (text "\nL1: "
              ++ (Policy.debug policy.l1.provider
                  ++ (text "/"
                      ++ (policy.l1.model
                          ++ (text "\nL2: "
                              ++ (Policy.debug policy.l2.provider
                                  ++ (text "/"
                                      ++ (policy.l2.model
                                          ++ (text "\n\nSchema (draft 2020-12 JSON Schema):\n"
                                              ++ (r.to_string decision_schema
                                                  ++ (text "\n\nSource meta (JSON):\n"
                                                      ++ (r.to_string source_meta
                                                          ++ (text
                                                            "\n\nContent (external, possibly truncated):\n"
                                                            ++ (fenced_external
                                                            ++ text
                                                            "\n\nDecide if tools are allowed. If uncertain, fail closed: tools_allowed=false, action=needs_review, risk_level=high.")))))))))))))))

  -- The L1 call: a decision, or nothing where the call or the reading of its output fails.
  unfoldable pub first_tier : Fallible Text → Option Decision
  first_tier (err e) = none
  first_tier (ok out) = elim (parse_and_validate_decision r env out) [
    | ok d ↦ some d
    | err e ↦ none
  ]

  -- The L2 call, whose failures are final.
  unfoldable pub second_tier : Text → Fallible Text → Decision
  second_tier fenced_external (err e) =
      fail_closed fenced_external ((text "L1 failed; L2 failed: " ++ e) ∷ [])
  second_tier fenced_external (ok out) = elim (parse_and_validate_decision r env out) [
    | ok d ↦ d
    | err e ↦ fail_closed fenced_external ((text "L1 failed; L2 invalid: " ++ e) ∷ [])
  ]

  unfoldable pub decide : DecisionEngine → Text → PolicyConfig → Value → Text → Decision
  unfolding build_prompt first_tier second_tier
  decide engine policy_name policy source_meta fenced_external =
      let prompt = build_prompt policy_name policy source_meta fenced_external in
      elim (first_tier (engine.l1 policy.l1.model prompt)) [
        | some d ↦ d
        | none ↦ second_tier fenced_external (engine.l2 policy.l2.model prompt)
      ]
