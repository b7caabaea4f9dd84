-- ===== src/Sentry/Engine/Laws.antt =====
-- How the two-tier engine of sentry.rs comes to its decision.
use acip_sidecar.Prelude.{
  ◌≡◌, refl, ◌⊎◌, inl, inr, false, Option, none, some, List, ok, err, Result-cases,
}
use acip_sidecar.Text.{Text}
use acip_sidecar.Json.{Value, Fallible}
use acip_sidecar.Environment.{Env}
use acip_sidecar.Policy.{PolicyConfig}
use acip_sidecar.Sentry.{Decision, high, needs_review, fail_closed}
use acip_sidecar.Sentry.Parse.{DecisionReader, parse_and_validate_decision}
use acip_sidecar.Sentry.Engine.{DecisionEngine, build_prompt, first_tier, second_tier, decide}

-- The decision that fails closed.
pub record IsClosed (fenced : Text) (d : Decision) : Type 0 where
  pub tools : d.tools_allowed ≡ false
  pub risk : d.risk_level ≡ high
  pub action : d.action ≡ needs_review
  pub content : d.fenced_content ≡ fenced

module _ (r : DecisionReader) (env : Env) where
  -- An output that is read as a decision.
  abbrev pub Reads : Fallible Text → Decision → Type 0
  Reads answer d = (out : Text) × (answer ≡ ok out) × (parse_and_validate_decision r env out ≡ ok d)

  -- A call that gives no decision, and why.
  pub data Fails (answer : Fallible Text) : Type 0 where
    call_failed : (e : Text) → answer ≡ err e → Fails answer
    output_invalid :
        (out e : Text)
        → answer ≡ ok out
        → parse_and_validate_decision r env out ≡ err e
        → Fails answer

  read_or_fail : (answer : Fallible Text) → ((d : Decision) × Reads answer d) ⊎ Fails answer
  read_or_fail (err e) = inr (call_failed e refl)
  read_or_fail (ok out) = elim (Result-cases (parse_and_validate_decision r env out)) [
    | inl (d, parsed) ↦ inl (d, (out, refl, parsed))
    | inr (e, failed) ↦ inr (output_invalid out e refl failed)
  ]

  first_tier-Reads :
      (answer : Fallible Text) (d : Decision) → Reads answer d → first_tier r env answer ≡ some d
  unfolding first_tier
  first_tier-Reads answer d (out, e, parsed) = rw (e, parsed, first_tier)

  first_tier-Fails : (answer : Fallible Text) → Fails answer → first_tier r env answer ≡ none
  unfolding first_tier
  first_tier-Fails answer (call_failed e same) = rw same
  first_tier-Fails answer (output_invalid out e same failed) = rw (same, failed, first_tier)

  second_tier-Reads :
      (fenced : Text) (answer : Fallible Text) (d : Decision)
      → Reads answer d
      → second_tier r env fenced answer ≡ d
  unfolding second_tier
  second_tier-Reads fenced answer d (out, e, parsed) = rw (e, parsed, second_tier)

  fail_closed-IsClosed :
      (fenced : Text) (reasons : List Text) → IsClosed fenced (fail_closed fenced reasons)
  unfolding fail_closed
  fail_closed-IsClosed fenced reasons = record {
    tools = refl;
    risk = refl;
    action = refl;
    content = refl;
  }

  second_tier-Fails :
      (fenced : Text) (answer : Fallible Text)
      → Fails answer
      → IsClosed fenced (second_tier r env fenced answer)
  unfolding second_tier
  second_tier-Fails fenced answer (call_failed e same) = rw same (fail_closed-IsClosed fenced _)
  second_tier-Fails fenced answer (output_invalid out e same failed) =
      rw (same, failed, second_tier) (fail_closed-IsClosed fenced _)

  -- How the engine comes to its decision.
  pub data Judged (a1 a2 : Fallible Text) (fenced : Text) (d : Decision) : Type 0 where
    by_l1 : Reads a1 d → Judged a1 a2 fenced d
    by_l2 : Fails a1 → Reads a2 d → Judged a1 a2 fenced d
    closed : Fails a1 → Fails a2 → IsClosed fenced d → Judged a1 a2 fenced d

  after_l1 : Text → Fallible Text → Option Decision → Decision
  after_l1 fenced a2 o = elim o [ some x ↦ x | none ↦ second_tier r env fenced a2 ]

  judge_l2 :
      (a1 a2 : Fallible Text) (fenced : Text)
      → Fails a1
      → Judged a1 a2 fenced (second_tier r env fenced a2)
  judge_l2 a1 a2 fenced failed1 = elim (read_or_fail a2) [
    | inl (d, reads) ↦ rw (second_tier-Reads fenced a2 d reads) (by_l2 failed1 reads)
    | inr failed2 ↦ closed failed1 failed2 (second_tier-Fails fenced a2 failed2)
  ]

  judge :
      (a1 a2 : Fallible Text) (fenced : Text)
      → Judged a1 a2 fenced (after_l1 fenced a2 (first_tier r env a1))
  unfolding after_l1
  judge a1 a2 fenced = elim (read_or_fail a1) [
    | inl (d, reads) ↦ rw (first_tier-Reads a1 d reads) (by_l1 reads)
    | inr failed ↦ rw (first_tier-Fails a1 failed) (judge_l2 a1 a2 fenced failed)
  ]

-- The engine's decision is what L1's output reads as, if it reads as one; else what L2's output
-- reads as; and where both fail it allows no tools, has high risk, asks for review and carries the
-- fenced content that the engine was given.
pub decide-Judged :
    (r : DecisionReader) (env : Env) (engine : DecisionEngine) (policy_name : Text)
    (policy : PolicyConfig) (source_meta : Value) (fenced : Text)
    → Judged r env
        (engine.l1 policy.l1.model (build_prompt r env policy_name policy source_meta fenced))
        (engine.l2 policy.l2.model (build_prompt r env policy_name policy source_meta fenced))
        fenced
        (decide r env engine policy_name policy source_meta fenced)
unfolding decide after_l1
decide-Judged r env engine policy_name policy source_meta fenced = judge r env _ _ fenced
