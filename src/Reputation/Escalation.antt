-- ===== src/Reputation/Escalation.antt =====
-- reputation_policy.rs: how the records of a source change the decision on its content.
pub mod Laws
pub mod Verdict
pub mod Order
pub mod Cutoff
use acip_sidecar.Prelude.{
  ℕ, ◌-◌, ◌+◌, Bool, true, false, ◌&&◌, ◌||◌, not, Option, none, some, List, [], ◌∷◌, ◌++◌, ltb,
  leb, ◌==◌, if◌then◌else◌, push, unwrap_or, u64_max,
}
use acip_sidecar.Text.{Text, text, trim, parse_uint}
use acip_sidecar.Decimal.{to_decimal}
use acip_sidecar.Environment.{Env}
use acip_sidecar.Floats.{Floats}
use acip_sidecar.Reputation.{ReputationRecord}
use acip_sidecar.Sentry.{
  Decision, RiskLevel, low, medium, high, Action, allow, sanitize, block, needs_review,
}

module _ (f : Floats) where
  pub record ReputationThresholds : Type 0 where
    pub medium_score : ℕ
    pub high_score : ℕ
    pub bad_actor_score : ℕ
    pub half_life_base_days : f.F
    pub half_life_k : f.F

  env_uint : Env → Text → ℕ → ℕ
  env_uint env name default = elim (env name) [
    | none ↦ default
    | some v ↦ unwrap_or (parse_uint u64_max (trim v)) default
  ]

  env_float : Env → Text → f.F → f.F
  env_float env name default = elim (env name) [
    | none ↦ default
    | some v ↦ unwrap_or (f.parse (trim v)) default
  ]

  unfoldable pub from_env : Env → ReputationThresholds
  unfolding env_uint env_float
  from_env env = record {
    medium_score = env_uint env (text "ACIP_REP_MED") 20;
    high_score = env_uint env (text "ACIP_REP_HIGH") 50;
    bad_actor_score = env_uint env (text "ACIP_REP_BAD") 150;
    half_life_base_days = env_float env (text "ACIP_REP_HALFLIFE_BASE_DAYS") (f.lit 2 1);
    half_life_k = env_float env (text "ACIP_REP_HALFLIFE_K") (f.lit 1 2);
  }

  unfoldable pub effective_risk_score : ℕ → ReputationRecord → ReputationThresholds → ℕ
  effective_risk_score now_unix r t =
      let age_secs = now_unix - r.last_seen_unix in
      let age_days = f.div (f.of_uint age_secs) (f.lit 86400 1) in
      let hl_days =
        f.fmax
          (f.mul t.half_life_base_days
            (f.add (f.lit 1 1) (f.mul t.half_life_k (f.of_uint r.suspected_attack_count))))
          (f.lit 1 10) in
      let decay = f.powf (f.lit 1 2) (f.div age_days hl_days) in
      if r.risk_score == 0 then 0 else f.round_u64 (f.mul (f.of_uint r.risk_score) decay)

  -- A record with its effective risk.
  pub record Scored : Type 0 where
    pub rec : ReputationRecord
    pub eff : ℕ

  -- `(a, b) > (c, d)` on pairs.
  abbrev pub outranks : Scored → Scored → Bool
  outranks s best =
      ltb best.eff s.eff
      || (s.eff == best.eff && ltb best.rec.suspected_attack_count s.rec.suspected_attack_count)

  -- One round of the loop over the records.
  worse : Option Scored → Scored → Option Scored
  worse none s = some s
  worse (some best) s = some (if outranks s best then s else best)

  pub worst_of : ℕ → ReputationThresholds → Option Scored → List ReputationRecord → Option Scored
  unfolding effective_risk_score worse
  worst_of now t best [] = best
  worst_of now t best (r ∷ rest) =
      worst_of now t (worse best (record { rec = r; eff = effective_risk_score now r t })) rest

bump_risk_level : RiskLevel → RiskLevel
bump_risk_level low = medium
bump_risk_level medium = high
bump_risk_level high = high

-- `if !matches!(decision.action, Action::Block) { decision.action = Action::NeedsReview }`.
review_unless_block : Action → Action
review_unless_block block = block
review_unless_block _ = needs_review

-- The context reason, which is always added.
pub context_reason : Text → ℕ → ℕ → ℕ → Text
context_reason key eff raw attacks =
    text "source reputation: key="
    ++ (key
        ++ (text " effective_risk="
            ++ (to_decimal eff
                ++ (text " raw_risk="
                    ++ (to_decimal raw ++ (text " suspected_attacks=" ++ to_decimal attacks))))))

-- What follows the choice of the worst record, in the order of the code: the medium and the high
-- threshold, then either the cutoff for bad actors or the check of the authorization.
at_medium : Bool → Decision → Decision
unfolding bump_risk_level
at_medium true d = record d { risk_level = bump_risk_level d.risk_level }
at_medium false d = d

at_high : Bool → Decision → Decision
unfolding review_unless_block
at_high true d = record d { risk_level = high; action = review_unless_block d.action }
at_high false d = d

without_tools : Bool → Text → Decision → Decision
without_tools true reason d = record d { tools_allowed = false; reasons = push d.reasons reason }
without_tools false reason d = d

pub escalate : (eff medium_score high_score bad_actor_score : ℕ) → Bool → Decision → Decision
unfolding at_medium at_high without_tools
escalate eff medium_score high_score bad_actor_score allow_tools d =
    let d1 = at_high (leb high_score eff) (at_medium (leb medium_score eff) d) in
    let capped =
      without_tools d1.tools_allowed (text "tools hard-capped: source classified as bad actor")
        d1 in
    let checked =
      without_tools (d1.tools_allowed && not allow_tools) (text "tools not authorized by caller")
        d1 in
    if leb bad_actor_score eff then at_high true capped else checked

module _ (f : Floats) where
  apply_worst : Option (Scored f) → Bool → ReputationThresholds f → Decision → Decision
  unfolding escalate context_reason
  apply_worst none allow_tools t d = d
  apply_worst (some s) allow_tools t d =
      escalate s.eff t.medium_score t.high_score t.bad_actor_score allow_tools (record d {
        reasons =
            push d.reasons
              (context_reason s.rec.key s.eff s.rec.risk_score s.rec.suspected_attack_count);
      })

  -- `apply_reputation`, at the time `now`. Without records there is no worst one.
  unfoldable pub apply_reputation :
      ℕ → Decision → Bool → List ReputationRecord → ReputationThresholds f → Decision
  unfolding apply_worst worst_of
  apply_reputation now d allow_tools records t =
      apply_worst (worst_of f now t none records) allow_tools t d
