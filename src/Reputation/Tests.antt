-- ===== src/Reputation/Tests.antt =====
-- The reputation store and its policy at concrete records.
use acip_sidecar.Prelude.{ℕ, ◌≡◌, refl, ◌⊎◌, Bool, true, false, Option, none, some, List, [], ◌∷◌}
use acip_sidecar.Text.{Text, text}
use acip_sidecar.Sentry.{Decision, high, needs_review, block}
use acip_sidecar.Ingest.Samples.{floats, permissive}
use acip_sidecar.Reputation.{ReputationRecord, Observation, fresh, stored}
use acip_sidecar.Reputation.History.{
  record_all, seen, attacks, total_score, Counts, record_all-Counts,
}
use acip_sidecar.Reputation.Escalation.{
  ReputationThresholds, effective_risk_score, apply_reputation,
}
use acip_sidecar.Reputation.Escalation.Cutoff.{reaches, apply_reputation-bad_actor}

abbrev seen_from : Option Text → ℕ → Observation
seen_from host score = record {
  source_id = text "a";
  host = host;
  threat_score = score;
  attack_types = [];
  now_unix = 1000;
}

abbrev history : List Observation
history =
    seen_from none 5
    ∷ seen_from (some (text "example.org")) 0
    ∷ seen_from (some (text "example.org")) 7
    ∷ []

record_all-Counts_example :
    Counts
      (stored (record_all [] history) (text "host:example.org"))
      (seen (text "host:example.org") history)
      (attacks (text "host:example.org") history)
      (total_score (text "host:example.org") history)
record_all-Counts_example = record_all-Counts (text "host:example.org") history

abbrev with_risk : ℕ → ReputationRecord
with_risk n = record (fresh (text "source_id:a")) { last_seen_unix = 1000; risk_score = n }

abbrev thresholds : ReputationThresholds floats
thresholds = record {
  medium_score = 20;
  high_score = 50;
  bad_actor_score = 150;
  half_life_base_days = 2000;
  half_life_k = 500;
}

abbrev records : List ReputationRecord
records = with_risk 10 ∷ with_risk 200 ∷ with_risk 30 ∷ []

reached : (n : ℕ) → Bool
reached n = reaches floats 1000 thresholds n records

bad : reached 150 ≡ true
unfolding reached effective_risk_score
bad = refl

risky : reached 50 ≡ true
unfolding reached effective_risk_score
risky = refl

abbrev outcome : Decision
outcome = apply_reputation floats 1000 permissive true records thresholds

apply_reputation-bad_actor_example :
    (outcome.tools_allowed ≡ false)
    × (outcome.risk_level ≡ high)
    × ((outcome.action ≡ needs_review) ⊎ (outcome.action ≡ block))
unfolding reached
apply_reputation-bad_actor_example =
    apply_reputation-bad_actor floats 1000 permissive true records thresholds bad

tools_kept :
    (apply_reputation floats 1000 permissive true (with_risk 30 ∷ []) thresholds).tools_allowed
    ≡ true
unfolding apply_reputation effective_risk_score text
tools_kept = refl
