-- ===== src/Reputation/Escalation/Cutoff.antt =====
-- What a record at or above a cutoff does, wherever it stands among the records.
use acip_sidecar.Prelude.{
  ℕ, ◌≤◌, ◌≡◌, refl, ◌≢◌, Bool, true, false, List, [], ◌∷◌, ◌++◌, arith, leb, any, All, inl, inr,
  ◌⊎◌, Bool-cases,
}
use acip_sidecar.Floats.{Floats}
use acip_sidecar.Reputation.{ReputationRecord}
use acip_sidecar.Reputation.Escalation.{
  ReputationThresholds, Scored, worst_of, effective_risk_score, apply_reputation, apply_worst,
  context_reason, escalate,
}
use acip_sidecar.Reputation.Escalation.Laws.{
  escalate-bad_actor, escalate-high, worst_of-IsWorst, scored, NotWorse, NotWorse-le,
}
use acip_sidecar.Sentry.{Decision, high, allow, needs_review, block}

module _ (f : Floats) (now : ℕ) (t : ReputationThresholds f) where
  -- Whether a record reaches a score.
  abbrev pub reaches : ℕ → List ReputationRecord → Bool
  reaches n = any (λ r. leb n (effective_risk_score f now r t))

  reaches-worst :
      (n : ℕ) (s : Scored f) (rs : List ReputationRecord)
      → All (λ r. NotWorse f now t (scored f now t r) s) rs
      → reaches n rs ≡ true
      → n ≤ s.eff
  reaches-worst n s [] h found = absurd (cc)
  reaches-worst n s (r ∷ rs) (h, rest) found =
      elim (Bool-cases (leb n (effective_risk_score f now r t))) [
        | inl here ↦ ground (arith, NotWorse-le f now t (scored f now t r) s h)
        | inr later ↦ reaches-worst n s rs rest (ground arith)
      ]

  -- The decision after the worst record of a list, at or above the score.
  record AtWorst (n : ℕ) (allow_tools : Bool) (d : Decision) (out : Decision) : Type 0 where
    eff : ℕ
    noted : Decision
    reached : n ≤ eff
    same : out ≡ escalate eff t.medium_score t.high_score t.bad_actor_score allow_tools noted

  at_worst :
      (n : ℕ) (allow_tools : Bool) (d : Decision) (rs : List ReputationRecord)
      → reaches n rs ≡ true
      → AtWorst n allow_tools d (apply_reputation f now d allow_tools rs t)
  unfolding apply_reputation worst_of apply_worst
  at_worst n allow_tools d [] found = absurd (cc)
  at_worst n allow_tools d (r ∷ rs) found =
      let w = worst_of-IsWorst f now t (scored f now t r) rs in
      let s = w.worst in
      record {
        eff = s.eff;
        noted = record d {
          reasons =
              d.reasons
              ++ context_reason s.rec.key s.eff s.rec.risk_score s.rec.suspected_attack_count ∷ [];
        };
        reached = reaches-worst n s (r ∷ rs) (w.above, w.none_worse) found;
        same = rw w.found refl;
      }

-- If any record's effective risk reaches the cutoff for bad actors, wherever it stands in the list,
-- the decision has no tools, high risk, and review or block as its action, whatever it was before
-- and whoever authorized tools.
pub apply_reputation-bad_actor :
    (f : Floats) (now : ℕ) (d : Decision) (allow_tools : Bool) (records : List ReputationRecord)
    (t : ReputationThresholds f)
    → reaches f now t t.bad_actor_score records ≡ true
    → ((apply_reputation f now d allow_tools records t).tools_allowed ≡ false)
      × ((apply_reputation f now d allow_tools records t).risk_level ≡ high)
      × (((apply_reputation f now d allow_tools records t).action ≡ needs_review)
          ⊎ ((apply_reputation f now d allow_tools records t).action ≡ block))
apply_reputation-bad_actor f now d allow_tools records t found =
    let a = at_worst f now t t.bad_actor_score allow_tools d records found in
    rw a.same (
      escalate-bad_actor a.eff t.medium_score t.high_score t.bad_actor_score allow_tools a.noted
        a.reached)

-- If any record's effective risk reaches the high score, the risk is high and the action not allow.
pub apply_reputation-high :
    (f : Floats) (now : ℕ) (d : Decision) (allow_tools : Bool) (records : List ReputationRecord)
    (t : ReputationThresholds f)
    → reaches f now t t.high_score records ≡ true
    → ((apply_reputation f now d allow_tools records t).risk_level ≡ high)
      × ((apply_reputation f now d allow_tools records t).action ≢ allow)
apply_reputation-high f now d allow_tools records t found =
    let a = at_worst f now t t.high_score allow_tools d records found in
    rw a.same (
      escalate-high a.eff t.medium_score t.high_score t.bad_actor_score allow_tools a.noted
        a.reached)
