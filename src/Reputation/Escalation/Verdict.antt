-- ===== src/Reputation/Escalation/Verdict.antt =====
-- What `apply_reputation` does to a decision, for all records of the source.
use acip_sidecar.Prelude.{
  All, ltb, ltb→lt, ℕ, ◌<◌, ◌≡◌, refl, Bool, true, Option, none, some, List, [], ◌∷◌, ◌++◌, arith,
  Bool-cases, inl, inr, append_assoc, sym, ◌∙◌, append-nil,
}
use acip_sidecar.Floats.{Floats}
use acip_sidecar.Reputation.{ReputationRecord}
use acip_sidecar.Reputation.Escalation.{
  ReputationThresholds, Scored, worst_of, effective_risk_score, escalate, apply_reputation,
  apply_worst, context_reason,
}
use acip_sidecar.Reputation.Escalation.Laws.{
  IsStricter, escalate-tools, escalate-risk, escalate-action, escalate-content, escalate-patterns,
  escalate-reasons, escalate-bad_actor, escalate-authorized, worst_of-IsWorst, All-below, scored,
}
use acip_sidecar.Sentry.{Decision}

pub IsStricter-refl : (d : Decision) → IsStricter d d
IsStricter-refl d = record {
  tools = λ h. h;
  risk = omega arith;
  action = inl refl;
  content = refl;
  patterns = refl;
  reasons = ([], sym (append-nil _));
}

module _ (f : Floats) where
  apply_worst-IsStricter :
      (o : Option (Scored f)) (allow_tools : Bool) (t : ReputationThresholds f) (d : Decision)
      → IsStricter d (apply_worst f o allow_tools t d)
  unfolding apply_worst
  apply_worst-IsStricter none allow_tools t d = IsStricter-refl d
  apply_worst-IsStricter (some s) allow_tools t d =
      let reason = context_reason s.rec.key s.eff s.rec.risk_score s.rec.suspected_attack_count in
      let d' : Decision = record d { reasons = d.reasons ++ reason ∷ [] } in
      let (more, e) =
        escalate-reasons s.eff t.medium_score t.high_score t.bad_actor_score allow_tools d' in
      record {
        tools = escalate-tools s.eff t.medium_score t.high_score t.bad_actor_score allow_tools d';
        risk = escalate-risk s.eff t.medium_score t.high_score t.bad_actor_score allow_tools d';
        action = escalate-action s.eff t.medium_score t.high_score t.bad_actor_score allow_tools d';
        content =
            escalate-content s.eff t.medium_score t.high_score t.bad_actor_score allow_tools d';
        patterns =
            escalate-patterns s.eff t.medium_score t.high_score t.bad_actor_score allow_tools d';
        reasons = (reason ∷ more, e ∙ append_assoc d.reasons (reason ∷ []) more);
      }

-- Whatever the records and the thresholds, `apply_reputation` only makes a decision stricter: it
-- grants no tools, lowers no risk level, keeps the action or turns one that is not block into
-- needs_review, changes neither the content nor the detected patterns, and only adds reasons.
pub apply_reputation-IsStricter :
    (f : Floats) (now : ℕ) (d : Decision) (allow_tools : Bool) (records : List ReputationRecord)
    (t : ReputationThresholds f)
    → IsStricter d (apply_reputation f now d allow_tools records t)
unfolding apply_reputation
apply_reputation-IsStricter f now d allow_tools records t =
    apply_worst-IsStricter f (worst_of f now t none records) allow_tools t d

below_cutoff :
    (eff medium_score high_score bad_actor_score : ℕ) (allow_tools : Bool) (d : Decision)
    → (escalate eff medium_score high_score bad_actor_score allow_tools d).tools_allowed ≡ true
    → eff < bad_actor_score
below_cutoff eff medium_score high_score bad_actor_score allow_tools d h =
    elim (Bool-cases (ltb eff bad_actor_score)) [
      | inl lt ↦ ltb→lt eff bad_actor_score lt
      | inr ge ↦
          ground
            (arith, escalate-bad_actor eff medium_score high_score bad_actor_score allow_tools d)
    ]

-- Tools survive `apply_reputation` only if the caller authorized them and every record's effective
-- risk is below the cutoff for bad actors; the list of records is not empty.
pub apply_reputation-tools :
    (f : Floats) (now : ℕ) (d : Decision) (allow_tools : Bool) (r : ReputationRecord)
    (rs : List ReputationRecord) (t : ReputationThresholds f)
    → (apply_reputation f now d allow_tools (r ∷ rs) t).tools_allowed ≡ true
    → (d.tools_allowed ≡ true)
      × (allow_tools ≡ true)
      × All (λ x. effective_risk_score f now x t < t.bad_actor_score) (r ∷ rs)
unfolding apply_reputation worst_of apply_worst
apply_reputation-tools f now d allow_tools r rs t h =
    let w = worst_of-IsWorst f now t (scored f now t r) rs in
    let s = w.worst in
    let reason = context_reason s.rec.key s.eff s.rec.risk_score s.rec.suspected_attack_count in
    let d' : Decision = record d { reasons = d.reasons ++ reason ∷ [] } in
    let on : (escalate s.eff t.medium_score t.high_score t.bad_actor_score allow_tools
          d').tools_allowed
        ≡ true =
      rw w.found at h in
    (
      escalate-tools s.eff t.medium_score t.high_score t.bad_actor_score allow_tools d' on,
      escalate-authorized s.eff t.medium_score t.high_score t.bad_actor_score allow_tools d' on,
      All-below f now t t.bad_actor_score s (r ∷ rs)
          (below_cutoff s.eff t.medium_score t.high_score t.bad_actor_score allow_tools d' on)
          (w.above, w.none_worse),
    )
