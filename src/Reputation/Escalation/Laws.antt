-- ===== src/Reputation/Escalation/Laws.antt =====
-- What escalation can and cannot do to a decision.
use acip_sidecar.Prelude.{
  All, ℕ, ◌≤◌, ◌<◌, ◌≡◌, refl, ◌≢◌, Bool, true, false, Option, some, List, [], ◌∷◌, ◌++◌, arith,
  leb, Bool-cases, inl, inr, ◌⊎◌, append-nil, sym, ◌∙◌,
}
use acip_sidecar.Text.{Text}
use acip_sidecar.Floats.{Floats}
use acip_sidecar.Reputation.{ReputationRecord}
use acip_sidecar.Reputation.Escalation.{
  ReputationThresholds, Scored, worst_of, effective_risk_score, escalate, worse, outranks, at_high,
  at_medium, without_tools,
}
use acip_sidecar.Sentry.{Decision, RiskLevel, low, medium, high, allow, block, needs_review}

abbrev pub risk_rank : RiskLevel → ℕ
risk_rank low = 0
risk_rank medium = 1
risk_rank high = 2

-- `d` is `e` made stricter: no tools are granted, the risk is not lowered, a block stays, a change
-- of action is to review, reasons are only added, and the content is the same.
pub record IsStricter (e d : Decision) : Type 0 where
  pub tools : d.tools_allowed ≡ true → e.tools_allowed ≡ true
  pub risk : risk_rank e.risk_level ≤ risk_rank d.risk_level
  pub action : (d.action ≡ e.action) ⊎ ((d.action ≡ needs_review) × (e.action ≢ block))
  pub content : d.fenced_content ≡ e.fenced_content
  pub patterns : d.detected_patterns ≡ e.detected_patterns
  pub reasons : (more : List Text) × (d.reasons ≡ e.reasons ++ more)

abbrev pub Extends : List Text → List Text → Type 0
Extends xs ys = (more : List Text) × (ys ≡ xs ++ more)

reasons-at_high : (b : Bool) (d : Decision) → (at_high b d).reasons ≡ d.reasons
unfolding at_high
reasons-at_high true d = refl
reasons-at_high false d = refl

reasons-at_medium : (b : Bool) (d : Decision) → (at_medium b d).reasons ≡ d.reasons
unfolding at_medium
reasons-at_medium true d = refl
reasons-at_medium false d = refl

without_tools-Extends :
    (b : Bool) (reason : Text) (d : Decision) {xs : List Text}
    → d.reasons ≡ xs
    → Extends xs (without_tools b reason d).reasons
unfolding without_tools
without_tools-Extends true reason d e = (reason ∷ [], rw (← e) refl)
without_tools-Extends false reason d e = ([], e ∙ sym (append-nil _))

module _ (eff medium_score high_score bad_actor_score : ℕ) (allow_tools : Bool) (d : Decision) where
  abbrev pub result : Decision
  result = escalate eff medium_score high_score bad_actor_score allow_tools d

  pub escalate-tools : result.tools_allowed ≡ true → d.tools_allowed ≡ true
  unfolding escalate
  escalate-tools = ground arith

  pub escalate-risk : risk_rank d.risk_level ≤ risk_rank result.risk_level
  unfolding escalate
  escalate-risk = ground arith

  pub escalate-action :
      (result.action ≡ d.action) ⊎ ((result.action ≡ needs_review) × (d.action ≢ block))
  unfolding escalate
  escalate-action = ground arith

  pub escalate-content : result.fenced_content ≡ d.fenced_content
  unfolding escalate
  escalate-content = ground arith

  pub escalate-patterns : result.detected_patterns ≡ d.detected_patterns
  unfolding escalate
  escalate-patterns = ground arith

  pub escalate-reasons : Extends d.reasons result.reasons
  unfolding escalate
  escalate-reasons =
      let kept =
        reasons-at_high (leb high_score eff) (at_medium (leb medium_score eff) d)
        ∙ reasons-at_medium (leb medium_score eff) d in
      elim (Bool-cases (leb bad_actor_score eff)) [
        | inl bad ↦ rw bad (without_tools-Extends _ _ _ kept)
        | inr fine ↦ rw fine (without_tools-Extends _ _ _ kept)
      ]

  -- A bad actor has no tools, a high risk, and an action that is review or block.
  pub escalate-bad_actor :
      bad_actor_score ≤ eff
      → (result.tools_allowed ≡ false)
        × (result.risk_level ≡ high)
        × ((result.action ≡ needs_review) ⊎ (result.action ≡ block))
  unfolding escalate
  escalate-bad_actor h = ground arith

  -- Below the cutoff, tools stay on only if the caller authorized them.
  pub escalate-authorized : result.tools_allowed ≡ true → allow_tools ≡ true
  unfolding escalate
  escalate-authorized h = ground arith

  pub escalate-high : high_score ≤ eff → (result.risk_level ≡ high) × (result.action ≢ allow)
  unfolding escalate
  escalate-high h = (ground arith, ground arith)

module _ (f : Floats) (now : ℕ) (t : ReputationThresholds f) where
  abbrev pub scored : ReputationRecord → Scored f
  scored r = record { rec = r; eff = effective_risk_score f now r t }

  -- `a` does not outrank `b` in the order of effective risk and suspected attacks.
  abbrev pub NotWorse : Scored f → Scored f → Type 0
  NotWorse a b = outranks f a b ≡ false

  NotWorse-trans : (a b c : Scored f) → NotWorse a b → NotWorse b c → NotWorse a c
  NotWorse-trans a b c h k = ground arith

  -- One round keeps whichever outranks the other.
  round :
      (best s : Scored f)
      → (c : Scored f) × (worse f (some best) s ≡ some c)
        × NotWorse best c
        × NotWorse s c
        × ((c ≡ best) ⊎ (c ≡ s))
  unfolding worse
  round best s = elim (Bool-cases (outranks f s best)) [
    | inl up ↦ (s, rw up, ground arith, ground arith, inr refl)
    | inr down ↦ (best, rw down, ground arith, down, inl refl)
  ]

  -- The record that the loop ends with: none of the records is worse than it.
  pub record IsWorst (o : Option (Scored f)) (best : Scored f) (rs : List ReputationRecord)
      : Type 0 where
    pub worst : Scored f
    pub found : o ≡ some worst
    pub above : NotWorse best worst
    pub none_worse : All (λ r. NotWorse (scored r) worst) rs

  pub worst_of-IsWorst :
      (best : Scored f) (rs : List ReputationRecord)
      → IsWorst (worst_of f now t (some best) rs) best rs
  unfolding worst_of
  worst_of-IsWorst best [] = record {
    worst = best;
    found = refl;
    above = ground arith;
    none_worse = tt;
  }
  worst_of-IsWorst best (r ∷ rs) =
      let (c, e, kept, beaten, _) = round best (scored r) in
      let ih = worst_of-IsWorst c rs in
      record {
        worst = ih.worst;
        found = rw e ih.found;
        above = NotWorse-trans best c ih.worst kept ih.above;
        none_worse = (NotWorse-trans (scored r) c ih.worst beaten ih.above, ih.none_worse);
      }

  pub NotWorse-le : (a b : Scored f) → NotWorse a b → a.eff ≤ b.eff
  NotWorse-le a b h = ground arith

  pub All-below :
      (n : ℕ) (s : Scored f) (rs : List ReputationRecord)
      → s.eff < n
      → All (λ r. NotWorse (scored r) s) rs
      → All (λ r. effective_risk_score f now r t < n) rs
  All-below n s [] lt h = tt
  All-below n s (r ∷ rs) lt h =
      (omega (arith, NotWorse-le (scored r) s h.0), All-below n s rs lt h.1)
