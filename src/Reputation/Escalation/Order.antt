-- ===== src/Reputation/Escalation/Order.antt =====
-- The order of strictness on decisions.
use acip_sidecar.Prelude.{◌≡◌, ◌∙◌, ap, ◌≢◌, ◌⊎◌, inl, inr, ◌++◌, arith, append_assoc}
use acip_sidecar.Sentry.{Decision, Action, block, needs_review}
use acip_sidecar.Reputation.Escalation.Laws.{IsStricter}

action_trans :
    (a b c : Action)
    → (b ≡ a) ⊎ ((b ≡ needs_review) × (a ≢ block))
    → (c ≡ b) ⊎ ((c ≡ needs_review) × (b ≢ block))
    → (c ≡ a) ⊎ ((c ≡ needs_review) × (a ≢ block))
action_trans a b c (inl ba) (inl cb) = inl (cb ∙ ba)
action_trans a b c (inl ba) (inr (review, not_block)) = inr (review, rw ba at not_block)
action_trans a b c (inr (review, not_block)) (inl cb) = inr (cb ∙ review, not_block)
action_trans a b c (inr (review, not_block)) (inr (review', _)) = inr (review', not_block)

pub IsStricter-trans : (d e f : Decision) → IsStricter d e → IsStricter e f → IsStricter d f
IsStricter-trans d e f h k =
    let (m1, e1) = h.reasons in
    let (m2, e2) = k.reasons in
    record {
      tools = λ on. h.tools (k.tools on);
      risk = omega (arith, h.risk, k.risk);
      action = action_trans _ _ _ h.action k.action;
      content = k.content ∙ h.content;
      patterns = k.patterns ∙ h.patterns;
      reasons = (m1 ++ m2, e2 ∙ ap (λ x. x ++ m2) e1 ∙ append_assoc d.reasons m1 m2);
    }
