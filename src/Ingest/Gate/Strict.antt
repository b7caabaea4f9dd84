-- ===== src/Ingest/Gate/Strict.antt =====
-- The two caps of ingest.rs on tools, against the order of strictness.
use acip_sidecar.Prelude.{refl, Bool, ◌&&◌, not, arith, inl, if_either}
use acip_sidecar.Sentry.{Decision}
use acip_sidecar.Reputation.Escalation.Laws.{IsStricter}
use acip_sidecar.Reputation.Escalation.Verdict.{IsStricter-refl}
use acip_sidecar.Ingest.Gate.{enforce_markup_tools_cap, enforce_tools_authorization}

module _ (d : Decision) (b : Bool) where
  pub enforce_markup_tools_cap-IsStricter : IsStricter d (enforce_markup_tools_cap d b)
  unfolding enforce_markup_tools_cap
  enforce_markup_tools_cap-IsStricter =
      if_either (IsStricter d) (b && d.tools_allowed)
        (record {
          tools = λ on. absurd (cc on);
          risk = omega arith;
          action = inl refl;
          content = refl;
          patterns = refl;
          reasons = (_, refl);
        })
        (IsStricter-refl d)

  pub enforce_tools_authorization-IsStricter : IsStricter d (enforce_tools_authorization d b)
  unfolding enforce_tools_authorization
  enforce_tools_authorization-IsStricter =
      if_either (IsStricter d) (d.tools_allowed && not b)
        (record {
          tools = λ on. absurd (cc on);
          risk = omega arith;
          action = inl refl;
          content = refl;
          patterns = refl;
          reasons = (_, refl);
        })
        (IsStricter-refl d)
