-- ===== src/Threat/Tests.antt =====
-- The assessment of a concrete text.
use acip_sidecar.Prelude.{ℕ, ◌≡◌, refl, min, u8_max, List, [], ◌∷◌}
use acip_sidecar.Prelude.Sort.Laws.{IsStrict}
use acip_sidecar.Text.{Text, text}
use acip_sidecar.Text.Order.{text_order}
use acip_sidecar.Ingest.Samples.{unicode}
use acip_sidecar.Threat.{type_order, prompt_injection, tool_coercion, assess}
use acip_sidecar.Threat.Laws.{weight, assess-score}

assess_run :
    (assess unicode (text "Tool, shell")).attack_types ≡ prompt_injection ∷ tool_coercion ∷ []
unfolding assess text acip_sidecar.Text.contains acip_sidecar.Text.starts_with
    acip_sidecar.Text.ascii_lower acip_sidecar.Prelude.Sort.sort acip_sidecar.Prelude.Sort.dedup
    acip_sidecar.Threat.normalize
assess_run = refl

assess-score_example :
    ((assess unicode (text "Tool, shell")).threat_score
      ≡ min (weight (unicode.to_lowercase (text "Tool, shell"))) u8_max)
    × IsStrict type_order (assess unicode (text "Tool, shell")).attack_types
    × IsStrict text_order (assess unicode (text "Tool, shell")).indicators
assess-score_example = assess-score unicode (text "Tool, shell")
