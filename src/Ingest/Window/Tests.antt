-- ===== src/Ingest/Window/Tests.antt =====
-- Truncation at concrete texts and policies.
use acip_sidecar.Prelude.{ℕ, ◌<◌, ◌≡◌, refl, true, [], ◌∷◌, arith}
use acip_sidecar.Text.{Text, text}
use acip_sidecar.Settings.{TruncationPolicy, NormalizeSettings}
use acip_sidecar.Ingest.Samples.{floats}
use acip_sidecar.Ingest.Window.{min_cap, apply_head_tail, tighten}
use acip_sidecar.Ingest.Window.Laws.{Cut, apply_head_tail-Cut}
use acip_sidecar.Ingest.Window.Tighten.{IsTightened, tighten-IsTightened, tighten-raises}

abbrev small : TruncationPolicy
small = record { head = 2; tail = 1; full_if_lte = 3 }

abbrev digits : Text
digits = 48 ∷ 49 ∷ 50 ∷ 51 ∷ 52 ∷ []

apply_head_tail_run :
    apply_head_tail small digits ≡ ((48 ∷ 49 ∷ text "\n\n[...TRUNCATED...]\n\n4"), true)
unfolding apply_head_tail text
apply_head_tail_run = refl

apply_head_tail-Cut_example : Cut small digits (apply_head_tail small digits)
apply_head_tail-Cut_example = apply_head_tail-Cut small digits (omega arith)

abbrev settings : ℕ → NormalizeSettings floats
settings n = record {
  max_input_chars = n;
  window_head_chars = 5000;
  window_tail_chars = 5000;
  adversarial_threshold = 3;
  adversarial_tighten_factor = 500;
}

tighten_run : (tighten floats (settings 40000)).max_input_chars ≡ 20000
unfolding tighten acip_sidecar.Settings.clamp_factor
tighten_run = refl

tighten-IsTightened_example : IsTightened floats (settings 40000) (tighten floats (settings 40000))
tighten-IsTightened_example =
    tighten-IsTightened floats (settings 40000) (omega arith) (omega arith) (omega arith)
      (omega arith) (omega arith) (omega arith)

tighten-raises_example :
    ((tighten floats (settings 400)).max_input_chars ≡ min_cap)
    × (400 < (tighten floats (settings 400)).max_input_chars)
tighten-raises_example = tighten-raises floats (settings 400) (omega arith)
