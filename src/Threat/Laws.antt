-- ===== src/Threat/Laws.antt =====
-- The score and the lists of an assessment of threat.rs.
use acip_sidecar.Prelude.{
  ℕ, ◌+◌, ◌≡◌, refl, ◌∙◌, ap, Bool, true, false, List, [], ◌∷◌, ◌++◌, arith, min, u8_max,
  if◌then◌else◌,
}
use acip_sidecar.Prelude.Sort.Laws.{IsStrict, dedup-sort-IsStrict}
use acip_sidecar.Text.{Text, text, contains, Unicode}
use acip_sidecar.Text.Order.{text_order}
use acip_sidecar.Threat.{
  AttackType, prompt_injection, tool_coercion, data_exfiltration, credential_theft, jailbreak,
  social_engineering, type_order, ThreatAssessment, none_found, add, normalize, scan_phrases,
  pi_phrases, cred_phrases, exfil_phrases, jailbreak_phrases, se_phrases, tool_phrases, scan_all,
  assess,
}

-- Each phrase of a list that a text contains counts with the list's weight.
pub hits : Text → ℕ → List Text → ℕ
hits lower n [] = 0
hits lower n (p ∷ ps) = (if contains lower p then n else 0) + hits lower n ps

-- The sum over all lists.
pub weight : Text → ℕ
unfolding hits
weight lower =
    hits lower 8 pi_phrases
    + hits lower 10 cred_phrases
    + hits lower 6 exfil_phrases
    + hits lower 8 jailbreak_phrases
    + hits lower 4 se_phrases
    + hits lower 10 tool_phrases

-- An assessment whose score is a sum, held at 255.
abbrev Scores : ℕ → ThreatAssessment → Type 0
Scores w a = a.threat_score ≡ min w u8_max

add-Scores :
    (a : ThreatAssessment) (ty : AttackType) (indicator : Text) (n w : ℕ)
    → Scores w a
    → Scores (w + n) (add a ty indicator n)
unfolding add
add-Scores a ty indicator n w h = omega (arith, h)

add_if-Scores :
    (b : Bool) (a : ThreatAssessment) (ty : AttackType) (indicator : Text) (n w : ℕ)
    → Scores w a
    → Scores (w + (if b then n else 0)) (if b then add a ty indicator n else a)
add_if-Scores true a ty indicator n w h = add-Scores a ty indicator n w h
add_if-Scores false a ty indicator n w h = omega (arith, h)

add_assoc : (a b c : ℕ) → a + b + c ≡ a + (b + c)
add_assoc a b c = omega arith

scan_phrases-Scores :
    (lower : Text) (ty : AttackType) (label : Text) (n : ℕ) (ps : List Text) (a : ThreatAssessment)
    (w : ℕ)
    → Scores w a
    → Scores (w + hits lower n ps) (scan_phrases lower ty label n ps a)
unfolding scan_phrases hits
scan_phrases-Scores lower ty label n [] a w h = omega (arith, h)
scan_phrases-Scores lower ty label n (p ∷ ps) a w h =
    scan_phrases-Scores lower ty label n ps
      (if contains lower p then add a ty (label ++ p) n else a)
      (w + (if contains lower p then n else 0))
      (add_if-Scores (contains lower p) a ty (label ++ p) n w h)
    ∙ ap (λ x. min x u8_max) (add_assoc w (if contains lower p then n else 0) (hits lower n ps))

scan_all-Scores : (lower : Text) → Scores (weight lower) (scan_all lower)
unfolding scan_all weight
scan_all-Scores lower =
    let a1 =
      scan_phrases lower prompt_injection (text "contains_phrase:") 8 pi_phrases none_found in
    let a2 = scan_phrases lower credential_theft (text "mentions_sensitive:") 10 cred_phrases a1 in
    let a3 = scan_phrases lower data_exfiltration (text "mentions_exfil:") 6 exfil_phrases a2 in
    let a4 = scan_phrases lower jailbreak (text "mentions:") 8 jailbreak_phrases a3 in
    let a5 = scan_phrases lower social_engineering (text "social_pressure:") 4 se_phrases a4 in
    let h1 =
      scan_phrases-Scores lower prompt_injection (text "contains_phrase:") 8 pi_phrases none_found 0
        refl in
    let h2 =
      scan_phrases-Scores lower credential_theft (text "mentions_sensitive:") 10 cred_phrases a1
        (0 + hits lower 8 pi_phrases) h1 in
    let h3 =
      scan_phrases-Scores lower data_exfiltration (text "mentions_exfil:") 6 exfil_phrases a2
        (0 + hits lower 8 pi_phrases + hits lower 10 cred_phrases) h2 in
    let h4 = scan_phrases-Scores lower jailbreak (text "mentions:") 8 jailbreak_phrases a3 _ h3 in
    let h5 =
      scan_phrases-Scores lower social_engineering (text "social_pressure:") 4 se_phrases a4 _ h4 in
    let h6 =
      scan_phrases-Scores lower tool_coercion (text "tool_request:") 10 tool_phrases a5 _ h5 in
    omega (arith, h6)

-- The score of an assessment is the weighted number of the phrases that the lowercased text
-- contains, held at 255, and its attack types and indicators are in strictly ascending order, so
-- that none is repeated.
pub assess-score :
    (u : Unicode) (t : Text)
    → ((assess u t).threat_score ≡ min (weight (u.to_lowercase t)) u8_max)
      × IsStrict type_order (assess u t).attack_types
      × IsStrict text_order (assess u t).indicators
unfolding assess normalize
assess-score u t = (
  scan_all-Scores (u.to_lowercase t),
  dedup-sort-IsStrict type_order _,
  dedup-sort-IsStrict text_order _,
)
