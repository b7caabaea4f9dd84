-- ===== src/Text/Trim.antt =====
-- Trimming, once and twice.
use mathlib.Core.List.{reverse, reverse-reverse, reverse-append, reverse-cons}
use acip_sidecar.Prelude.{
  ℕ, ◌≡◌, refl, ◌∙◌, sym, ap, false, [], ◌∷◌, ◌++◌, if_cases, if_either, All, All-append,
}
use acip_sidecar.Text.{Text, is_whitespace, trim_start, trim_end, trim}

-- A text that does not begin with whitespace.
abbrev Bare : Text → Type 0
Bare [] = Unit
Bare (c ∷ s) = is_whitespace c ≡ false

Bare-trim_start : (s : Text) → Bare (trim_start s)
unfolding trim_start
Bare-trim_start [] = tt
Bare-trim_start (c ∷ s) =
    if_cases Bare (is_whitespace c) (λ _. Bare-trim_start s) (λ letter. letter)

trim_start-Bare : (s : Text) → Bare s → trim_start s ≡ s
unfolding trim_start
trim_start-Bare [] h = refl
trim_start-Bare (c ∷ s) h = rw h refl

-- What was taken off stood in front.
front : (s : Text) → (w : Text) × (s ≡ w ++ trim_start s)
unfolding trim_start
front [] = ([], refl)
front (c ∷ s) =
    let (w, e) = front s in
    if_either (λ x. (w : Text) × ((c ∷ s) ≡ w ++ x)) (is_whitespace c) (c ∷ w, ap (◌∷◌ c) e)
      ([], refl)

Bare-prefix : (e w : Text) → Bare (e ++ w) → Bare e
Bare-prefix [] w h = tt
Bare-prefix (c ∷ e) w h = h

back : (t : Text) → (w : Text) × (t ≡ trim_end t ++ w)
unfolding trim_end
back t =
    let (w, e) = front (reverse t) in
    (reverse w, sym (reverse-reverse t) ∙ ap reverse e ∙ reverse-append w (trim_start (reverse t)))

Bare-trim_end : (t : Text) → Bare t → Bare (trim_end t)
Bare-trim_end t h = let (w, e) = back t in Bare-prefix (trim_end t) w (rw e at h)

trim_end-twice : (t : Text) → trim_end (trim_end t) ≡ trim_end t
unfolding trim_end
trim_end-twice t =
    ap (λ x. reverse (trim_start x)) (reverse-reverse (trim_start (reverse t)))
    ∙ ap reverse (trim_start-Bare _ (Bare-trim_start (reverse t)))

pub trim-trim : (s : Text) → trim (trim s) ≡ trim s
unfolding trim
trim-trim s =
    ap trim_end (trim_start-Bare _ (Bare-trim_end (trim_start s) (Bare-trim_start s)))
    ∙ trim_end-twice (trim_start s)

module _ {ℓ} (P : ℕ → Type ℓ) where
  All-trim_start : (s : Text) → All P s → All P (trim_start s)
  unfolding trim_start
  All-trim_start [] h = tt
  All-trim_start (c ∷ s) (p, h) = if_either (All P) (is_whitespace c) (All-trim_start s h) (p, h)

  All-reverse : (s : Text) → All P s → All P (reverse s)
  All-reverse [] h = tt
  All-reverse (c ∷ s) (p, h) =
      rw (reverse-cons c s) (All-append P (reverse s) (c ∷ []) (All-reverse s h) (p, tt))

  -- What holds of all characters holds of those that trimming leaves.
  pub All-trim : (s : Text) → All P s → All P (trim s)
  unfolding trim trim_end
  All-trim s h = All-reverse _ (All-trim_start _ (All-reverse _ (All-trim_start s h)))
