-- ===== src/Ingest/Window/Laws.antt =====
-- What truncation keeps, and how long its results are.
use mathlib.Core.List.{reverse, reverse-reverse, reverse-append}
use acip_sidecar.Prelude.{
  ℕ, zero, suc, ◌+◌, ◌≤◌, ◌<◌, ◌≡◌, refl, ◌∙◌, sym, ap, ◌⊎◌, inl, inr, Bool, true, false, [], ◌∷◌,
  ◌++◌, arith, take, drop, length, max, min, leb, Bool-cases, length-append, length-take,
  length-drop, length-reverse, take-append-drop,
}
use acip_sidecar.Text.{Text, text}
use acip_sidecar.Floats.{Floats}
use acip_sidecar.Settings.{TruncationPolicy, NormalizeSettings}
use acip_sidecar.Ingest.Window.{
  last_chars, apply_head_tail, build_normalization_window, normalize_truncation_marker,
  maybe_window_markup_input,
}

take-append : (n : ℕ) (s t : Text) → n ≤ length s → take n (s ++ t) ≡ take n s
take-append zero s t h = refl
take-append (suc n) [] t h = absurd (omega arith)
take-append (suc n) (c ∷ s) t h = ap (◌∷◌ c) (take-append n s t (omega arith))

last_chars-append : (n : ℕ) (s t : Text) → n ≤ length t → last_chars n (s ++ t) ≡ last_chars n t
unfolding last_chars
last_chars-append n s t h = ap reverse (
    ap (take n) (reverse-append s t)
    ∙ take-append n (reverse t) (reverse s) (omega (arith, length-reverse t)))

-- A text is what comes before its last characters, and them.
split_last : (n : ℕ) (s : Text) → reverse (drop n (reverse s)) ++ last_chars n s ≡ s
unfolding last_chars
split_last n s =
    sym (reverse-append (take n (reverse s)) (drop n (reverse s)))
    ∙ ap reverse (take-append-drop n (reverse s))
    ∙ reverse-reverse s

pub length-last_chars : (n : ℕ) (s : Text) → length (last_chars n s) ≡ min n (length s)
unfolding last_chars
length-last_chars n s =
    length-reverse (take n (reverse s)) ∙ length-take n (reverse s) ∙ ap (min n) (length-reverse s)

abbrev pub marker : Text
marker = text "\n\n[...TRUNCATED...]\n\n"

-- A text that is kept whole, or cut in the middle.
pub data Cut (policy : TruncationPolicy) (s : Text) (out : Text × Bool) : Type 0 where
  whole : length s ≤ policy.full_if_lte → out ≡ (s, false) → Cut policy s out
  halves :
      (front middle back : Text)
      → policy.full_if_lte < length s
      → s ≡ front ++ (middle ++ back)
      → length front ≡ policy.head
      → length back ≡ policy.tail
      → out ≡ (front ++ (marker ++ back), true)
      → Cut policy s out

-- Where head and tail together are no longer than a text that is kept whole, `apply_head_tail`
-- keeps a text of at most that length, and otherwise cuts one middle part out: what is left is
-- exactly the head and the tail, which do not overlap, with the marker between them.
pub apply_head_tail-Cut :
    (policy : TruncationPolicy) (s : Text)
    → policy.head + policy.tail ≤ policy.full_if_lte
    → Cut policy s (apply_head_tail policy s)
unfolding apply_head_tail
apply_head_tail-Cut policy s fits = elim (Bool-cases (leb (length s) policy.full_if_lte)) [
  | inl short ↦ whole (ground arith) (rw short refl)
  | inr long ↦
      let rest = drop policy.head s in
      let room : policy.tail ≤ length rest = ground (arith, length-drop policy.head s) in
      let back : last_chars policy.tail s ≡ last_chars policy.tail rest =
        ap (last_chars policy.tail) (sym (take-append-drop policy.head s))
        ∙ last_chars-append policy.tail (take policy.head s) rest room in
      halves (take policy.head s) (reverse (drop policy.tail (reverse rest)))
        (last_chars policy.tail rest) (ground arith)
        (sym (take-append-drop policy.head s)
          ∙ ap (◌++◌ (take policy.head s)) (sym (split_last policy.tail rest)))
        (length-take policy.head s ∙ ground arith)
        (length-last_chars policy.tail rest ∙ ground arith) (rw (long, back) refl)
]

-- Cut or not, the text for the model is bounded by the policy: no longer than a text that is kept
-- whole, or than the head, the tail and the marker.
pub length-apply_head_tail :
    (policy : TruncationPolicy) (s : Text)
    → length (apply_head_tail policy s).0
      ≤ max policy.full_if_lte (policy.head + (length marker + policy.tail))
unfolding apply_head_tail
length-apply_head_tail policy s = elim (Bool-cases (leb (length s) policy.full_if_lte)) [
  | inl short ↦ rw short (ground arith)
  | inr long ↦ rw long (
      omega (
        arith,
        length-append (take policy.head s) (marker ++ last_chars policy.tail s),
        length-append marker (last_chars policy.tail s),
        length-take policy.head s,
        length-last_chars policy.tail s,
      ))
]

module _ (f : Floats) where
  -- Markup beyond the limit is replaced by a window of bounded length, and nothing else is: a text
  -- that is not markup, or within the limit, comes back as it is.
  pub data Windowed (settings : NormalizeSettings f) (is_markup : Bool) (s : Text)
      (out : Text × Bool) : Type 0 where
    kept :
        (is_markup ≡ false) ⊎ (length s ≤ settings.max_input_chars)
        → out ≡ (s, false)
        → Windowed settings is_markup s out
    windowed :
        is_markup ≡ true
        → settings.max_input_chars < length s
        → out.1 ≡ true
        → length out.0
          ≤ settings.window_head_chars
            + (length normalize_truncation_marker + settings.window_tail_chars)
        → Windowed settings is_markup s out

length-build_normalization_window :
    (s : Text) (head tail : ℕ)
    → length (build_normalization_window s head tail)
      ≤ head + (length normalize_truncation_marker + tail)
unfolding build_normalization_window
length-build_normalization_window s head tail = omega (
  arith,
  length-append (take head s) (normalize_truncation_marker ++ last_chars tail s),
  length-append normalize_truncation_marker (last_chars tail s),
  length-take head s,
  length-last_chars tail s,
)

-- The window that `maybe_window_markup_input` makes is for markup beyond the limit alone, and no
-- longer than its head, its tail and the marker; any other text comes back as it is.
pub maybe_window_markup_input-Windowed :
    (f : Floats) (settings : NormalizeSettings f) (is_markup : Bool) (s : Text)
    → Windowed f settings is_markup s (maybe_window_markup_input f s is_markup settings)
unfolding maybe_window_markup_input
maybe_window_markup_input-Windowed f settings false s = kept (inl refl) refl
maybe_window_markup_input-Windowed f settings true s =
    elim (Bool-cases (leb (length s) settings.max_input_chars)) [
      | inl short ↦ kept (inr (ground arith)) (rw short refl)
      | inr long ↦ windowed refl (ground arith) (rw long refl) (
          rw long (
            length-build_normalization_window s settings.window_head_chars
              settings.window_tail_chars))
    ]
