-- ===== src/Extractor/Svg/Loop.antt =====
-- The loop of `extract_svg_text` that removes entity declarations.
use mathlib.Core.Path.{subst}
use acip_sidecar.Prelude.{
  ℕ, zero, suc, ◌+◌, ◌-◌, ◌≤◌, ◌<◌, ◌≡◌, refl, sym, ap, ◌⊎◌, inl, inr, Option, none, some, [], ◌∷◌,
  ◌++◌, arith, ok, err, ◌>>=◌, ltb, ◌==◌, length, length-append, Bool-cases, Option-cases,
}
use acip_sidecar.Text.{Text, text, encode, Unicode}
use acip_sidecar.Extractor.{panicked, Outcome}
use acip_sidecar.Extractor.Svg.{find, split_at, cut, entity_at, drop_entities}

-- The two parts make up the text, and the first is not empty where the position is not.
record Splits (n : ℕ) (s a b : Text) : Type 0 where
  whole : s ≡ a ++ b
  filled : 1 ≤ n → 1 ≤ length a

split_at-Splits : (n : ℕ) (s a b : Text) → split_at n s ≡ some (a, b) → Splits n s a b
unfolding split_at
split_at-Splits n [] a b h = elim (Bool-cases (n == 0)) [
  | inl z ↦
      let e : ◌≡◌ {A = Option (Text × Text)} (some ([], [])) (some (a, b)) = rw z at h in
      record { whole = cc; filled = λ f. absurd (ground arith) }
  | inr z ↦ absurd (cc (rw z at h))
]
split_at-Splits n (c ∷ s) a b h = elim (Bool-cases (n == 0)) [
  | inl z ↦
      let e : ◌≡◌ {A = Option (Text × Text)} (some ([], c ∷ s)) (some (a, b)) = rw z at h in
      record { whole = cc; filled = λ f. absurd (ground arith) }
  | inr z ↦ elim (Bool-cases (ltb n (length (encode c)))) [
    | inl l ↦ absurd (cc (rw (z, l) at h))
    | inr l ↦ elim (Option-cases (split_at (n - length (encode c)) s)) [
      | inl q ↦ absurd (cc (rw (z, l, q) at h))
      | inr ((x, y), q) ↦
          let e : ◌≡◌ {A = Option (Text × Text)} (some (c ∷ x, y)) (some (a, b)) =
            rw (z, l, q) at h in
          let ih = split_at-Splits (n - length (encode c)) s x y q in
          let front : c ∷ x ≡ a = cc in
          let back : y ≡ b = cc in
          record {
            whole = rw (← front, ← back) (ap (◌∷◌ c) ih.whole);
            filled = λ f. rw (← front) (omega arith);
          }
    ]
  ]
]

-- What `cut` leaves is shorter.
cut-lt :
    (n : ℕ) (front rest r : Text)
    → 1 ≤ n
    → cut n front rest ≡ ok r
    → length r < length (front ++ rest)
unfolding cut
cut-lt n front rest r f h = elim (Option-cases (split_at n rest)) [
  | inl q ↦ absurd (cc (rw (q, cut) at h))
  | inr ((removed, back), q) ↦
      let parts = split_at-Splits n rest removed back q in
      let e : front ++ back ≡ r = cc (rw (q, cut) at h) in
      let gone = parts.filled f in
      rw (← e, parts.whole)
        (omega (
          arith,
          length-append front back,
          length-append front (removed ++ back),
          length-append removed back,
          gone,
        ))
]

-- A text in which the search for entity declarations has ended: it finds none, or one that no `>`
-- follows.
pub record Settled (u : Unicode) (raw : Text) : Type 0 where
  pub settled :
      (find (u.to_lowercase raw) (text "<!entity") ≡ none)
      ⊎ ((pos : ℕ) × (front : Text) × (rest : Text) × (find (u.to_lowercase raw) (text "<!entity")
            ≡ some pos)
          × (split_at pos raw ≡ some (front, rest))
          × (find rest (text ">") ≡ none))

-- The loop ends with a settled text that is no longer, or with a panic.
pub data Ends (u : Unicode) (raw : Text) : Outcome Text → Type 0 where
  done : (r : Text) → Settled u r → length r ≤ length raw → Ends u raw (ok r)
  panics : Ends u raw (err panicked)

Ends-le :
    (u : Unicode) (r raw : Text) (o : Outcome Text)
    → length r ≤ length raw
    → Ends u r o
    → Ends u raw o
Ends-le u r raw _ h (done s settled short) = done s settled (omega arith)
Ends-le u r raw _ h panics = panics

module _ (u : Unicode) (fuel : ℕ)
    (ih : (s : Text) → length s < fuel → Ends u s (drop_entities u fuel s)) where
  after_cut :
      (n : ℕ) (front rest : Text)
      → 1 ≤ n
      → length (front ++ rest) ≤ fuel
      → Ends u (front ++ rest) (cut n front rest >>= drop_entities u fuel)
  unfolding cut
  after_cut n front rest f short = elim (Option-cases (split_at n rest)) [
    | inl q ↦ rw (q, cut) panics
    | inr ((removed, back), q) ↦
        let less : length (front ++ back) < length (front ++ rest) =
          cut-lt n front rest (front ++ back) f (rw (q, cut) refl) in
        rw (q, cut)
          (Ends-le u (front ++ back) (front ++ rest) _ (omega arith)
            (ih (front ++ back) (omega arith)))
  ]

  entity_at-Ends :
      (pos : ℕ) (raw : Text) (split : Option (Text × Text))
      → length raw ≤ fuel
      → find (u.to_lowercase raw) (text "<!entity") ≡ some pos
      → split_at pos raw ≡ split
      → Ends u raw (entity_at (drop_entities u fuel) raw split)
  unfolding entity_at
  entity_at-Ends pos raw none short found h = panics
  entity_at-Ends pos raw (some (front, rest)) short found h =
      elim (Option-cases (find rest (text ">"))) [
        | inl q ↦
            rw (q, entity_at)
              (done raw (record { settled = inr (pos, front, rest, found, h, q) }) (omega arith))
        | inr (end, q) ↦
            let whole = (split_at-Splits pos raw front rest h).whole in
            rw (q, entity_at)
              (subst (λ s. Ends u s (cut (end + 1) front rest >>= drop_entities u fuel)) (sym whole)
                (after_cut (end + 1) front rest (omega arith) (omega (arith, ap length whole))))
      ]

-- The loop ends: with one round of fuel more than the text has characters it comes to a text that
-- is no longer and in which the search has ended, or panics, and never runs out.
pub drop_entities-Ends :
    (u : Unicode) (fuel : ℕ) (raw : Text)
    → length raw < fuel
    → Ends u raw (drop_entities u fuel raw)
unfolding drop_entities
drop_entities-Ends u zero raw h = absurd (omega arith)
drop_entities-Ends u (suc fuel) raw h =
    elim (Option-cases (find (u.to_lowercase raw) (text "<!entity"))) [
      | inl q ↦ rw (q, drop_entities) (done raw (record { settled = inl q }) (omega arith))
      | inr (pos, q) ↦
          rw (q, drop_entities)
            (entity_at-Ends u fuel (drop_entities-Ends u fuel) pos raw (split_at pos raw)
              (omega arith) q refl)
    ]
