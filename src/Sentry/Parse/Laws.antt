-- ===== src/Sentry/Parse/Laws.antt =====
-- What the search for JSON in a model's output gives.
use mathlib.Core.Path.{subst}
use mathlib.Core.List.{reverse, reverse-reverse, reverse-cons}
use acip_sidecar.Prelude.{
  ◌≡◌, refl, ◌∙◌, sym, ap, ◌⊎◌, inl, inr, Bool, true, ◌&&◌, ◌||◌, Option, none, some, [], ◌∷◌, ◌++◌,
  arith, Result, ok, err, Bool-cases, Option-cases, if_either, append_assoc, append-nil,
}
use acip_sidecar.Text.{Text, trim_start, starts_with}
use acip_sidecar.Json.{Value, SerdeJson}
use acip_sidecar.Sentry.Parse.{
  opens, closes, from_start, last_parsing, candidate_or, extract_json_only, is_ok,
}

-- A part of a text that stands in one piece and that the parser accepts.
pub record Parses (json : SerdeJson) (s part : Text) : Type 0 where
  pub before : Text
  pub after : Text
  pub value : Value
  pub same : s ≡ before ++ (part ++ after)
  pub parsed : json.from_str part ≡ ok value

ok_value : (r : Result Text Value) → is_ok r ≡ true → (v : Value) × (r ≡ ok v)
ok_value (ok v) h = (v, refl)
ok_value (err e) h = absurd (cc)

regroup : (b p a t : Text) → (b ++ (p ++ a)) ++ t ≡ b ++ (p ++ (a ++ t))
regroup b p a t = append_assoc b (p ++ a) t ∙ ap (◌++◌ b) (append_assoc p a t)

-- A candidate that parses is the whole text.
whole :
    (json : SerdeJson) (s part : Text)
    → s ≡ part
    → is_ok (json.from_str s) ≡ true
    → Parses json s part
whole json s part e good =
    let (v, parsed) = ok_value (json.from_str s) good in
    record {
      before = [];
      after = [];
      value = v;
      same = e ∙ sym (append-nil part);
      parsed = subst (λ x. json.from_str x ≡ ok v) e parsed;
    }

closing : (b c : Bool) → (b && c) ≡ true → c ≡ true
closing b c h = ground arith

last_parsing-Parses :
    (json : SerdeJson) (r part : Text)
    → last_parsing json r ≡ some part
    → Parses json (reverse r) part
unfolding last_parsing
last_parsing-Parses json [] part h = absurd (cc)
last_parsing-Parses json (c ∷ []) part h = absurd (cc)
last_parsing-Parses json (c ∷ d ∷ r) part h =
    elim (Bool-cases (closes c && is_ok (json.from_str (reverse (c ∷ d ∷ r))))) [
      | inl good ↦
          let same : reverse (c ∷ d ∷ r) ≡ part = cc (rw good at h) in
          whole json (reverse (c ∷ d ∷ r)) part same (closing (closes c) _ good)
      | inr bad ↦
          let ih = last_parsing-Parses json (d ∷ r) part (rw bad at h) in
          record {
            before = ih.before;
            after = ih.after ++ (c ∷ []);
            value = ih.value;
            same =
                reverse-cons c (d ∷ r)
                ∙ ap (λ x. x ++ (c ∷ [])) ih.same
                ∙ regroup ih.before part ih.after (c ∷ []);
            parsed = ih.parsed;
          }
    ]

-- A tail of a text.
from_start-tail :
    (s tail : Text) → from_start s ≡ some tail → (before : Text) × (s ≡ before ++ tail)
unfolding from_start
from_start-tail [] tail h = absurd (cc)
from_start-tail (c ∷ s) tail h = elim (Bool-cases (opens c)) [
  | inl here ↦ let same : c ∷ s ≡ tail = cc (rw here at h) in ([], same)
  | inr later ↦
      let (before, same) = from_start-tail s tail (rw later at h) in (c ∷ before, ap (◌∷◌ c) same)
]

found_in :
    (json : SerdeJson) (s tail part : Text)
    → from_start s ≡ some tail
    → last_parsing json (reverse tail) ≡ some part
    → Parses json s part
found_in json s tail part started found =
    let (before, same) = from_start-tail s tail started in
    let p = last_parsing-Parses json (reverse tail) part found in
    record {
      before = before ++ p.before;
      after = p.after;
      value = p.value;
      same =
          same
          ∙ ap (◌++◌ before) (sym (reverse-reverse tail) ∙ p.same)
          ∙ sym (append_assoc before p.before (part ++ p.after));
      parsed = p.parsed;
    }

candidate-or-input :
    (json : SerdeJson) (s : Text) (start : Option Text)
    → from_start s ≡ start
    → (candidate_or json s start ≡ s) ⊎ Parses json s (candidate_or json s start)
unfolding candidate_or
candidate-or-input json s none started = inl refl
candidate-or-input json s (some tail) started =
    elim (Option-cases (last_parsing json (reverse tail))) [
      | inl nothing ↦ inl (rw (nothing, candidate_or) refl)
      | inr (part, found) ↦ inr (rw (found, candidate_or) (found_in json s tail part started found))
    ]

-- What `extract_json_only` takes out of a model's output is a part of it that stands in one piece
-- and that the JSON parser accepts; where it finds none, or the output begins with `{` or `[`, it
-- gives the output back as it is.
pub extract_json_only-Parses :
    (json : SerdeJson) (s : Text)
    → (extract_json_only json s ≡ s) ⊎ Parses json s (extract_json_only json s)
unfolding extract_json_only
extract_json_only-Parses json s =
    if_either (λ x. (x ≡ s) ⊎ Parses json s x)
      (starts_with (trim_start s) (0x7b ∷ []) || starts_with (trim_start s) (0x5b ∷ [])) (inl refl)
      (candidate-or-input json s (from_start s) refl)
