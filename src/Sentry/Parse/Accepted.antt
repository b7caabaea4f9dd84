-- ===== src/Sentry/Parse/Accepted.antt =====
-- Which outputs of a model are accepted as decisions.
use acip_sidecar.Prelude.{
  ◌≡◌, refl, ◌⊎◌, inl, inr, true, false, List, [], ◌∷◌, Result, ok, err, Bool-cases, Result-cases,
  is_empty, bind-ok, ok_injective, if◌then◌else◌,
}
use acip_sidecar.Text.{Text, text, trim}
use acip_sidecar.Json.{Value, Fallible, context, is_container, SerdeJson}
use acip_sidecar.Environment.{Env}
use acip_sidecar.Sentry.{Decision}
use acip_sidecar.Sentry.Schema.{decision_schema}
use acip_sidecar.Sentry.Parse.{
  DecisionReader, extract_json_only, strict_json_enabled, parse_json_strict, read_value,
  parse_and_validate_decision,
}

-- A text that is JSON but for the whitespace around it, with an object or an array.
pub record IsJson (json : SerdeJson) (part : Text) (v : Value) : Type 0 where
  pub parsed : json.from_str (trim part) ≡ ok v
  pub container : is_container v ≡ true

-- A decision that was read from an output.
pub record Accepted (r : DecisionReader) (env : Env) (raw : Text) (d : Decision) : Type 0 where
  pub part : Text
  pub value : Value
  pub source :
      (part ≡ raw) ⊎ ((strict_json_enabled env ≡ false) × (part ≡ extract_json_only r.json raw))
  pub json_value : IsJson r.json part value
  pub valid : r.validate decision_schema value ≡ []
  pub typed : r.from_value value ≡ ok d

context-ok : {A : Type 0} (x : Result Text A) (c : Text) (a : A) → context x c ≡ ok a → x ≡ ok a
context-ok (ok b) c a h = h
context-ok (err e) c a h = absurd (cc)

parse_json_strict-IsJson :
    (json : SerdeJson) (raw : Text) (v : Value)
    → parse_json_strict json raw ≡ ok v
    → IsJson json raw v
unfolding parse_json_strict
parse_json_strict-IsJson json raw v h = elim (Bool-cases (is_empty (trim raw))) [
  | inl blank ↦ absurd (cc (rw blank at h))
  | inr filled ↦
      let (w, parsed, h1) = bind-ok (context (json.from_str (trim raw)) _) _ v (rw filled at h) in
      checked w (context-ok _ _ w parsed) (Bool-cases (is_container w)) h1
]
  where
    checked :
        (w : Value)
        → json.from_str (trim raw) ≡ ok w
        → (is_container w ≡ true) ⊎ (is_container w ≡ false)
        → ◌≡◌ {A = Fallible Value}
            (if is_container w
              then ok w
              else err (text "model output must be a JSON object or array"))
            (ok v)
        → IsJson json raw v
    checked w parsed (inl good) h1 =
        let same : w ≡ v = ok_injective (rw good at h1) in
        record { parsed = rw same at parsed; container = rw same at good }
    checked w parsed (inr bad) h1 = absurd (cc (rw bad at h1))

-- The value that was read, and the text that it was read from.
record ReadFrom (r : DecisionReader) (env : Env) (raw : Text) (v : Value) : Type 0 where
  part : Text
  source :
      (part ≡ raw) ⊎ ((strict_json_enabled env ≡ false) × (part ≡ extract_json_only r.json raw))
  json_value : IsJson r.json part v

read_value-ReadFrom :
    (r : DecisionReader) (env : Env) (raw : Text) (v : Value)
    → read_value r env raw ≡ ok v
    → ReadFrom r env raw v
unfolding read_value
read_value-ReadFrom r env raw v h = elim (Bool-cases (strict_json_enabled env)) [
  | inl strict ↦ record {
    part = raw;
    source = inl refl;
    json_value = parse_json_strict-IsJson r.json raw v (rw strict at h);
  }
  | inr lenient ↦ elim (Result-cases (parse_json_strict r.json raw)) [
    | inl (w, e) ↦
        let same : w ≡ v = ok_injective (rw (lenient, e) at h) in
        record {
          part = raw;
          source = inl refl;
          json_value = parse_json_strict-IsJson r.json raw v (rw same at e);
        }
    | inr (reason, e) ↦ record {
      part = extract_json_only r.json raw;
      source = inr (lenient, refl);
      json_value =
          parse_json_strict-IsJson r.json (extract_json_only r.json raw) v (rw (lenient, e) at h);
    }
  ]
]

empty-nil : (xs : List Text) → is_empty xs ≡ true → xs ≡ []
empty-nil [] h = refl
empty-nil (x ∷ xs) h = absurd (cc)

-- A decision is accepted only from JSON: the output itself or, unless strict reading is switched on,
-- the part that `extract_json_only` finds in it, is an object or an array but for whitespace around
-- it, satisfies the schema without an error, and has the decision's fields.
pub parse_and_validate_decision-Accepted :
    (r : DecisionReader) (env : Env) (raw : Text) (d : Decision)
    → parse_and_validate_decision r env raw ≡ ok d
    → Accepted r env raw d
unfolding parse_and_validate_decision
parse_and_validate_decision-Accepted r env raw d h =
    let (v, read, h1) = bind-ok (read_value r env raw) _ d h in
    let from = read_value-ReadFrom r env raw v read in
    elim (Bool-cases (is_empty (r.validate decision_schema v))) [
      | inr errors ↦ absurd (cc (rw errors at h1))
      | inl fine ↦ record {
        part = from.part;
        value = v;
        source = from.source;
        json_value = from.json_value;
        valid = empty-nil _ fine;
        typed = context-ok _ _ d (rw fine at h1);
      }
    ]
